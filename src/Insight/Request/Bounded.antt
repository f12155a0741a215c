-- ===== src/Insight/Request/Bounded.antt =====
-- What a reconciliation of a PolicyInsight asks of the PCE at most, and that a failed write of a
-- computed status is not tried again.
use illumio_k8s_utility_oper.Prelude.{ℕ, ◌≤◌, Bool, String, List}
use illumio_k8s_utility_oper.Prelude.Order.{Sorter}
use illumio_k8s_utility_oper.Result.{Result, ok, err}
use illumio_k8s_utility_oper.Exec.{Exec}
use illumio_k8s_utility_oper.Exec.Errors.{Error, is_kube_not_found}
use illumio_k8s_utility_oper.Exec.Costs.{
  Costs, Costs-Keeps, Costs-try, Costs-if, Costs-bind, FailsKeeping, FailsKeeping-Keeps,
  FailsKeeping-if, FailsKeeping-bind, FailsKeeping-dropped,
}
use illumio_k8s_utility_oper.Exec.Frame.{Keeps, Keeps-pure, Keeps-raise, Keeps-try, Keeps-bind}
use illumio_k8s_utility_oper.Api.Meta.{ConditionApi, condition_false, Message}
use illumio_k8s_utility_oper.Api.Cluster.{Reader}
use illumio_k8s_utility_oper.Api.Connection.{Config}
use illumio_k8s_utility_oper.Api.Insight.{Time, PolicyInsight, ObservationWindow}
use illumio_k8s_utility_oper.Pce.Traffic.{TrafficQuery, TrafficFlow}
use illumio_k8s_utility_oper.Policy.Controller.{done, ResourceApi}
use illumio_k8s_utility_oper.Policy.Profile.{Connected}
use illumio_k8s_utility_oper.Policy.Profile.Choice.{KeepsReads}
use illumio_k8s_utility_oper.Insight.Scope.{Prepared, gone, refused, scoped}
use illumio_k8s_utility_oper.Insight.Scope.Calls.{prepare-Keeps}
use illumio_k8s_utility_oper.Insight.Request.{
  InsightClient, Limits, insight_refusals, is_answered, put_answer, fail_insight, window_of,
  write_computed, after_outbound, after_inbound, query_both, on_prepared, answer, reconcile_insight,
}

module _ {W : Type 0} (sorter : Sorter) (limits : Limits) (now : W → Time)
    (objects : ResourceApi W PolicyInsight) (k8s : Reader W) (api : ConditionApi)
    (factory : Config → InsightClient W) where
  -- Every call but the queries for traffic and the writes of a status that says Ready.
  pub record KeepsRefusals (P : W → Type 0) : Type 0 where
    pub object : (namespace name : String) → Keeps P (objects.get namespace name)
    pub reads : KeepsReads k8s P
    pub finds : (cfg : Config) (key value : String) → Keeps P ((factory cfg).find_label key value)
    pub refuses :
        (pi : PolicyInsight) (reason : String) (message : Message)
        → Keeps P (
            objects.update_status (
              put_answer sorter limits now objects k8s api factory condition_false reason message
                pi))

  module _ (P : W → Type 0) (calls : KeepsRefusals P) where
    refusal-Keeps :
        (pi : PolicyInsight) (reason : String) (message : Message)
        → Keeps P (fail_insight sorter limits now objects k8s api factory pi reason message)
    unfolding fail_insight
    refusal-Keeps pi reason message =
        Keeps-bind _ _ (calls.refuses pi reason message) λ _. Keeps-pure _

  module _ (P : W → Type 0) (calls : KeepsRefusals P)
      (queries : (cfg : Config) (q : TrafficQuery) → Keeps P ((factory cfg).query_traffic q)) where
    after_outbound-FailsKeeping :
        (pi : PolicyInsight) (window : ObservationWindow) (inbound : List TrafficFlow × Bool)
        (r : Result Error (List TrafficFlow × Bool))
        → FailsKeeping P
            (after_outbound sorter limits now objects k8s api factory pi window inbound r)
    unfolding after_outbound write_computed
    after_outbound-FailsKeeping pi window inbound (err e) =
        FailsKeeping-Keeps P _ (refusal-Keeps P calls pi _ _)
    after_outbound-FailsKeeping pi window inbound (ok outbound) = FailsKeeping-dropped P _ done

    after_inbound-FailsKeeping :
        (pi : PolicyInsight) (c : Connected) (hrefs : List String) (window : ObservationWindow)
        (r : Result Error (List TrafficFlow × Bool))
        → FailsKeeping P
            (after_inbound sorter limits now objects k8s api factory pi c hrefs window r)
    unfolding after_inbound
    after_inbound-FailsKeeping pi c hrefs window (err e) =
        FailsKeeping-Keeps P _ (refusal-Keeps P calls pi _ _)
    after_inbound-FailsKeeping pi c hrefs window (ok inbound) =
        FailsKeeping-bind P _ _ (Keeps-try _ (queries c.config _))
          (after_outbound-FailsKeeping pi window inbound)

    on_prepared-FailsKeeping :
        (pi : PolicyInsight) (p : Prepared)
        → FailsKeeping P (on_prepared sorter limits now objects k8s api factory pi p)
    unfolding on_prepared query_both
    on_prepared-FailsKeeping pi gone = FailsKeeping-Keeps P _ (Keeps-pure _)
    on_prepared-FailsKeeping pi (refused reason message) =
        FailsKeeping-Keeps P _ (refusal-Keeps P calls pi reason message)
    on_prepared-FailsKeeping pi (scoped c hrefs) = record {
      failed = λ w.
          let window = window_of sorter limits now objects k8s api factory pi (now w) in
          (FailsKeeping-bind P _ _ (Keeps-try _ (queries c.config _))
              (after_inbound-FailsKeeping pi c hrefs window)).failed
            w;
    }

    -- If a reconciliation ends with an error, which asks for another attempt, then no computed status was
    -- written: whatever every other call keeps is kept. So a failed write of the computed status, which
    -- took two expensive queries, is not tried again.
    pub reconcile_insight-FailsKeeping :
        (namespace name : String)
        → FailsKeeping P
            (reconcile_insight sorter limits now objects k8s api factory namespace name)
    unfolding reconcile_insight answer
    reconcile_insight-FailsKeeping namespace name =
        FailsKeeping-bind P _ _ (Keeps-try _ (calls.object namespace name)) (elim [
          | err e ↦
              FailsKeeping-if P (is_kube_not_found e) _ _ (FailsKeeping-Keeps P _ (Keeps-pure _))
                (FailsKeeping-Keeps P _ (Keeps-raise e))
          | ok pi ↦
              FailsKeeping-if P (is_answered sorter limits now objects k8s api factory pi) _ _
                (FailsKeeping-Keeps P _ (Keeps-pure _))
                (FailsKeeping-bind P _ _
                  (prepare-Keeps _ k8s api insight_refusals P calls.reads calls.finds _)
                  (on_prepared-FailsKeeping pi))
        ])

  module _ (count : W → ℕ) (calls : (k : ℕ) → KeepsRefusals (λ w. count w ≤ k))
      (writes : (k : ℕ) (pi : PolicyInsight) → Keeps (λ w. count w ≤ k) (objects.update_status pi))
      (queries : (cfg : Config) (q : TrafficQuery)
        → Costs count 1 ((factory cfg).query_traffic q)) where
    free :
        {A : Type 0} (n : ℕ) (m : Exec W A)
        → ((k : ℕ) → Keeps (λ w. count w ≤ k) m)
        → Costs count n m
    free n m k = Costs-Keeps count n m k

    after_outbound-Costs :
        (pi : PolicyInsight) (window : ObservationWindow) (inbound : List TrafficFlow × Bool)
        (r : Result Error (List TrafficFlow × Bool))
        → Costs count 0
            (after_outbound sorter limits now objects k8s api factory pi window inbound r)
    unfolding after_outbound write_computed
    after_outbound-Costs pi window inbound (err e) = free 0 _ λ k. refusal-Keeps _ (calls k) pi _ _
    after_outbound-Costs pi window inbound (ok outbound) =
        free 0 _ λ k. Keeps-bind _ _ (Keeps-try _ (writes k _)) λ _. Keeps-pure _

    after_inbound-Costs :
        (pi : PolicyInsight) (c : Connected) (hrefs : List String) (window : ObservationWindow)
        (r : Result Error (List TrafficFlow × Bool))
        → Costs count 1
            (after_inbound sorter limits now objects k8s api factory pi c hrefs window r)
    unfolding after_inbound
    after_inbound-Costs pi c hrefs window (err e) = free 1 _ λ k. refusal-Keeps _ (calls k) pi _ _
    after_inbound-Costs pi c hrefs window (ok inbound) =
        Costs-bind count 1 0 _ _ (Costs-try count 1 _ (queries c.config _))
          (after_outbound-Costs pi window inbound)

    on_prepared-Costs :
        (pi : PolicyInsight) (p : Prepared)
        → Costs count 2 (on_prepared sorter limits now objects k8s api factory pi p)
    unfolding on_prepared query_both
    on_prepared-Costs pi gone = free 2 _ λ k. Keeps-pure _
    on_prepared-Costs pi (refused reason message) =
        free 2 _ λ k. refusal-Keeps _ (calls k) pi reason message
    on_prepared-Costs pi (scoped c hrefs) = record {
      bound = λ w.
          let window = window_of sorter limits now objects k8s api factory pi (now w) in
          (Costs-bind count 1 1 _ _ (Costs-try count 1 _ (queries c.config _))
              (after_inbound-Costs pi c hrefs window)).bound
            w;
    }

    -- However it ends, a reconciliation makes at most two queries for traffic: if each raises a number of
    -- the state by one at most and no other call raises it, it is raised by two at most.
    pub reconcile_insight-Costs :
        (namespace name : String)
        → Costs count 2 (reconcile_insight sorter limits now objects k8s api factory namespace name)
    unfolding reconcile_insight answer
    reconcile_insight-Costs namespace name =
        Costs-bind count 0 2 _ _ (free 0 _ λ k. Keeps-try _ ((calls k).object namespace name))
          (elim [
            | err e ↦
                Costs-if count 2 (is_kube_not_found e) _ _ (free 2 _ λ k. Keeps-pure _)
                  (free 2 _ λ k. Keeps-raise e)
            | ok pi ↦
                Costs-if count 2 (is_answered sorter limits now objects k8s api factory pi) _ _
                  (free 2 _ λ k. Keeps-pure _)
                  (Costs-bind count 0 2 _ _
                    (free 0 _ λ k.
                      prepare-Keeps _ k8s api insight_refusals _ (calls k).reads (calls k).finds _)
                    (on_prepared-Costs pi))
          ])
