-- ===== src/Insight/Request.antt =====
-- internal/controller/policyinsight_controller.go: the reconciler of a PolicyInsight.
pub mod Answered
pub mod Bounded
pub mod Status
use illumio_k8s_utility_oper.Prelude.{
  ℕ, ◌+◌, ◌*◌, String, ◌<>◌, Bool, true, false, ◌&&◌, ◌||◌, Option, none, some, List, [], ◌∷◌,
  length, leb, ◌==◌, nat_eq, string_eq, if◌then◌else◌,
}
use illumio_k8s_utility_oper.Prelude.Int.{ℤ, pos, negsuc, ◌-ℤ◌}
use illumio_k8s_utility_oper.Prelude.Order.{Sorter}
use illumio_k8s_utility_oper.Prelude.Dict.{get}
use illumio_k8s_utility_oper.Result.{Result, ok, err}
use illumio_k8s_utility_oper.Exec.{Exec, pure, raise, try, ◌>>=◌, ◌>>◌}
use illumio_k8s_utility_oper.Exec.Errors.{Error, is_kube_not_found}
use illumio_k8s_utility_oper.Api.Meta.{
  ConditionApi, ConditionStatus, condition_true, condition_false, Condition, Message, text,
  about_counts, about_error,
}
use illumio_k8s_utility_oper.Api.Cluster.{Reader}
use illumio_k8s_utility_oper.Api.Connection.{Config}
use illumio_k8s_utility_oper.Api.Insight.{
  Time, ObservationWindow, PreflightSummary, PolicyInsight, PolicyInsightStatus, annotation_refresh,
}
use illumio_k8s_utility_oper.Pce.Objects.{Label}
use illumio_k8s_utility_oper.Pce.Traffic.{TrafficQuery, TrafficFlow}
use illumio_k8s_utility_oper.Policy.Controller.{ControlResult, done, ResourceApi}
use illumio_k8s_utility_oper.Policy.Profile.{Connected}
use illumio_k8s_utility_oper.Insight.Flows.{
  direction_inbound, direction_outbound, classify_flows, summarize_flows, cap_findings,
}
use illumio_k8s_utility_oper.Insight.Scope.{
  Prepared, gone, refused, scoped, Refusals, pce_fail_reason, prepare,
}

-- `InsightClient`: the flows of a query, and whether they are truncated.
pub record InsightClient (W : Type 0) : Type 0 where
  pub find_label : String → String → Exec W Label
  pub query_traffic : TrafficQuery → Exec W (List TrafficFlow × Bool)

-- The fields of the reconciler that tests set; 0 or less stands for the default.
pub record Limits : Type 0 where
  pub max_results : ℤ
  pub max_findings : ℤ

-- A setting, or its default if it is not positive.
abbrev pub positive_or : ℕ → ℤ → ℕ
positive_or default (negsuc n) = default
positive_or default (pos n) = if leb n 0 then default else n

abbrev pub day : ℕ
day = 86400000000000

abbrev insight_refusals : Refusals
insight_refusals = record {
  not_ready =
      text
        "no Onboarded ClusterProfile / connected PCEConnection for this namespace; re-request after it is ready";
  no_scope = text "namespace is not managed or has no scope labels (app/env) to preflight";
}

abbrev pub is_set {ℓ} : {A : Type ℓ} → Option A → Bool
is_set none = false
is_set (some a) = true

module _ {W : Type 0} (sorter : Sorter) (limits : Limits) (now : W → Time)
    (objects : ResourceApi W PolicyInsight) (k8s : Reader W) (api : ConditionApi)
    (factory : Config → InsightClient W) where
  abbrev pub refresh_of : PolicyInsight → String
  refresh_of pi = get pi.meta.annotations annotation_refresh

  -- The request, as generation and refresh token, has its answer in the status.
  abbrev pub is_answered : PolicyInsight → Bool
  is_answered pi =
      pi.status.observed_generation == pi.meta.generation
      && (pi.status.observed_refresh == refresh_of pi
          && is_set (api.find_condition pi.status.conditions "Ready"))

  -- The Ready condition, and the request as observed.
  abbrev pub put_answer : ConditionStatus → String → Message → PolicyInsight → PolicyInsight
  put_answer status reason message pi = record pi {
    status = record pi.status {
      conditions = api.set_condition pi.status.conditions (record {
        kind = "Ready";
        status = status;
        reason = reason;
        message = message;
        observed_generation = 0;
      });
      observed_generation = pi.meta.generation;
      observed_refresh = refresh_of pi;
    };
  }

  fail_insight : PolicyInsight → String → Message → Exec W ControlResult
  fail_insight pi reason message = do
    objects.update_status (put_answer condition_false reason message pi)
    pure done

  abbrev pub window_of : PolicyInsight → Time → ObservationWindow
  window_of pi to = record { from = to -ℤ pos (positive_or 7 pi.spec.lookback_days * day); to = to }

  abbrev pub inbound_query : PolicyInsight → List String → ObservationWindow → TrafficQuery
  inbound_query pi hrefs window = record {
    query_name = "preflight-inbound-" <> pi.meta.namespace;
    source_label_hrefs = [];
    destination_label_hrefs = hrefs;
    from = window.from;
    to = window.to;
    max_results = pos (positive_or 10000 limits.max_results);
  }

  abbrev pub outbound_query : PolicyInsight → List String → ObservationWindow → TrafficQuery
  outbound_query pi hrefs window = record {
    query_name = "preflight-outbound-" <> pi.meta.namespace;
    source_label_hrefs = hrefs;
    destination_label_hrefs = [];
    from = window.from;
    to = window.to;
    max_results = pos (positive_or 10000 limits.max_results);
  }

  -- The flows of both queries, with their truncation.
  pub record Observed : Type 0 where
    pub in_flows : List TrafficFlow
    pub in_truncated : Bool
    pub out_flows : List TrafficFlow
    pub out_truncated : Bool

  unfoldable pub put_computed : ObservationWindow → Observed → PolicyInsight → PolicyInsight
  put_computed window o pi =
      let inbound_full = classify_flows sorter o.in_flows direction_inbound in
      let outbound_full = classify_flows sorter o.out_flows direction_outbound in
      let in_summary = summarize_flows o.in_flows in
      let out_summary = summarize_flows o.out_flows in
      let max_findings = pos (positive_or 500 limits.max_findings) in
      let inbound = cap_findings sorter inbound_full max_findings in
      let outbound = cap_findings sorter outbound_full max_findings in
      put_answer condition_true "Computed"
        (about_counts
          "inbound: %d allowed / %d potentially-blocked / %d blocked; outbound: %d allowed / %d potentially-blocked / %d blocked"
          (in_summary.allowed ∷ in_summary.potentially_blocked ∷ in_summary.blocked
            ∷ out_summary.allowed ∷ out_summary.potentially_blocked ∷ out_summary.blocked ∷ []))
        (record pi {
          status = record pi.status {
            observed_window = some window;
            summary = some (record { inbound = in_summary; outbound = out_summary });
            flows_analyzed = length o.in_flows + length o.out_flows;
            truncated = o.in_truncated || o.out_truncated;
            would_block_inbound = inbound.0;
            would_block_inbound_truncated = inbound.1;
            would_block_outbound = outbound.0;
            would_block_outbound_truncated = outbound.1;
            inbound_blocked_count = length inbound_full;
            outbound_blocked_count = length outbound_full;
          };
        })

  -- The error of the last write is logged and dropped.
  write_computed : PolicyInsight → Exec W ControlResult
  write_computed pi = do r ← try (objects.update_status pi); pure done

  after_outbound :
      PolicyInsight
      → ObservationWindow
      → List TrafficFlow × Bool
      → Result Error (List TrafficFlow × Bool)
      → Exec W ControlResult
  unfolding fail_insight write_computed
  after_outbound pi window inbound (err e) =
      fail_insight pi (pce_fail_reason e) (about_error "outbound traffic query: %s" e)
  after_outbound pi window inbound (ok outbound) = write_computed (
      put_computed window
        (record {
          in_flows = inbound.0;
          in_truncated = inbound.1;
          out_flows = outbound.0;
          out_truncated = outbound.1;
        })
        pi)

  after_inbound :
      PolicyInsight
      → Connected
      → List String
      → ObservationWindow
      → Result Error (List TrafficFlow × Bool)
      → Exec W ControlResult
  unfolding fail_insight after_outbound
  after_inbound pi c hrefs window (err e) =
      fail_insight pi (pce_fail_reason e) (about_error "inbound traffic query: %s" e)
  after_inbound pi c hrefs window (ok inbound) = do
    r ← try ((factory c.config).query_traffic (outbound_query pi hrefs window))
    after_outbound pi window inbound r

  query_both : PolicyInsight → Connected → List String → ObservationWindow → Exec W ControlResult
  unfolding after_inbound
  query_both pi c hrefs window = do
    r ← try ((factory c.config).query_traffic (inbound_query pi hrefs window))
    after_inbound pi c hrefs window r

  on_prepared : PolicyInsight → Prepared → Exec W ControlResult
  unfolding fail_insight query_both
  on_prepared pi gone = pure done
  on_prepared pi (refused reason message) = fail_insight pi reason message
  on_prepared pi (scoped c hrefs) = λ w. query_both pi c hrefs (window_of pi (now w)) w

  answer : PolicyInsight → Exec W ControlResult
  unfolding on_prepared
  answer pi = do
    p ← prepare (λ cfg. (factory cfg).find_label) k8s api insight_refusals pi.meta.namespace
    on_prepared pi p

  unfoldable pub reconcile_insight : String → String → Exec W ControlResult
  unfolding answer
  reconcile_insight namespace name = do
    r ← try (objects.get namespace name)
    elim r [
      | err e ↦ if is_kube_not_found e then pure done else raise e
      | ok pi ↦ if is_answered pi then pure done else answer pi
    ]
