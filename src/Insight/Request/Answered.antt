-- ===== src/Insight/Request/Answered.antt =====
-- A PolicyInsight is answered once for each request.
use illumio_k8s_utility_oper.Prelude.{String, ◌≡◌, true}
use illumio_k8s_utility_oper.Prelude.Order.{Sorter}
use illumio_k8s_utility_oper.Result.{Result}
use illumio_k8s_utility_oper.Exec.Frame.{Keeps}
use illumio_k8s_utility_oper.Api.Meta.{ConditionApi, IsLawful}
use illumio_k8s_utility_oper.Api.Cluster.{Reader}
use illumio_k8s_utility_oper.Api.Connection.{Config}
use illumio_k8s_utility_oper.Api.Insight.{Time, PolicyInsight}
use illumio_k8s_utility_oper.Pce.Traffic.{TrafficQuery}
use illumio_k8s_utility_oper.Policy.Controller.{ControlResult, done, ResourceApi}
use illumio_k8s_utility_oper.Policy.Profile.Choice.{KeepsReads}
use illumio_k8s_utility_oper.Insight.Request.{InsightClient, Limits, is_answered}

module _ {W : Type 0} (sorter : Sorter) (limits : Limits) (now : W → Time)
    (objects : ResourceApi W PolicyInsight) (k8s : Reader W) (api : ConditionApi)
    (factory : Config → InsightClient W) (lawful : IsLawful api) where
  -- The calls that a reconciliation may make: reads of the cluster and of the PCE, and writes of a
  -- status that answers the present request.
  pub record KeepsAnswers (P : W → Type 0) : Type 0 where
    pub object : (namespace name : String) → Keeps P (objects.get namespace name)
    pub reads : KeepsReads k8s P
    pub finds : (cfg : Config) (key value : String) → Keeps P ((factory cfg).find_label key value)
    pub queries : (cfg : Config) (q : TrafficQuery) → Keeps P ((factory cfg).query_traffic q)
    pub writes :
        (pi : PolicyInsight)
        → is_answered sorter limits now objects k8s api factory pi ≡ true
        → Keeps P (objects.update_status pi)

  abbrev pub Stops : ControlResult → Type 0
  Stops r = r ≡ done
