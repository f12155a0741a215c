-- ===== src/Tests/Controller.antt =====
-- The reconcilers: the theorems at objects in memory.
use illumio_k8s_utility_oper.Prelude.{String, ◌≡◌, refl, Bool, false, some, List, [], ◌∷◌}
use illumio_k8s_utility_oper.Result.{ok, err}
use illumio_k8s_utility_oper.Exec.{◌>>=◌}
use illumio_k8s_utility_oper.Exec.Errors.{api_error}
use illumio_k8s_utility_oper.Api.Meta.{text}
use illumio_k8s_utility_oper.Api.Segmentation.{SegmentationIntent}
use illumio_k8s_utility_oper.Api.Connection.{PceConnection, Config}
use illumio_k8s_utility_oper.Policy.Backend.{
  BackendResult, compiled_condition, not_ready, si_requeue_healthy,
}
use illumio_k8s_utility_oper.Policy.Controller.{ControlResult, ResourceApi}
use illumio_k8s_utility_oper.Connections.{
  Pinger, ConnectionApi, usable, load_config, reconcile_connection,
}
use illumio_k8s_utility_oper.Connections.Health.{Says, reconcile_connection-Says}
use illumio_k8s_utility_oper.Tests.World.{
  World, memory_conditions, memory_conditions-IsLawful, memory_reader, connection,
}
use illumio_k8s_utility_oper.Tests.Draft.{holding_draft}

-- An intent that allows all traffic within its namespace, if it allows anything.
abbrev pub stored : Bool → List String → Bool → SegmentationIntent
stored deleting finalizers intra = record {
  meta = record {
    name = "web";
    namespace = "shop";
    uid = "uid-7";
    generation = 3;
    annotations = [];
    deleting = deleting;
    finalizers = finalizers;
  };
  spec = record { provider = []; allow = []; allow_intra_namespace = intra; enforcement = "" };
  status = record {
    conditions = [];
    workloads_affected = 0;
    effective_enforcement = "";
    enforcement_set_by = "";
    unknown_label_mode = "";
    unknown_label_mode_set_by = "";
    deferred_labels = [];
    created_labels = [];
    observed_generation = 0;
  };
}

abbrev finalizers : List String
finalizers = "microsegment.io/segmentationintent" ∷ []

abbrev pub store : SegmentationIntent → ResourceApi World SegmentationIntent
store si = record {
  get = λ namespace name w. (ok si, w);
  update = λ o w. (ok o, w);
  update_status = λ o w. (ok tt, w);
}

abbrev pending : BackendResult
pending = record (not_ready "Compiled" (text "") si_requeue_healthy) {
  provisioned = some compiled_condition;
}

abbrev connections : ConnectionApi World
connections = record { get = λ name w. (ok connection, w); update_status = λ c w. (ok tt, w) }

abbrev unreachable : Config → Pinger World
unreachable cfg = record { ping = λ w. (err (api_error 503 ""), w) }

abbrev loaded : Config
loaded = record { pce_url = "pce.example.com:8443"; org_id = 1; api_key = "k"; api_secret = "s" }

loads :
    load_config connections
      (memory_reader "auto" [])
      memory_conditions
      unreachable
      connection
      (holding_draft "")
    ≡ (ok (usable loaded), holding_draft "")
unfolding load_config ◌>>=◌
loads = refl

reconcile_connection-Says_example :
    (written : PceConnection) × (r : ControlResult) × Says connections
      (memory_reader "auto" [])
      memory_conditions
      unreachable
      memory_conditions-IsLawful
      false
      connection
      written
    × (reconcile_connection connections
          (memory_reader "auto" [])
          memory_conditions
          unreachable
          "pce"
          (holding_draft "")
        ≡ (ok r, holding_draft ""))
reconcile_connection-Says_example =
    reconcile_connection-Says connections (memory_reader "auto" []) memory_conditions unreachable
      memory_conditions-IsLawful "pce" connection loaded (holding_draft "") (holding_draft "")
      (holding_draft "") refl loads
