-- ===== src/Tests/Backend.antt =====
-- The backend: the theorems at the cluster and the PCE in memory.
use mathlib.Core.Path.{subst}
use illumio_k8s_utility_oper.Prelude.{
  String, ◌≡◌, refl, sym, inr, Bool, true, false, if◌then◌else◌, ◌==◌, string_eq, List, [], ◌∷◌,
  ◌++◌, ◌⊎◌, ◌≤◌, ◌<◌, All, arith, eq_iff,
}
use illumio_k8s_utility_oper.Result.{Result, ok, err}
use illumio_k8s_utility_oper.Exec.Errors.{Error, kube_not_found}
use illumio_k8s_utility_oper.Exec.Frame.{Keeps}
use illumio_k8s_utility_oper.Exec.Value.{Returns, ok_injective}
use illumio_k8s_utility_oper.Api.Meta.{Namespace}
use illumio_k8s_utility_oper.Api.Segmentation.{SegmentationIntent}
use illumio_k8s_utility_oper.Api.LabelMode.{valid_unknown_label_mode, resolve_unknown_label_mode}
use illumio_k8s_utility_oper.Api.LabelMode.Choice.{
  first_valid, sources, resolve_unknown_label_mode_lem,
}
use illumio_k8s_utility_oper.Policy.Compile.{whole_namespace}
use illumio_k8s_utility_oper.Policy.Enforcement.{
  enforcement_rank, Effective, admin_baseline, intent_requests, effective_enforcement,
}
use illumio_k8s_utility_oper.Policy.Enforcement.Strictest.{SetBy, Allows, effective_enforcement_lem}
use illumio_k8s_utility_oper.Policy.Profile.{resolve_cluster_profile}
use illumio_k8s_utility_oper.Policy.Profile.Choice.{
  OnSome, Serves, KeepsReads, resolve_cluster_profile-Serves,
}
use illumio_k8s_utility_oper.Policy.Draft.Calls.{KeepsDraft}
use illumio_k8s_utility_oper.Policy.Backend.{reconcile_policy}
use illumio_k8s_utility_oper.Policy.Backend.Gate.{IsUnapproved, reconcile_policy-IsUnapproved}
use illumio_k8s_utility_oper.Tests.World.{
  World, shop, memory_client, memory_conditions, memory_reader,
}
use illumio_k8s_utility_oper.Tests.Draft.{
  Unprovisioned, find_label-Unprovisioned, ensure_label-Unprovisioned, holding_draft,
}

kept_by :
    (b : Bool) (w : World)
    → Unprovisioned w
    → Unprovisioned
        (if◌then◌else◌ {A = Result Error Namespace × World} b
          (ok shop, w)
          (err kube_not_found, w)).1
kept_by true w h = h
kept_by false w h = h

pub reads : KeepsReads (memory_reader "manual" []) Unprovisioned
reads = record {
  namespace = λ name. record { holds = λ w h. kept_by (name == "shop") w h };
  profiles = record { holds = λ w h. h };
  connection = λ name. record { holds = λ w h. h };
  secret = λ namespace name. record { holds = λ w h. h };
  intents = λ namespace. record { holds = λ w h. h };
  policies = λ namespace. record { holds = λ w h. h };
}

drafts : KeepsDraft memory_client Unprovisioned
unfolding memory_client
drafts = record {
  finds = λ owner. record { holds = λ w h. h };
  creates_set = λ rs. record { holds = λ w h. h };
  finds_service = λ name. record { holds = λ w h. h };
  lists = λ href. record { holds = λ w h. h };
  creates = λ href r. record { holds = λ w h. h };
  deletes = λ href. record { holds = λ w h. h };
}

pub unapproved : Returns (All (IsUnapproved [])) (memory_reader "manual" []).list_profiles
unapproved = record {
  value = λ w l h.
      subst (All (IsUnapproved [])) (ok_injective h)
        ((ground (arith, eq_iff "manual" "auto"), λ _. ground (arith, eq_iff "" "approved")), tt);
}

reconcile_policy-IsUnapproved_example : Keeps Unprovisioned (
    reconcile_policy
      (memory_reader "manual" [])
      memory_conditions
      (λ _. memory_client)
      "shop"
      "web"
      "uid-7"
      []
      []
      (whole_namespace [] ∷ []))
reconcile_policy-IsUnapproved_example =
    reconcile_policy-IsUnapproved (memory_reader "manual" []) memory_conditions (λ _. memory_client)
      Unprovisioned reads
      (λ _. record {
        finds = find_label-Unprovisioned;
        ensures = ensure_label-Unprovisioned;
        drafts = drafts;
      })
      "shop" "web" "uid-7" [] [] (whole_namespace [] ∷ []) unapproved

reads_shop : Returns (λ ns. ns ≡ shop) ((memory_reader "manual" []).get_namespace "shop")
reads_shop = record { value = λ w ns h. sym (ok_injective h) }

resolve_cluster_profile-Serves_example :
    Returns
      (OnSome (λ p.
        (ns : Namespace) × (ns ≡ shop)
        × Serves (memory_reader "manual" []) memory_conditions (IsUnapproved []) ns p))
      (resolve_cluster_profile (memory_reader "manual" []) memory_conditions "shop")
resolve_cluster_profile-Serves_example =
    resolve_cluster_profile-Serves (memory_reader "manual" []) memory_conditions (λ ns. ns ≡ shop)
      (IsUnapproved []) "shop" reads_shop unapproved

abbrev asking : String → String → SegmentationIntent
asking name enforcement = record {
  meta = record {
    name = name;
    namespace = "shop";
    uid = name;
    generation = 1;
    annotations = [];
    deleting = false;
    finalizers = [];
  };
  status = record {
    conditions = [];
    workloads_affected = 0;
    effective_enforcement = "";
    enforcement_set_by = "";
    unknown_label_mode = "";
    unknown_label_mode_set_by = "";
    deferred_labels = [];
    created_labels = [];
    observed_generation = 0;
  };
  spec = record {
    provider = [];
    allow = [];
    allow_intra_namespace = false;
    enforcement = enforcement;
  };
}

abbrev askers : List SegmentationIntent
askers = asking "a" "selective" ∷ asking "b" "full" ∷ []

effective_enforcement_example :
    (e : Effective) × (effective_enforcement
        (memory_reader "auto" askers)
        "shop"
        "idle"
        (holding_draft "")
      ≡ (ok e, holding_draft ""))
    × (enforcement_rank "idle" ≤ enforcement_rank e.mode)
    × All (Allows e) (intent_requests askers ++ [])
    × ((e ≡ admin_baseline "idle")
        ⊎ (SetBy e (intent_requests askers ++ [])
            × (enforcement_rank "idle" < enforcement_rank e.mode)))
unfolding enforcement_rank
effective_enforcement_example =
    effective_enforcement_lem (memory_reader "auto" askers) "shop" "idle" (holding_draft "")
      (holding_draft "") (holding_draft "") askers [] refl refl (inr (omega arith))

resolve_unknown_label_mode_example :
    let choice =
      resolve_unknown_label_mode "create"
        (("microsegment.io/unknown-label-mode", "skip") ∷ [])
        [] in
    (valid_unknown_label_mode choice.mode ≡ true)
    × (choice
        ≡ first_valid (sources "create" (("microsegment.io/unknown-label-mode", "skip") ∷ []) []))
resolve_unknown_label_mode_example =
    resolve_unknown_label_mode_lem "create" (("microsegment.io/unknown-label-mode", "skip") ∷ []) []
