-- ===== src/Tests/Finalizing.antt =====
-- The finalizer and the life of a resource, at a PCE that keeps deletions pending.
use illumio_k8s_utility_oper.Prelude.{
  ◌≡◌, ◌≢◌, String, Option, none, some, List, [], ◌∷◌, string_eq,
}
use illumio_k8s_utility_oper.Result.{Result, ok}
use illumio_k8s_utility_oper.Exec.{Exec}
use illumio_k8s_utility_oper.Exec.Triple.{Triple}
use illumio_k8s_utility_oper.Api.Segmentation.{SegmentationIntent}
use illumio_k8s_utility_oper.Pce.Objects.{RuleSet}
use illumio_k8s_utility_oper.Pce.Interfaces.{PolicyClient}
use illumio_k8s_utility_oper.Policy.Profile.{ReadyProfile}
use illumio_k8s_utility_oper.Tests.World.{World, memory_client, profile_in}
use illumio_k8s_utility_oper.Tests.Draft.{drafted}

abbrev sole_profile : ReadyProfile
sole_profile = record {
  profile = profile_in "manual";
  connected = record {
    config = record {
      pce_url = "pce.example.com:8443";
      org_id = 1;
      api_key = "k";
      api_secret = "s";
    };
    external_data_set = "illumio-operator";
  };
}

-- A requested deletion is listed as pending until the next provisioning, which carries it out.
shown : List RuleSet → List String → Option RuleSet
shown [] pending = none
shown (rs ∷ sets) [] = some (drafted "")
shown (rs ∷ sets) (h ∷ pending) = some (drafted "delete")

provisioned : List RuleSet → List String → List RuleSet
provisioned sets [] = sets
provisioned sets (h ∷ pending) = []

unfoldable pending_client : PolicyClient World
unfolding memory_client shown provisioned
pending_client = record memory_client {
  find_rule_set_by_owner = λ owner w. (ok (shown w.rule_sets w.provisioned), w);
  delete_rule_set = λ href w. (ok tt, record w { provisioned = href ∷ w.provisioned });
  provision_rule_sets = λ hrefs description w. (
    ok (record { href = ""; version = 1; workloads_affected = 3 }),
    record w { rule_sets = provisioned w.rule_sets w.provisioned; provisioned = [] },
  );
}

abbrev Pending : String → World → Type 0
Pending href w = w.provisioned ≢ []

abbrev Absent : World → Type 0
Absent w = w.rule_sets ≡ []

abbrev IsOwn : SegmentationIntent → Type 0
IsOwn o = (o.meta.namespace ≡ "shop") × (o.meta.uid ≡ "uid-7") × (o.meta.annotations ≡ [])
