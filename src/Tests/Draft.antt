-- ===== src/Tests/Draft.antt =====
-- The draft ruleset: runs against the PCE in memory, and the theorems at these runs.
use illumio_k8s_utility_oper.Prelude.{
  String, ◌≡◌, refl, ap, true, false, Option, none, some, List, [], ◌∷◌, ◌==◌, string_eq,
  if◌then◌else◌,
}
use illumio_k8s_utility_oper.Result.{Result, ok}
use illumio_k8s_utility_oper.Exec.{◌>>=◌}
use illumio_k8s_utility_oper.Exec.Errors.{Error}
use illumio_k8s_utility_oper.Exec.Frame.{Keeps}
use illumio_k8s_utility_oper.Pce.Objects.{Owner, Label, RuleSet, SecRule}
use illumio_k8s_utility_oper.Policy.Compile.{labelled}
use illumio_k8s_utility_oper.Policy.Rules.{ResolvedAllow, build_rules}
use illumio_k8s_utility_oper.Policy.Resolve.{resolve_allows}
use illumio_k8s_utility_oper.Policy.Resolve.Calls.{resolve_allows-Keeps}
use illumio_k8s_utility_oper.Policy.Draft.{needs_all_services, reconcile_rule_set}
use illumio_k8s_utility_oper.Policy.Draft.Replace.{Holds, reconcile_rule_set-Holds}
use illumio_k8s_utility_oper.Tests.World.{
  label_of, found_label, ensured_label, World, memory_client, memory_client-IsLawful, rules_of,
}

abbrev pub operator : Owner
operator = record { data_set = "illumio-operator"; reference = "uid-7" }

abbrev pub drafted : String → RuleSet
drafted update_type = record {
  href = "/rs";
  name = "ms-shop-web";
  enabled = true;
  scopes = [];
  external_data_set = "illumio-operator";
  external_data_reference = "uid-7";
  update_type = update_type;
}

abbrev old_rule : SecRule
old_rule = record {
  href = "/rs/rules/1";
  enabled = true;
  resolve_labels_as = record { providers = []; consumers = [] };
  providers = [];
  consumers = [];
  ingress_services = [];
  unscoped_consumers = true;
}

-- A PCE that holds the operator's ruleset with one rule of an earlier draft.
abbrev pub holding_draft : String → World
holding_draft update_type = record {
  next = 1;
  labels = [];
  rule_sets = drafted update_type ∷ [];
  rules = λ href. if href == "/rs" then old_rule ∷ [] else [];
  provisioned = [];
}

abbrev intra : List ResolvedAllow
intra = record { consumer_hrefs = []; all_workloads = true; intra_scope = true; ports = [] } ∷ []

abbrev redraft : Result Error String × World
redraft =
    reconcile_rule_set memory_client "web" "shop" operator ("/l/1" ∷ []) [] intra (holding_draft "")

redraft_succeeds : redraft.0 ≡ ok "/rs"
unfolding reconcile_rule_set memory_client ◌>>=◌ needs_all_services build_rules
redraft_succeeds = refl

reconcile_rule_set-Holds_example :
    Holds memory_client rules_of memory_client-IsLawful redraft.1 "/rs" [] intra
reconcile_rule_set-Holds_example =
    reconcile_rule_set-Holds memory_client rules_of memory_client-IsLawful "web" "shop" operator
      ("/l/1" ∷ []) [] intra "/rs" (holding_draft "") redraft.1
      (ap (λ r. (r, redraft.1)) redraft_succeeds)

abbrev pub Unprovisioned : World → Type 0
Unprovisioned w = w.provisioned ≡ []

found_label-Unprovisioned :
    (o : Option Label) (w : World) → Unprovisioned w → Unprovisioned (found_label o w).1
unfolding found_label
found_label-Unprovisioned none w h = h
found_label-Unprovisioned (some l) w h = h

ensured_label-Unprovisioned :
    (key value : String) (owner : Owner) (o : Option Label) (w : World)
    → Unprovisioned w
    → Unprovisioned (ensured_label key value owner o w).1
unfolding ensured_label
ensured_label-Unprovisioned key value owner none w h = h
ensured_label-Unprovisioned key value owner (some l) w h = h

pub find_label-Unprovisioned :
    (key value : String) → Keeps Unprovisioned (memory_client.find_label key value)
unfolding memory_client
find_label-Unprovisioned key value = record {
  holds = λ w. found_label-Unprovisioned (label_of w.labels key value) w;
}

pub ensure_label-Unprovisioned :
    (key value : String) (owner : Owner)
    → Keeps Unprovisioned (memory_client.ensure_label key value owner)
unfolding memory_client
ensure_label-Unprovisioned key value owner = record {
  holds = λ w. ensured_label-Unprovisioned key value owner (label_of w.labels key value) w;
}

resolve_allows-Keeps_example :
    Keeps Unprovisioned (
      resolve_allows memory_client "create" operator (labelled (("app", "web") ∷ []) false [] ∷ []))
resolve_allows-Keeps_example =
    resolve_allows-Keeps memory_client Unprovisioned find_label-Unprovisioned "create" operator
      (λ _ key value _. ensure_label-Unprovisioned key value operator)
      (labelled (("app", "web") ∷ []) false [] ∷ [])
