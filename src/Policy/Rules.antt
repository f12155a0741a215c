-- ===== src/Policy/Rules.antt =====
-- internal/controller/policyir.go, RuleSetName, BuildRuleSet and BuildRules: the ruleset and the
-- rules that stand for the resolved allow entries.
use illumio_k8s_utility_oper.Prelude.{
  String, ◌<>◌, Bool, true, not, List, [], ◌∷◌, map, is_empty, if◌then◌else◌,
}
use illumio_k8s_utility_oper.Pce.Objects.{
  Owner, RuleSetScope, Actor, all_workloads_actor, label_actor, IngressService, RuleSet, SecRule,
}

pub record ResolvedAllow : Type 0 where
  pub consumer_hrefs : List String
  pub all_workloads : Bool
  pub intra_scope : Bool
  pub ports : List IngressService

abbrev pub resolve_workloads : String
resolve_workloads = "workloads"

unfoldable pub rule_set_name : String → String → String
rule_set_name namespace cr_name = "k8s-" <> namespace <> "-" <> cr_name

abbrev pub rule_set_scope : String → RuleSetScope
rule_set_scope h = record { label = record { href = h } }

unfoldable pub build_rule_set : String → String → List String → Owner → RuleSet
unfolding rule_set_name
build_rule_set namespace cr_name provider_hrefs owner = record {
  href = "";
  name = rule_set_name namespace cr_name;
  enabled = true;
  scopes = map rule_set_scope provider_hrefs ∷ [];
  external_data_set = owner.data_set;
  external_data_reference = owner.reference;
  update_type = "";
}

abbrev pub rule_providers : List String → List Actor
rule_providers [] = all_workloads_actor ∷ []
rule_providers (h ∷ hrefs) = map label_actor (h ∷ hrefs)

abbrev pub rule_consumers : ResolvedAllow → List Actor
rule_consumers a =
    if a.all_workloads then all_workloads_actor ∷ [] else map label_actor a.consumer_hrefs

abbrev pub rule_services : String → List IngressService → List IngressService
rule_services all_services_href ports =
    if is_empty ports then record { proto = 0; port = 0; href = all_services_href } ∷ [] else ports

-- The rule of one allow entry.
unfoldable pub build_rule : List String → String → ResolvedAllow → SecRule
build_rule provider_hrefs all_services_href a = record {
  href = "";
  enabled = true;
  resolve_labels_as = record {
    providers = resolve_workloads ∷ [];
    consumers = resolve_workloads ∷ [];
  };
  providers = rule_providers provider_hrefs;
  consumers = rule_consumers a;
  ingress_services = rule_services all_services_href a.ports;
  unscoped_consumers = not a.intra_scope;
}

-- The loop over `allows`.
unfoldable pub build_rules : List String → String → List ResolvedAllow → List SecRule
unfolding build_rule
build_rules provider_hrefs all_services_href [] = []
build_rules provider_hrefs all_services_href (a ∷ allows) =
    build_rule provider_hrefs all_services_href a
    ∷ build_rules provider_hrefs all_services_href allows
