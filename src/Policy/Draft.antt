-- ===== src/Policy/Draft.antt =====
-- internal/controller/policybackend.go, reconcileRuleSet: the owned draft ruleset is created, or its
-- rules are replaced.
pub mod Calls
pub mod Replace
use illumio_k8s_utility_oper.Prelude.{
  String, Bool, true, false, ◌||◌, Option, none, some, List, [], ◌∷◌, ◌==◌, string_eq, is_empty,
  if◌then◌else◌,
}
use illumio_k8s_utility_oper.Exec.{Exec, pure, raise, ◌>>=◌, ◌>>◌}
use illumio_k8s_utility_oper.Exec.Errors.{rule_set_pending_deletion, service_not_found}
use illumio_k8s_utility_oper.Pce.Objects.{Owner, Service, RuleSet, SecRule}
use illumio_k8s_utility_oper.Pce.Interfaces.{PolicyClient}
use illumio_k8s_utility_oper.Policy.Rules.{ResolvedAllow, build_rule_set, build_rules}

abbrev pub rule_set_update_type_delete : String
rule_set_update_type_delete = "delete"

abbrev pub all_services_name : String
all_services_name = "All Services"

-- Whether the loop over `resolved` meets an entry without ports.
unfoldable pub needs_all_services : List ResolvedAllow → Bool
needs_all_services [] = false
needs_all_services (a ∷ resolved) = is_empty a.ports || needs_all_services resolved

module _ {W : Type 0} (client : PolicyClient W) where
  delete_rules : List SecRule → Exec W (Unit {0})
  delete_rules [] = pure tt
  delete_rules (r ∷ rules) = do client.delete_rule r.href; delete_rules rules

  create_rules : String → List SecRule → Exec W (Unit {0})
  create_rules rs_href [] = pure tt
  create_rules rs_href (r ∷ rules) = do
    created ← client.create_rule rs_href r
    create_rules rs_href rules

  service_href : Option Service → Exec W String
  service_href none = raise (service_not_found all_services_name)
  service_href (some svc) = pure svc.href

  all_services : List ResolvedAllow → Exec W String
  unfolding service_href
  all_services resolved =
      if needs_all_services resolved
      then (do svc ← client.find_service_by_name all_services_name; service_href svc)
      else pure ""

  -- The part behind the ruleset's lookup: every rule is written anew.
  write_rules : String → List String → List ResolvedAllow → Exec W String
  write_rules rs_href narrow_hrefs resolved = do
    all_services_href ← all_services resolved
    create_rules rs_href (build_rules narrow_hrefs all_services_href resolved)
    pure rs_href

  module _ (cr_name namespace : String) (owner : Owner) (scope_hrefs narrow_hrefs : List String)
      (resolved : List ResolvedAllow) where
    for_existing : Option RuleSet → Exec W String
    for_existing none = do
      created ← client.create_rule_set (build_rule_set namespace cr_name scope_hrefs owner)
      write_rules created.href narrow_hrefs resolved
    for_existing (some existing) =
        if existing.update_type == rule_set_update_type_delete
        then raise rule_set_pending_deletion
        else do
          rules ← client.list_rules existing.href
          delete_rules rules
          write_rules existing.href narrow_hrefs resolved

    unfoldable pub reconcile_rule_set : Exec W String
    unfolding delete_rules create_rules all_services write_rules for_existing
    reconcile_rule_set = do existing ← client.find_rule_set_by_owner owner; for_existing existing
