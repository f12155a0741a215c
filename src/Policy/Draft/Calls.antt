-- ===== src/Policy/Draft/Calls.antt =====
-- Which calls reconcileRuleSet makes.
use illumio_k8s_utility_oper.Prelude.{String, Option, none, some, List, [], ◌∷◌, ◌==◌, string_eq}
use illumio_k8s_utility_oper.Exec.Frame.{Keeps, Keeps-pure, Keeps-raise, Keeps-if, Keeps-bind}
use illumio_k8s_utility_oper.Pce.Objects.{Owner, Service, RuleSet, SecRule}
use illumio_k8s_utility_oper.Pce.Interfaces.{PolicyClient}
use illumio_k8s_utility_oper.Policy.Rules.{ResolvedAllow}
use illumio_k8s_utility_oper.Policy.Draft.{
  rule_set_update_type_delete, all_services_name, needs_all_services, delete_rules, create_rules,
  service_href, all_services, write_rules, for_existing, reconcile_rule_set,
}

module _ {W : Type 0} (client : PolicyClient W) (P : W → Type 0) where
  -- The calls that work on the draft, and what they keep.
  pub record KeepsDraft : Type 0 where
    pub finds : (owner : Owner) → Keeps P (client.find_rule_set_by_owner owner)
    pub creates_set : (rs : RuleSet) → Keeps P (client.create_rule_set rs)
    pub finds_service : (name : String) → Keeps P (client.find_service_by_name name)
    pub lists : (href : String) → Keeps P (client.list_rules href)
    pub creates : (href : String) (r : SecRule) → Keeps P (client.create_rule href r)
    pub deletes : (href : String) → Keeps P (client.delete_rule href)

module _ {W : Type 0} (client : PolicyClient W) (P : W → Type 0) (k : KeepsDraft client P) where
  delete_rules-Keeps : (rules : List SecRule) → Keeps P (delete_rules client rules)
  unfolding delete_rules
  delete_rules-Keeps [] = Keeps-pure tt
  delete_rules-Keeps (r ∷ rules) = Keeps-bind _ _ (k.deletes r.href) (λ _. delete_rules-Keeps rules)

  create_rules-Keeps :
      (href : String) (rules : List SecRule) → Keeps P (create_rules client href rules)
  unfolding create_rules
  create_rules-Keeps href [] = Keeps-pure tt
  create_rules-Keeps href (r ∷ rules) =
      Keeps-bind _ _ (k.creates href r) (λ _. create_rules-Keeps href rules)

  service_href-Keeps : (svc : Option Service) → Keeps P (service_href client svc)
  unfolding service_href
  service_href-Keeps none = Keeps-raise _
  service_href-Keeps (some svc) = Keeps-pure _

  all_services-Keeps : (resolved : List ResolvedAllow) → Keeps P (all_services client resolved)
  unfolding all_services
  all_services-Keeps resolved =
      Keeps-if (needs_all_services resolved) _ _
        (Keeps-bind _ _ (k.finds_service all_services_name) service_href-Keeps) (Keeps-pure _)

  write_rules-Keeps :
      (href : String) (narrow : List String) (resolved : List ResolvedAllow)
      → Keeps P (write_rules client href narrow resolved)
  unfolding write_rules
  write_rules-Keeps href narrow resolved =
      Keeps-bind _ _ (all_services-Keeps resolved)
        λ svc. Keeps-bind _ _ (create_rules-Keeps href _) (λ _. Keeps-pure _)

  module _ (cr_name namespace : String) (owner : Owner) (scope_hrefs narrow_hrefs : List String)
      (resolved : List ResolvedAllow) where
    for_existing-Keeps :
        (existing : Option RuleSet)
        → Keeps P
            (for_existing client cr_name namespace owner scope_hrefs narrow_hrefs resolved existing)
    unfolding for_existing
    for_existing-Keeps none =
        Keeps-bind _ _ (k.creates_set _)
          (λ created. write_rules-Keeps created.href narrow_hrefs resolved)
    for_existing-Keeps (some rs) =
        Keeps-if (rs.update_type == rule_set_update_type_delete) _ _ (Keeps-raise _) (
          Keeps-bind _ _ (k.lists rs.href) λ rules.
            Keeps-bind _ _ (delete_rules-Keeps rules)
              λ _. write_rules-Keeps rs.href narrow_hrefs resolved)

    -- Reconciling the ruleset works on the draft alone: it makes no other call than these six.
    pub reconcile_rule_set-Keeps :
        Keeps P
          (reconcile_rule_set client cr_name namespace owner scope_hrefs narrow_hrefs resolved)
    unfolding reconcile_rule_set
    reconcile_rule_set-Keeps = Keeps-bind _ _ (k.finds owner) for_existing-Keeps
