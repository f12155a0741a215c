-- ===== src/Pce/Interfaces.antt =====
-- The interfaces through which the controllers call the PCE: internal/controller/policy_client.go,
-- insight_client.go and ruleview_client.go. The client of internal/pce implements them.
use illumio_k8s_utility_oper.Prelude.{String, Option, List}
use illumio_k8s_utility_oper.Exec.{Exec}
use illumio_k8s_utility_oper.Pce.Objects.{Owner, Label, Service, RuleSet, SecRule, ProvisionResult}

pub record PolicyClient (W : Type 0) : Type 0 where
  pub find_label : String → String → Exec W Label
  pub ensure_label : String → String → Owner → Exec W Label
  pub find_service_by_name : String → Exec W (Option Service)
  pub find_rule_set_by_owner : Owner → Exec W (Option RuleSet)
  pub create_rule_set : RuleSet → Exec W RuleSet
  pub delete_rule_set : String → Exec W (Unit {0})
  pub list_rules : String → Exec W (List SecRule)
  pub create_rule : String → SecRule → Exec W SecRule
  pub delete_rule : String → Exec W (Unit {0})
  pub provision_rule_sets : List String → String → Exec W ProvisionResult
