-- ===== src/Pce/RuleSearch.antt =====
-- internal/pce/rulesearch.go: the rules in which given labels are the provider. The exchange is a
-- parameter.
use illumio_k8s_utility_oper.Prelude.{
  String, Bool, Option, none, some, List, map, ◌==◌, string_eq, if◌then◌else◌,
}
use illumio_k8s_utility_oper.Result.{ok, err}
use illumio_k8s_utility_oper.Exec.{Exec, pure, raise, try, ◌>>=◌}
use illumio_k8s_utility_oper.Exec.Errors.{wrapped}
use illumio_k8s_utility_oper.Pce.Objects.{LabelRef, Actor, IngressService}

abbrev pub rule_type_allow : String
rule_type_allow = "allow"

abbrev pub rule_type_override_deny : String
rule_type_override_deny = "override_deny"

abbrev pub policy_version_active : String
policy_version_active = "active"

abbrev pub policy_version_draft : String
policy_version_draft = "draft"

pub record RuleSearchQuery : Type 0 where
  pub provider_label_hrefs : List String
  pub policy_version : String

pub record FoundRule : Type 0 where
  pub href : String
  pub ruleset_href : String
  pub ruleset_name : String
  pub ruleset_external_data_set : String
  pub enabled : Bool
  pub kind : String
  pub consumers : List Actor
  pub services : List IngressService

-- The wire types.
pub record RuleSearchBody : Type 0 where
  pub providers : List LabelRef

pub record WireRuleSet : Type 0 where
  pub href : String
  pub name : String
  pub external_data_set : String

pub record WireFoundRule : Type 0 where
  pub href : String
  pub enabled : Bool
  pub rule_type : String
  pub override_deny : Bool
  pub consumers : List Actor
  pub ingress_services : List IngressService
  pub rule_set : Option WireRuleSet

-- POST /sec_policy/<version>/rule_search
pub record RuleSearchApi (W : Type 0) : Type 0 where
  pub post_rule_search : String → RuleSearchBody → Exec W (List WireFoundRule)

unfoldable pub rule_type : WireFoundRule → String
rule_type w =
    if w.override_deny
    then rule_type_override_deny
    else if w.rule_type == ""
    then rule_type_allow
    else w.rule_type

unfoldable pub found_rule : WireFoundRule → FoundRule
unfolding rule_type
found_rule w =
    let bare : FoundRule = record {
      href = w.href;
      ruleset_href = "";
      ruleset_name = "";
      ruleset_external_data_set = "";
      enabled = w.enabled;
      kind = rule_type w;
      consumers = w.consumers;
      services = w.ingress_services;
    } in
    elim w.rule_set [
      | none ↦ bare
      | some rs ↦ record bare {
        ruleset_href = rs.href;
        ruleset_name = rs.name;
        ruleset_external_data_set = rs.external_data_set;
      }
    ]

unfoldable pub search_rules :
    {W : Type 0} → RuleSearchApi W → RuleSearchQuery → Exec W (List FoundRule)
search_rules api q = do
  let version =
      if q.policy_version == policy_version_draft
      then policy_version_draft
      else policy_version_active
  let body : RuleSearchBody = record {
    providers = map (λ h. record { href = h }) q.provider_label_hrefs;
  }
  r ← try (api.post_rule_search version body)
  elim r [ ok wire ↦ pure (map found_rule wire) | err e ↦ raise (wrapped "rule search" e) ]
