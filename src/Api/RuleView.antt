-- ===== src/Api/RuleView.antt =====
-- api/v1alpha1/ruleview_types.go.
use illumio_k8s_utility_oper.Prelude.{ℕ, String, Bool, Option, List}
use illumio_k8s_utility_oper.Prelude.Int.{ℤ}
use illumio_k8s_utility_oper.Api.Insight.{Time}
use illumio_k8s_utility_oper.Api.Meta.{Condition, ObjectMeta}

pub record RuleViewSpec : Type 0 where
  pub refresh_interval_minutes : ℤ
  pub policy_version : String

pub record RuleSummary : Type 0 where
  pub href : String
  pub ruleset_name : String
  pub owned_by : String
  pub kind : String
  pub enabled : Bool
  pub consumers : List String
  pub services : List String

abbrev pub rule_owned_by_operator : String
rule_owned_by_operator = "operator"

abbrev pub rule_owned_by_external : String
rule_owned_by_external = "external"

pub record RuleViewStatus : Type 0 where
  pub conditions : List Condition
  pub observed_at : Option Time
  pub rule_count : ℕ
  pub owned_count : ℕ
  pub external_count : ℕ
  pub truncated : Bool
  pub rules : List RuleSummary
  pub observed_generation : ℕ
  pub observed_refresh : String

pub record RuleView : Type 0 where
  pub meta : ObjectMeta
  pub spec : RuleViewSpec
  pub status : RuleViewStatus
