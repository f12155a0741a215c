-- ===== src/RuleView.antt =====
-- internal/controller/ruleview.go: found rules become the summaries of a RuleView. `slices.SortFunc`
-- is the parameter `sorter`.
pub mod Mapped
pub mod Sync
use Prim.Native.Nat.{Ordering}
use illumio_k8s_utility_oper.Prelude.{
  ℕ, suc, String, ◌<>◌, Bool, true, false, not, ◌&&◌, ◌||◌, Option, none, some, List, [], ◌∷◌,
  length, take, leb, after_last_slash, or_else, decimal, ◌==◌, nat_eq, string_eq, if◌then◌else◌,
}
use illumio_k8s_utility_oper.Prelude.Int.{ℤ, pos, negsuc}
use illumio_k8s_utility_oper.Prelude.Order.{text_compare, Sorter}
use illumio_k8s_utility_oper.Api.RuleView.{
  RuleSummary, rule_owned_by_operator, rule_owned_by_external,
}
use illumio_k8s_utility_oper.Pce.Objects.{LabelRef, Actor, actor_all_workloads, IngressService}
use illumio_k8s_utility_oper.Pce.RuleSearch.{FoundRule}
use illumio_k8s_utility_oper.Insight.Flows.{proto_name}

-- `lastPathSegmentPub`
unfoldable pub last_path_segment_pub : String → String
last_path_segment_pub s = or_else s (after_last_slash s)

label_text : Option LabelRef → List String → List String
label_text none out = out
label_text (some l) out =
    if l.href == "" then out else ("label:" <> last_path_segment_pub l.href) ∷ out

-- An actor that is neither is left out.
unfoldable pub render_actors : List Actor → List String
unfolding last_path_segment_pub label_text
render_actors [] = []
render_actors (a ∷ actors) =
    let rest = render_actors actors in
    if a.actors == actor_all_workloads then actor_all_workloads ∷ rest else label_text a.label rest

abbrev render_service : IngressService → String
render_service s =
    if not (s.href == "") && (s.port == 0 && s.proto == 0)
    then "All Services"
    else decimal s.port <> "/" <> proto_name s.proto

unfoldable pub render_services : List IngressService → List String
render_services [] = []
render_services (s ∷ svcs) = render_service s ∷ render_services svcs

abbrev pub is_owned : String → FoundRule → Bool
is_owned eds f = not (eds == "") && f.ruleset_external_data_set == eds

abbrev pub summary_of : String → FoundRule → RuleSummary
summary_of eds f = record {
  href = f.href;
  ruleset_name = f.ruleset_name;
  owned_by = if is_owned eds f then rule_owned_by_operator else rule_owned_by_external;
  kind = f.kind;
  enabled = f.enabled;
  consumers = render_actors f.consumers;
  services = render_services f.services;
}

pub record MappedRules : Type 0 where
  pub rules : List RuleSummary
  pub owned : ℕ
  pub external : ℕ
  pub truncated : Bool

-- The loop, for the named results.
map_all : String → List FoundRule → MappedRules
map_all eds [] = record { rules = []; owned = 0; external = 0; truncated = false }
map_all eds (f ∷ found) =
    let rest = map_all eds found in
    let listed = summary_of eds f ∷ rest.rules in
    if is_owned eds f
    then record rest { rules = listed; owned = suc rest.owned }
    else record rest { rules = listed; external = suc rest.external }

-- Owned first, then by the name of the ruleset, then by href.
abbrev pub by_owner : RuleSummary → RuleSummary → Ordering
by_owner a b =
    if not (a.owned_by == b.owned_by)
    then (if a.owned_by == rule_owned_by_operator then Ordering.lt else Ordering.gt)
    else if not (a.ruleset_name == b.ruleset_name)
    then text_compare a.ruleset_name b.ruleset_name
    else text_compare a.href b.href

cap_rules : ℤ → MappedRules → MappedRules
cap_rules (negsuc n) m = m
cap_rules (pos n) m =
    if n == 0 || leb (length m.rules) n
    then m
    else record m { rules = take n m.rules; truncated = true }

unfoldable pub map_rules : Sorter → List FoundRule → String → ℤ → MappedRules
unfolding map_all cap_rules
map_rules sorter found eds cap_n =
    let all = map_all eds found in
    cap_rules cap_n (record all { rules = sorter.sort by_owner all.rules })
