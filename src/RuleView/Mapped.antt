-- ===== src/RuleView/Mapped.antt =====
-- What a RuleView says of the rules that were found.
use mathlib.Core.List.Permᴰ
use mathlib.Core.List.{Permᴰ}
use Prim.Native.Nat.{compare, Ordering}
use illumio_k8s_utility_oper.Prelude.{
  ℕ, ◌+◌, ◌≡◌, ◌⊎◌, String, List, [], ◌∷◌, All, ◌==◌, nat_eq, string_eq, if◌then◌else◌,
}
use illumio_k8s_utility_oper.Prelude.Order.{then_by, text_compare}
use illumio_k8s_utility_oper.Api.RuleView.{
  RuleSummary, rule_owned_by_operator, rule_owned_by_external,
}
use illumio_k8s_utility_oper.Pce.RuleSearch.{FoundRule}
use illumio_k8s_utility_oper.RuleView.{is_owned}

-- The number of rules that the operator owns.
abbrev pub owned_among : String → List FoundRule → ℕ
owned_among eds [] = 0
owned_among eds (f ∷ found) = (if is_owned eds f then 1 else 0) + owned_among eds found

abbrev Owned : RuleSummary → Type 0
Owned r = r.owned_by ≡ rule_owned_by_operator

abbrev HasOwner : RuleSummary → Type 0
HasOwner r = (r.owned_by ≡ rule_owned_by_operator) ⊎ (r.owned_by ≡ rule_owned_by_external)

-- The order of the summaries, by a key.
abbrev rank : RuleSummary → ℕ
rank r = if r.owned_by == rule_owned_by_operator then 0 else 1

abbrev by_rank : RuleSummary → RuleSummary → Ordering
by_rank a b =
    then_by (compare (rank a) (rank b))
      (then_by (text_compare a.ruleset_name b.ruleset_name) (text_compare a.href b.href))

abbrev pub OwnedFirst : List RuleSummary → RuleSummary → Type 0
OwnedFirst left kept = All (λ r. Owned r → Owned kept) left
