-- ===== src/Insight/Flows/Counts.antt =====
-- The counts of observed flows by their draft decision.
use mathlib.Core.Path.{subst}
use illumio_k8s_utility_oper.Prelude.{
  sym, ℕ, suc, String, Bool-cases, inl, inr, ◌+◌, ◌≡◌, ap, List, [], ◌∷◌, length, arith, eq_iff,
  ◌==◌, string_eq, if◌then◌else◌,
}
use illumio_k8s_utility_oper.Api.Insight.{DecisionCounts}
use illumio_k8s_utility_oper.Pce.Traffic.{
  TrafficFlow, decision_allowed, decision_potentially_blocked, decision_blocked,
}
use illumio_k8s_utility_oper.Insight.Flows.{
  draft_blocked, count_one, no_flows, summarize_onto, summarize_flows,
}

abbrev one_if_blocked : String → ℕ
one_if_blocked decision = if draft_blocked decision then 1 else 0

-- The number of flows that the draft policy would block.
abbrev pub blocked_among : List TrafficFlow → ℕ
blocked_among [] = 0
blocked_among (f ∷ flows) = one_if_blocked f.draft_policy_decision + blocked_among flows

abbrev sum_of : DecisionCounts → ℕ
sum_of c = c.allowed + c.potentially_blocked + c.blocked + c.unknown

abbrev would_block : DecisionCounts → ℕ
would_block c = c.potentially_blocked + c.blocked

count_one_lem :
    (c : DecisionCounts) (decision : String)
    → let r = count_one c decision in
      (sum_of r ≡ suc (sum_of c))
      × (r.total ≡ c.total)
      × (would_block r ≡ would_block c + one_if_blocked decision)
unfolding draft_blocked
count_one_lem c decision = elim (Bool-cases (decision == decision_allowed)) [
  | inl h ↦ rw h (ground (arith, ap one_if_blocked ((eq_iff decision decision_allowed).0 h)))
  | inr h ↦ elim (Bool-cases (decision == decision_potentially_blocked)) [
    | inl k ↦ rw (h, k) (ground arith)
    | inr k ↦ elim (Bool-cases (decision == decision_blocked)) [
      | inl l ↦ rw (h, k, l) (ground arith)
      | inr l ↦ rw (h, k, l) (ground arith)
    ]
  ]
]

summarize_onto_lem :
    (c : DecisionCounts) (flows : List TrafficFlow)
    → let r = summarize_onto c flows in
      (sum_of r ≡ sum_of c + length flows)
      × (r.total ≡ c.total + length flows)
      × (would_block r ≡ would_block c + blocked_among flows)
unfolding summarize_onto
summarize_onto_lem c [] = ground arith
summarize_onto_lem c (f ∷ flows) =
    let counted = count_one c f.draft_policy_decision in
    omega (
      arith,
      count_one_lem c f.draft_policy_decision,
      summarize_onto_lem (record counted { total = suc counted.total }) flows,
    )

-- The number of flows with a draft decision.
abbrev pub among : String → List TrafficFlow → ℕ
among wanted [] = 0
among wanted (f ∷ flows) = (if f.draft_policy_decision == wanted then 1 else 0) + among wanted flows

-- The counts of the flows by their draft decision; every other decision is unknown.
abbrev pub Tallies : List TrafficFlow → DecisionCounts → Type 0
Tallies flows c =
    (c.allowed ≡ among decision_allowed flows)
    × (c.potentially_blocked ≡ among decision_potentially_blocked flows)
    × (c.blocked ≡ among decision_blocked flows)
    × (c.allowed + c.potentially_blocked + c.blocked + c.unknown ≡ length flows)
    × (c.total ≡ length flows)

-- One more flow counts for its decision alone.
abbrev CountsOne : DecisionCounts → String → Type 0
CountsOne c d =
    let r = count_one c d in
    (r.allowed ≡ c.allowed + (if d == decision_allowed then 1 else 0))
    × (r.potentially_blocked
        ≡ c.potentially_blocked + (if d == decision_potentially_blocked then 1 else 0))
    × (r.blocked ≡ c.blocked + (if d == decision_blocked then 1 else 0))

count_one-CountsOne : (c : DecisionCounts) (d : String) → CountsOne c d
count_one-CountsOne c d = elim (Bool-cases (d == decision_allowed)) [
  | inl h ↦ subst (CountsOne c) (sym ((eq_iff d decision_allowed).0 h)) (ground arith)
  | inr h ↦ elim (Bool-cases (d == decision_potentially_blocked)) [
    | inl k ↦ subst (CountsOne c) (sym ((eq_iff d decision_potentially_blocked).0 k)) (ground arith)
    | inr k ↦ elim (Bool-cases (d == decision_blocked)) [
      | inl l ↦ rw (h, k, l) (ground arith)
      | inr l ↦ rw (h, k, l) (ground arith)
    ]
  ]
]

summarize_onto-among :
    (c : DecisionCounts) (flows : List TrafficFlow)
    → let r = summarize_onto c flows in
      (r.allowed ≡ c.allowed + among decision_allowed flows)
      × (r.potentially_blocked ≡ c.potentially_blocked + among decision_potentially_blocked flows)
      × (r.blocked ≡ c.blocked + among decision_blocked flows)
unfolding summarize_onto
summarize_onto-among c [] = ground arith
summarize_onto-among c (f ∷ flows) =
    let counted = count_one c f.draft_policy_decision in
    let one = count_one-CountsOne c f.draft_policy_decision in
    let rest = summarize_onto-among (record counted { total = suc counted.total }) flows in
    (omega (arith, one.0, rest.0), omega (arith, one.1, rest.1), omega (arith, one.2, rest.2))

pub summarize_flows-Tallies : (flows : List TrafficFlow) → Tallies flows (summarize_flows flows)
unfolding summarize_flows
summarize_flows-Tallies flows =
    let (allowed, potentially_blocked, blocked) = summarize_onto-among no_flows flows in
    let (sum, total, _) = summarize_onto_lem no_flows flows in
    (
      omega (arith, allowed),
      omega (arith, potentially_blocked),
      omega (arith, blocked),
      omega (arith, sum),
      omega (arith, total),
    )
