-- ===== src/Insight/Flows/Findings.antt =====
-- What the findings say of the observed flows.
use mathlib.Core.List.{Permᴰ}
use illumio_k8s_utility_oper.Prelude.{
  ℕ, ◌+◌, ◌%◌, ◌^◌, ◌≤◌, ◌≡◌, String, inl, inr, List, [], ◌∷◌, length, All, Bool-cases, arith,
  nat_eq, string_eq, if◌then◌else◌,
}
use illumio_k8s_utility_oper.Prelude.Order.{Sorter, SorterIsLawful}
use illumio_k8s_utility_oper.Prelude.Order.Perm.{sum_by, perm-sum_by, perm-length, perm-All}
use illumio_k8s_utility_oper.Prelude.Order.Split.{All-impl}
use illumio_k8s_utility_oper.Api.Insight.{FlowFinding}
use illumio_k8s_utility_oper.Pce.Traffic.{TrafficFlow}
use illumio_k8s_utility_oper.Insight.Flows.{
  draft_blocked, FindingKey, same_key, Seen, key_of, finding_of, see, see_flows, findings_of,
  by_peer, classify_flows,
}
use illumio_k8s_utility_oper.Insight.Flows.Counts.{blocked_among}
use illumio_k8s_utility_oper.Insight.Flows.Keys.{
  DistinctKeys, IsKeyed, HasEntry, TellsOf, IsFrom, see_flows-HasEntry, see_flows-IsFrom,
  findings_of-TellsOf,
}

-- The connections of the flows that the draft policy would block.
abbrev pub blocked_connections : List TrafficFlow → ℕ
blocked_connections [] = 0
blocked_connections (f ∷ flows) =
    (if draft_blocked f.draft_policy_decision then f.connections else 0) + blocked_connections flows

abbrev pub connections_of : FlowFinding → ℕ
connections_of found = found.connections

module _ (sorter : Sorter) where
  module _ (k : FindingKey sorter) (found : FlowFinding) where
    see-Account :
        (seen : Seen sorter)
        → let before = findings_of sorter seen in
          let after = findings_of sorter (see sorter k found seen) in
          (length after ≤ length before + 1)
          × (sum_by connections_of after % 2 ^ 64
              ≡ (found.connections + sum_by connections_of before) % 2 ^ 64)
    unfolding see findings_of
    see-Account [] = ground arith
    see-Account ((j, old) ∷ seen) = elim (Bool-cases (same_key sorter j k)) [
      | inl e ↦ rw e (omega arith, omega arith)
      | inr e ↦ rw e (omega (arith, (see-Account seen).0), omega (arith, (see-Account seen).1))
    ]

  see_flows-Account :
      (direction : String) (flows : List TrafficFlow) (seen : Seen sorter)
      → let before = findings_of sorter seen in
        let after = findings_of sorter (see_flows sorter direction flows seen) in
        (length after ≤ length before + blocked_among flows)
        × (sum_by connections_of after % 2 ^ 64
            ≡ (sum_by connections_of before + blocked_connections flows) % 2 ^ 64)
  unfolding see_flows
  see_flows-Account direction [] seen = (omega arith, omega arith)
  see_flows-Account direction (f ∷ flows) seen =
      elim (Bool-cases (draft_blocked f.draft_policy_decision)) [
        | inl e ↦
            let k = key_of sorter direction f in
            let found = finding_of sorter direction f in
            let one = see-Account k found seen in
            let rest = see_flows-Account direction flows (see sorter k found seen) in
            rw e (omega (arith, one.0, rest.0), omega (arith, one.1, rest.1))
        | inr e ↦
            let rest = see_flows-Account direction flows seen in
            rw e (omega (arith, rest.0), omega (arith, rest.1))
      ]

  -- The findings are one for each key of the flows that would be blocked, and tell of these flows.
  abbrev pub Merges : List TrafficFlow → String → List FlowFinding → Type 0
  Merges flows direction found =
      ((seen : Seen sorter) × Permᴰ found (findings_of sorter seen)
        × DistinctKeys sorter seen
        × All (IsKeyed sorter) seen
        × All (HasEntry sorter direction seen) flows)
      × All (TellsOf sorter direction flows) found
      × (length found ≤ blocked_among flows)
      × (sum_by connections_of found % 2 ^ 64 ≡ blocked_connections flows % 2 ^ 64)

  -- With a sort that permutes, the findings of a direction are, in some order, the findings of a list of
  -- entries whose keys are distinct and are the findings' own peer, port and protocol. Every flow that the
  -- draft policy would block has its key among them, and every finding tells of such a flow: its other
  -- end in that direction, port, protocol and decision. There are at most as many findings as such flows,
  -- and up to the wrap-around of an int, which is Go's own, their connections add up to those of these
  -- flows: merging loses none.
  pub classify_flows_lem :
      SorterIsLawful sorter
      → (flows : List TrafficFlow) (direction : String)
      → Merges flows direction (classify_flows sorter flows direction)
  unfolding classify_flows
  classify_flows_lem lawful flows direction =
      let seen = see_flows sorter direction flows [] in
      let perm = lawful.sort-perm (by_peer sorter) (findings_of sorter seen) in
      let (entries, distinct) = see_flows-IsFrom sorter direction flows flows [] (λ f m. m) tt tt in
      let (bound, sum) = see_flows-Account direction flows [] in
      (
        (
          seen,
          perm,
          distinct,
          All-impl (IsFrom sorter direction flows) (IsKeyed sorter) seen (λ x h. h.0) entries,
          see_flows-HasEntry sorter direction flows [],
        ),
        perm-All (TellsOf sorter direction flows) perm
            (findings_of-TellsOf sorter direction flows seen entries),
        omega (arith, perm-length perm, bound),
        omega (arith, perm-sum_by connections_of perm, sum),
      )
