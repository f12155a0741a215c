-- ===== src/Insight/Request/Status.antt =====
-- The status that a computed preflight writes.
use mathlib.Core.List.{Permᴰ}
use illumio_k8s_utility_oper.Prelude.{
  ℕ, String, ◌+◌, ◌<◌, ◌≡◌, ◌↔◌, refl, Bool, true, Option, some, List, ◌++◌, All, length,
  if◌then◌else◌, arith,
}
use illumio_k8s_utility_oper.Prelude.Int.{ℤ, pos, negsuc}
use illumio_k8s_utility_oper.Prelude.Order.{Sorter, SorterIsLawful}
use illumio_k8s_utility_oper.Api.Meta.{ConditionApi}
use illumio_k8s_utility_oper.Api.Cluster.{Reader}
use illumio_k8s_utility_oper.Api.Connection.{Config}
use illumio_k8s_utility_oper.Api.Insight.{
  Time, PolicyInsight, ObservationWindow, FlowFinding, DecisionCounts, PreflightSummary,
}
use illumio_k8s_utility_oper.Pce.Traffic.{TrafficFlow}
use illumio_k8s_utility_oper.Policy.Controller.{ResourceApi}
use illumio_k8s_utility_oper.Insight.Flows.{
  direction_inbound, direction_outbound, classify_flows, summarize_flows, cap_findings,
}
use illumio_k8s_utility_oper.Insight.Flows.Counts.{Tallies, summarize_flows-Tallies}
use illumio_k8s_utility_oper.Insight.Flows.Findings.{Merges, classify_flows_lem}
use illumio_k8s_utility_oper.Insight.Flows.Cap.{NotMore, cap_findings_lem}
use illumio_k8s_utility_oper.Insight.Request.{
  InsightClient, Limits, Observed, positive_or, put_computed,
}

positive_or_positive : (default : ℕ) (z : ℤ) → 0 < default → 0 < positive_or default z
positive_or_positive default (negsuc n) h = h
positive_or_positive default (pos n) h = ground (arith, h)

-- One direction of the status: the listed findings, whether they are truncated, and their count, for a
-- bound and the flows. The count is that of the findings that the flows merge to; the listed ones are
-- these, or as many as the bound allows, those with the most connections.
abbrev pub Accounts : Sorter → String → ℕ → List TrafficFlow → List FlowFinding → Bool → ℕ → Type 0
Accounts sorter direction n flows listed truncated count =
    (found : List FlowFinding) × Merges sorter flows direction found
    × (count ≡ length found)
    × ((truncated ≡ true) ↔ (n < count))
    × (length listed ≡ (if truncated then n else count))
    × ((left : List FlowFinding) × Permᴰ (listed ++ left) found × All (NotMore sorter left) listed)

-- The counts of both directions.
abbrev pub Summarizes : List TrafficFlow → List TrafficFlow → Option PreflightSummary → Type 0
Summarizes in_flows out_flows summary =
    (inbound : DecisionCounts) × (outbound : DecisionCounts) × (summary
      ≡ some (record { inbound = inbound; outbound = outbound }))
    × Tallies in_flows inbound
    × Tallies out_flows outbound

module _ {W : Type 0} (sorter : Sorter) (limits : Limits) (now : W → Time)
    (objects : ResourceApi W PolicyInsight) (k8s : Reader W) (api : ConditionApi)
    (factory : Config → InsightClient W) (lawful : SorterIsLawful sorter) where
  direction_lem :
      (direction : String) (flows : List TrafficFlow)
      → let n = positive_or 500 limits.max_findings in
        let found = classify_flows sorter flows direction in
        let (listed, truncated) = cap_findings sorter found (pos n) in
        Accounts sorter direction n flows listed truncated (length found)
  direction_lem direction flows =
      let n = positive_or 500 limits.max_findings in
      let found = classify_flows sorter flows direction in
      let (truncates, _, size, left) =
        cap_findings_lem sorter lawful found n
          (positive_or_positive 500 limits.max_findings (omega arith)) in
      (found, classify_flows_lem sorter lawful flows direction, refl, truncates, size, left)

  -- With a sort that sorts, the status of a computed preflight accounts for each direction by its own
  -- flows. The count is the number of findings that the flows merge to, the list has all of them or, if
  -- they are more than the effective bound, exactly as many as the bound, none with fewer connections
  -- than one left out, and says so. The summaries count the flows of their direction by draft decision,
  -- and the number of flows analyzed is that of both directions.
  pub put_computed_lem :
      (window : ObservationWindow) (o : Observed sorter limits now objects k8s api factory)
      (pi : PolicyInsight)
      → let s = (put_computed sorter limits now objects k8s api factory window o pi).status in
        let n = positive_or 500 limits.max_findings in
        Accounts sorter "inbound" n o.in_flows s.would_block_inbound s.would_block_inbound_truncated
          s.inbound_blocked_count
        × Accounts sorter "outbound" n o.out_flows s.would_block_outbound
            s.would_block_outbound_truncated s.outbound_blocked_count
        × Summarizes o.in_flows o.out_flows s.summary
        × (s.flows_analyzed ≡ length o.in_flows + length o.out_flows)
  unfolding put_computed
  put_computed_lem window o pi = (
    direction_lem direction_inbound o.in_flows,
    direction_lem direction_outbound o.out_flows,
    (
      summarize_flows o.in_flows,
      summarize_flows o.out_flows,
      refl,
      summarize_flows-Tallies o.in_flows,
      summarize_flows-Tallies o.out_flows,
    ),
    refl,
  )
