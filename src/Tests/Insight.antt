-- ===== src/Tests/Insight.antt =====
-- The preflight: a small observation, and the theorems at it.
use mathlib.Core.List.{Permᴰ}
use illumio_k8s_utility_oper.Prelude.{
  ℕ, ◌+◌, ◌≤◌, ◌<◌, ◌≡◌, ◌↔◌, refl, String, true, false, none, List, [], ◌∷◌, ◌++◌, length, All,
  Bool, ◌==◌, arith, if◌then◌else◌, string_eq,
}
use illumio_k8s_utility_oper.Prelude.Int.{pos}
use illumio_k8s_utility_oper.Prelude.Order.{text_compare}
use illumio_k8s_utility_oper.Result.{Result, ok, err}
use illumio_k8s_utility_oper.Api.Connection.{Config}
use illumio_k8s_utility_oper.Api.Insight.{FlowFinding, PolicyInsight, ObservationWindow, Time}
use illumio_k8s_utility_oper.Pce.Traffic.{TrafficFlow}
use illumio_k8s_utility_oper.Policy.Controller.{ResourceApi}
use illumio_k8s_utility_oper.Insight.Flows.{
  draft_blocked, peer_key, direction_inbound, classify_flows, cap_findings,
}
use illumio_k8s_utility_oper.Insight.Flows.Findings.{Merges, classify_flows_lem}
use illumio_k8s_utility_oper.Insight.Flows.Cap.{NotMore, cap_findings_lem}
use illumio_k8s_utility_oper.Insight.Request.{
  InsightClient, Limits, Observed, put_computed, reconcile_insight,
}
use illumio_k8s_utility_oper.Insight.Request.Bounded.{
  KeepsRefusals, reconcile_insight-FailsKeeping, reconcile_insight-Costs,
}
use illumio_k8s_utility_oper.Exec.Costs.{Costs, FailsKeeping}
use illumio_k8s_utility_oper.Policy.Profile.Choice.{KeepsReads}
use illumio_k8s_utility_oper.Api.Meta.{Namespace}
use illumio_k8s_utility_oper.Exec.Errors.{Error, kube_not_found}
use illumio_k8s_utility_oper.Insight.Request.Status.{Accounts, Summarizes, put_computed_lem}
use illumio_k8s_utility_oper.Tests.World.{
  World, shop, memory_reader, memory_client, memory_conditions,
}
use illumio_k8s_utility_oper.Tests.Sorting.{sorter, sorter-IsLawful}
use illumio_k8s_utility_oper.Tests.Backend.{reads}

abbrev flow : String → ℕ → ℕ → String → TrafficFlow
flow ip port connections decision = record {
  src_labels = [];
  dst_labels = ("app", "web") ∷ [];
  src_ip = ip;
  dst_ip = "10.0.0.9";
  port = port;
  protocol = 6;
  policy_decision = "allowed";
  draft_policy_decision = decision;
  connections = connections;
  last_detected = pos 5;
}

abbrev flows : List TrafficFlow
flows =
    flow "10.0.0.1" 80 3 "blocked"
    ∷ flow "10.0.0.2" 80 7 "potentially_blocked"
    ∷ flow "10.0.0.1" 80 2 "blocked"
    ∷ flow "10.0.0.3" 80 1 "allowed"
    ∷ []

map_connections : List FlowFinding → List ℕ
map_connections [] = []
map_connections (f ∷ found) = f.connections ∷ map_connections found

merged : map_connections (classify_flows sorter flows "inbound") ≡ 5 ∷ 7 ∷ []
unfolding map_connections sorter classify_flows draft_blocked peer_key text_compare
merged = refl

classify_flows_example :
    Merges sorter flows direction_inbound (classify_flows sorter flows direction_inbound)
classify_flows_example = classify_flows_lem sorter sorter-IsLawful flows direction_inbound

abbrev found_flows : List FlowFinding
found_flows = classify_flows sorter flows direction_inbound

cap_findings_example :
    let (kept, truncated) = cap_findings sorter found_flows (pos 1) in
    ((truncated ≡ true) ↔ (1 < length found_flows))
    × (length kept ≤ 1)
    × (length kept ≡ (if truncated then 1 else length found_flows))
    × ((left : List FlowFinding) × Permᴰ (kept ++ left) found_flows
        × All (NotMore sorter left) kept)
cap_findings_example = cap_findings_lem sorter sorter-IsLawful found_flows 1 (omega arith)

-- A request for the namespace `shop` that has no answer yet.
abbrev request : PolicyInsight
request = record {
  meta = record {
    name = "preflight";
    namespace = "shop";
    uid = "u-9";
    generation = 1;
    annotations = [];
    deleting = false;
    finalizers = [];
  };
  spec = record { lookback_days = pos 7 };
  status = record {
    conditions = [];
    observed_window = none;
    summary = none;
    flows_analyzed = 0;
    inbound_blocked_count = 0;
    outbound_blocked_count = 0;
    truncated = false;
    would_block_inbound = [];
    would_block_inbound_truncated = false;
    would_block_outbound = [];
    would_block_outbound_truncated = false;
    observed_generation = 0;
    observed_refresh = "";
  };
}

abbrev limits : Limits
limits = record { max_results = pos 0; max_findings = pos 1 }

abbrev noon : World → Time
noon w = pos 1000000000000000

abbrev requests : ResourceApi World PolicyInsight
requests = record {
  get = λ namespace name w. (ok request, w);
  update = λ pi w. (ok pi, w);
  update_status = λ pi w. (ok tt, w);
}

abbrev observing : Config → InsightClient World
observing cfg = record {
  find_label = memory_client.find_label;
  query_traffic = λ q w. (ok (flows, false), w);
}

-- Each query leaves a mark.
abbrev queries_made : World → ℕ
queries_made w = length w.provisioned

abbrev counting : Config → InsightClient World
counting cfg = record {
  find_label = λ key value w. (
    ok (record {
      href = "/l/1";
      key = key;
      value = value;
      external_data_set = "";
      external_data_reference = "";
    }),
    w,
  );
  query_traffic = λ q w. (ok (flows, false), record w { provisioned = "query" ∷ w.provisioned });
}

shop_or_none :
    (P : World → Type 0) (b : Bool) (w : World)
    → P w
    → P
        (if◌then◌else◌ {A = Result Error Namespace × World} b
          (ok shop, w)
          (err kube_not_found, w)).1
shop_or_none P true w h = h
shop_or_none P false w h = h

reading : (P : World → Type 0) → KeepsReads (memory_reader "manual" []) P
reading P = record {
  namespace = λ name. record { holds = λ w h. shop_or_none P (name == "shop") w h };
  profiles = record { holds = λ w h. h };
  connection = λ name. record { holds = λ w h. h };
  secret = λ namespace name. record { holds = λ w h. h };
  intents = λ namespace. record { holds = λ w h. h };
  policies = λ namespace. record { holds = λ w h. h };
}

refusing :
    (P : World → Type 0)
    → KeepsRefusals sorter limits noon requests
        (memory_reader "manual" [])
        memory_conditions
        counting
        P
refusing P = record {
  object = λ namespace name. record { holds = λ w h. h };
  reads = reading P;
  finds = λ cfg key value. record { holds = λ w h. h };
  refuses = λ pi reason message. record { holds = λ w h. h };
}

reconcile_insight-Costs_example : Costs queries_made 2 (
    reconcile_insight sorter limits noon requests
      (memory_reader "manual" [])
      memory_conditions
      counting
      "shop"
      "preflight")
reconcile_insight-Costs_example =
    reconcile_insight-Costs sorter limits noon requests (memory_reader "manual" [])
      memory_conditions counting queries_made (λ k. refusing (λ w. queries_made w ≤ k))
      (λ k pi. record { holds = λ w h. h }) (λ cfg q. record { bound = λ w. omega arith }) "shop"
      "preflight"

-- Unlike the count of queries, what the queries keep.
reconcile_insight-FailsKeeping_example :
    FailsKeeping
      (λ w. w.labels ≡ [])
      (reconcile_insight sorter limits noon requests
        (memory_reader "manual" [])
        memory_conditions
        counting
        "shop"
        "preflight")
reconcile_insight-FailsKeeping_example =
    reconcile_insight-FailsKeeping sorter limits noon requests (memory_reader "manual" [])
      memory_conditions counting (λ w. w.labels ≡ []) (refusing (λ w. w.labels ≡ []))
      (λ cfg q. record { holds = λ w h. h }) "shop" "preflight"

abbrev day_before : ObservationWindow
day_before = record { from = pos 0; to = pos 1 }

abbrev observed :
    Observed sorter limits noon requests (memory_reader "manual" []) memory_conditions observing
observed = record { in_flows = flows; in_truncated = false; out_flows = []; out_truncated = false }

put_computed_example :
    let s =
      (put_computed sorter limits noon requests
        (memory_reader "manual" [])
        memory_conditions
        observing
        day_before
        observed
        request).status in
    Accounts sorter "inbound" 1 flows s.would_block_inbound s.would_block_inbound_truncated
      s.inbound_blocked_count
    × Accounts sorter "outbound" 1 [] s.would_block_outbound s.would_block_outbound_truncated
        s.outbound_blocked_count
    × Summarizes flows [] s.summary
    × (s.flows_analyzed ≡ length flows + length {A = TrafficFlow} [])
put_computed_example =
    put_computed_lem sorter limits noon requests (memory_reader "manual" []) memory_conditions
      observing sorter-IsLawful day_before observed request
