-- ===== src/Insight/Flows.antt =====
-- internal/controller/preflight.go: observed flows become counts and findings. `slices.SortFunc` is the
-- parameter `sorter`.
pub mod Counts
pub mod Keys
pub mod Findings
pub mod Cap
use Prim.Native.Nat.{compare, Ordering}
use illumio_k8s_utility_oper.Prelude.{
  ℕ, suc, ◌+◌, String, ◌<>◌, Bool, true, false, not, ◌&&◌, ◌||◌, Option, none, some, List, [], ◌∷◌,
  ◌++◌, map, length, take, is_empty, leb, ◌==◌, nat_eq, string_eq, decimal, if◌then◌else◌,
}
use illumio_k8s_utility_oper.Prelude.Order.{then_by, text_compare, Sorter}
use illumio_k8s_utility_oper.Prelude.Int.{ℤ, pos, negsuc, add_pattern, signed_rank}
use illumio_k8s_utility_oper.Prelude.Dict.{Labels, get}
use illumio_k8s_utility_oper.Api.Insight.{FlowFinding, DecisionCounts}
use illumio_k8s_utility_oper.Pce.Traffic.{
  TrafficFlow, decision_allowed, decision_potentially_blocked, decision_blocked,
}

abbrev pub direction_inbound : String
direction_inbound = "inbound"

abbrev pub direction_outbound : String
direction_outbound = "outbound"

unfoldable pub proto_name : ℕ → String
proto_name proto = if proto == 6 then "TCP" else if proto == 17 then "UDP" else decimal proto

unfoldable pub draft_blocked : String → Bool
draft_blocked decision = decision == decision_blocked || decision == decision_potentially_blocked

abbrev count_one : DecisionCounts → String → DecisionCounts
count_one c decision =
    if decision == decision_allowed
    then record c { allowed = suc c.allowed }
    else if decision == decision_potentially_blocked
    then record c { potentially_blocked = suc c.potentially_blocked }
    else if decision == decision_blocked
    then record c { blocked = suc c.blocked }
    else record c { unknown = suc c.unknown }

abbrev no_flows : DecisionCounts
no_flows = record { allowed = 0; potentially_blocked = 0; blocked = 0; unknown = 0; total = 0 }

summarize_onto : DecisionCounts → List TrafficFlow → DecisionCounts
summarize_onto c [] = c
summarize_onto c (f ∷ flows) =
    let counted = count_one c f.draft_policy_decision in
    summarize_onto (record counted { total = suc counted.total }) flows

unfoldable pub summarize_flows : List TrafficFlow → DecisionCounts
unfolding summarize_onto
summarize_flows flows = summarize_onto no_flows flows

peer_text : List String → Labels → String
peer_text [] labels = ""
peer_text (k ∷ keys) labels = k <> "=" <> get labels k <> ";" <> peer_text keys labels

keys_of : Labels → List String
keys_of [] = []
keys_of ((k, v) ∷ labels) = k ∷ keys_of labels

module _ (sorter : Sorter) where
  unfoldable pub peer_key : Labels → String → String
  unfolding peer_text keys_of
  peer_key labels ip =
      if is_empty labels
      then "ip:" <> ip
      else peer_text (sorter.sort text_compare (keys_of labels)) labels

  -- The key of the map `seen`: a finding's peer, port and protocol number.
  pub record FindingKey : Type 0 where
    pub peer : String
    pub port : ℕ
    pub proto : ℕ

  abbrev pub same_key : FindingKey → FindingKey → Bool
  same_key a b = a.peer == b.peer && a.port == b.port && a.proto == b.proto

  -- `seen`, in the order of `order`.
  abbrev pub Seen : Type 0
  Seen = List (FindingKey × FlowFinding)

  abbrev peer_of : String → TrafficFlow → Labels
  peer_of direction f = if direction == direction_inbound then f.src_labels else f.dst_labels

  abbrev peer_ip_of : String → TrafficFlow → String
  peer_ip_of direction f = if direction == direction_inbound then f.src_ip else f.dst_ip

  abbrev pub key_of : String → TrafficFlow → FindingKey
  key_of direction f = record {
    peer = peer_key (peer_of direction f) (peer_ip_of direction f);
    port = f.port;
    proto = f.protocol;
  }

  abbrev finding_of : String → TrafficFlow → FlowFinding
  finding_of direction f = record {
    peer = peer_of direction f;
    peer_ip = peer_ip_of direction f;
    port = f.port;
    protocol = proto_name f.protocol;
    connections = f.connections;
    decision = f.draft_policy_decision;
    last_detected = f.last_detected;
  }

  -- A flow whose key was seen adds its connections there; another is a finding of its own.
  see : FindingKey → FlowFinding → Seen → Seen
  see k found [] = (k, found) ∷ []
  see k found ((j, old) ∷ seen) =
      if same_key j k
      then (j, record old { connections = add_pattern old.connections found.connections }) ∷ seen
      else (j, old) ∷ see k found seen

  pub see_flows : String → List TrafficFlow → Seen → Seen
  see_flows direction [] seen = seen
  see_flows direction (f ∷ flows) seen = see_flows direction flows (
      if not (draft_blocked f.draft_policy_decision)
      then seen
      else see (key_of direction f) (finding_of direction f) seen)

  pub findings_of : Seen → List FlowFinding
  findings_of [] = []
  findings_of ((k, found) ∷ seen) = found ∷ findings_of seen

  abbrev by_peer : FlowFinding → FlowFinding → Ordering
  by_peer a b =
      then_by (text_compare (peer_key a.peer a.peer_ip) (peer_key b.peer b.peer_ip))
        (then_by (compare a.port b.port) (text_compare a.protocol b.protocol))

  unfoldable pub classify_flows : List TrafficFlow → String → List FlowFinding
  unfolding see see_flows findings_of
  classify_flows flows direction = sorter.sort by_peer (findings_of (see_flows direction flows []))

  -- Most connections first.
  abbrev pub by_connections : FlowFinding → FlowFinding → Ordering
  by_connections a b = then_by (compare (signed_rank b.connections) (signed_rank a.connections)) (
      then_by (text_compare (peer_key a.peer a.peer_ip) (peer_key b.peer b.peer_ip))
        (compare a.port b.port))

  unfoldable pub cap_findings : List FlowFinding → ℤ → List FlowFinding × Bool
  cap_findings f (negsuc n) = (f, false)
  cap_findings f (pos n) =
      if n == 0 || leb (length f) n
      then (f, false)
      else (take n (sorter.sort by_connections f), true)
