-- ===== src/Api/Insight.antt =====
-- api/v1alpha1/policyinsight_types.go. A time is a number of nanoseconds, a duration too.
use illumio_k8s_utility_oper.Prelude.{ℕ, String, Bool, Option, List}
use illumio_k8s_utility_oper.Prelude.Int.{ℤ}
use illumio_k8s_utility_oper.Prelude.Dict.{Labels}
use illumio_k8s_utility_oper.Api.Meta.{Condition, ObjectMeta}

abbrev pub Time : Type 0
Time = ℤ

pub record PolicyInsightSpec : Type 0 where
  pub lookback_days : ℤ

pub record FlowFinding : Type 0 where
  pub peer : Labels
  pub peer_ip : String
  pub port : ℕ
  pub protocol : String
  -- an `int`, as its pattern of 64 bits
  pub connections : ℕ
  pub decision : String
  pub last_detected : Time

pub record ObservationWindow : Type 0 where
  pub from : Time
  pub to : Time

pub record DecisionCounts : Type 0 where
  pub allowed : ℕ
  pub potentially_blocked : ℕ
  pub blocked : ℕ
  pub unknown : ℕ
  pub total : ℕ

pub record PreflightSummary : Type 0 where
  pub inbound : DecisionCounts
  pub outbound : DecisionCounts

pub record PolicyInsightStatus : Type 0 where
  pub conditions : List Condition
  pub observed_window : Option ObservationWindow
  pub summary : Option PreflightSummary
  pub flows_analyzed : ℕ
  pub inbound_blocked_count : ℕ
  pub outbound_blocked_count : ℕ
  pub truncated : Bool
  pub would_block_inbound : List FlowFinding
  pub would_block_inbound_truncated : Bool
  pub would_block_outbound : List FlowFinding
  pub would_block_outbound_truncated : Bool
  pub observed_generation : ℕ
  pub observed_refresh : String

pub record PolicyInsight : Type 0 where
  pub meta : ObjectMeta
  pub spec : PolicyInsightSpec
  pub status : PolicyInsightStatus

abbrev pub annotation_refresh : String
annotation_refresh = "microsegment.io/refresh"
