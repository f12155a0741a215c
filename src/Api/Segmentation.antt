-- ===== src/Api/Segmentation.antt =====
-- api/v1alpha1/segmentationintent_types.go and segmentationpolicy_types.go: the two policy front
-- ends. An `int` that the program only copies and compares is a natural number.
use illumio_k8s_utility_oper.Prelude.{ℕ, String, Bool, Option, List}
use illumio_k8s_utility_oper.Prelude.Dict.{Labels}
use illumio_k8s_utility_oper.Api.Meta.{Condition, ObjectMeta}

pub record IntentPort : Type 0 where
  pub port : ℕ
  pub protocol : String

pub record IntentAllow : Type 0 where
  pub from : Labels
  pub from_intra_namespace : Labels
  pub ports : List IntentPort

pub record SegmentationIntentSpec : Type 0 where
  pub provider : Labels
  pub allow : List IntentAllow
  pub allow_intra_namespace : Bool
  pub enforcement : String

pub record SegmentationIntentStatus : Type 0 where
  pub conditions : List Condition
  pub workloads_affected : ℕ
  pub effective_enforcement : String
  pub enforcement_set_by : String
  pub unknown_label_mode : String
  pub unknown_label_mode_set_by : String
  pub deferred_labels : List String
  pub created_labels : List String
  pub observed_generation : ℕ

pub record SegmentationIntent : Type 0 where
  pub meta : ObjectMeta
  pub spec : SegmentationIntentSpec
  pub status : SegmentationIntentStatus

-- `metav1.LabelSelectorRequirement` and `metav1.LabelSelector` of the Kubernetes API.
pub record LabelSelectorRequirement : Type 0 where
  pub key : String
  pub operator : String
  pub values : List String

pub record LabelSelector : Type 0 where
  pub match_labels : Labels
  pub match_expressions : List LabelSelectorRequirement

pub record NetworkPolicyPeer : Type 0 where
  pub pod_selector : Option LabelSelector
  pub namespace_selector : Option LabelSelector

pub record NetworkPolicyPort : Type 0 where
  pub port : ℕ
  pub protocol : String

pub record IngressRule : Type 0 where
  pub from : List NetworkPolicyPeer
  pub ports : List NetworkPolicyPort

pub record SegmentationPolicySpec : Type 0 where
  pub pod_selector : LabelSelector
  pub ingress : List IngressRule
  pub policy_types : List String
  pub enforcement : String

pub record SegmentationPolicyStatus : Type 0 where
  pub conditions : List Condition
  pub workloads_affected : ℕ
  pub effective_enforcement : String
  pub enforcement_set_by : String
  pub unknown_label_mode : String
  pub unknown_label_mode_set_by : String
  pub deferred_labels : List String
  pub created_labels : List String
  pub observed_generation : ℕ

pub record SegmentationPolicy : Type 0 where
  pub meta : ObjectMeta
  pub spec : SegmentationPolicySpec
  pub status : SegmentationPolicyStatus
