-- ===== src/Api/ClusterProfile.antt =====
-- api/v1alpha1/clusterprofile_types.go and scope.go.
use illumio_k8s_utility_oper.Prelude.{ℕ, String, Bool, List, [], ◌∷◌}
use illumio_k8s_utility_oper.Prelude.Dict.{Dict, Labels}
use illumio_k8s_utility_oper.Api.Meta.{Condition}

pub record LocalObjectReference : Type 0 where
  pub name : String

pub record NodePairingProfileSpec : Type 0 where
  pub existing_name : String
  pub labels : Labels
  pub enforcement_mode : String

pub record NamespaceMatch : Type 0 where
  pub name_pattern : String
  pub labels : Labels

pub record LabelAssignment : Type 0 where
  pub value : String
  pub from_namespace_label : String

pub record NamespaceRule : Type 0 where
  pub match : NamespaceMatch
  pub managed : Bool
  pub assign_labels : Dict LabelAssignment
  pub enforcement_mode : String

pub record SystemNamespacesSpec : Type 0 where
  pub manage : Bool
  pub patterns : List String
  pub labels : Labels
  pub enforcement_mode : String

pub record OnboardingSpec : Type 0 where
  pub mode : String
  pub container_cluster_name : String
  pub credentials_output_secret : String
  pub node_pairing_profile : NodePairingProfileSpec

pub record ClusterProfileSpec : Type 0 where
  pub pce_connection_ref : LocalObjectReference
  pub onboarding : OnboardingSpec
  pub provisioning_mode : String
  pub policy_scope_labels : List String
  pub unknown_label_mode : String
  pub system_namespaces : SystemNamespacesSpec
  pub namespace_rules : List NamespaceRule

pub record ClusterProfileStatus : Type 0 where
  pub conditions : List Condition
  pub container_cluster_href : String
  pub container_cluster_id : String
  pub managed_namespaces : ℕ
  pub observed_generation : ℕ

-- The resource, with the parts of its metadata that are read.
pub record ClusterProfile : Type 0 where
  pub name : String
  pub uid : String
  pub generation : ℕ
  pub spec : ClusterProfileSpec
  pub status : ClusterProfileStatus

abbrev pub default_policy_scope_labels : List String
default_policy_scope_labels = "app" ∷ "env" ∷ []

abbrev scope_keys : List String → List String
scope_keys [] = default_policy_scope_labels
scope_keys (k ∷ keys) = k ∷ keys

abbrev pub scope_label_keys : ClusterProfileSpec → List String
scope_label_keys s = scope_keys s.policy_scope_labels
