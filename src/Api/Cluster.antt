-- ===== src/Api/Cluster.antt =====
-- `client.Client` of controller-runtime, as far as the program calls it: reads and writes of the
-- cluster's objects. Each is an action on the state, which others change too.
use illumio_k8s_utility_oper.Prelude.{String, List}
use illumio_k8s_utility_oper.Prelude.Dict.{Dict}
use illumio_k8s_utility_oper.Exec.{Exec}
use illumio_k8s_utility_oper.Api.Meta.{Namespace}
use illumio_k8s_utility_oper.Api.ClusterProfile.{ClusterProfile}
use illumio_k8s_utility_oper.Api.Connection.{PceConnection}
use illumio_k8s_utility_oper.Api.Segmentation.{SegmentationIntent, SegmentationPolicy}

-- The data of a Secret, as text.
abbrev pub Secret : Type 0
Secret = Dict String

-- The reads, by `Get` and `List`.
pub record Reader (W : Type 0) : Type 0 where
  pub get_namespace : String → Exec W Namespace
  pub list_namespaces : Exec W (List Namespace)
  pub list_profiles : Exec W (List ClusterProfile)
  pub get_connection : String → Exec W PceConnection
  -- by namespace and name
  pub get_secret : String → String → Exec W Secret
  pub list_intents : String → Exec W (List SegmentationIntent)
  pub list_policies : String → Exec W (List SegmentationPolicy)
