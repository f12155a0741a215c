-- ===== src/Onboarding.antt =====
-- internal/controller/clusterprofile_controller.go: the calls of the reconciler of a ClusterProfile,
-- which onboards a cluster to the PCE or adopts it, its modes and intervals, and the credentials Secret.
pub mod Overlap
pub mod Reports
pub mod Cluster
pub mod Pairing
pub mod Reconcile
pub mod Adopting
pub mod Credentials
use illumio_k8s_utility_oper.Prelude.{
  String, Option, ◌==◌, string_eq, after_last_slash, or_else, if◌then◌else◌,
}
use illumio_k8s_utility_oper.Prelude.Dict.{insert}
use illumio_k8s_utility_oper.Exec.{Exec}
use illumio_k8s_utility_oper.Exec.Errors.{Duration}
use illumio_k8s_utility_oper.Api.Cluster.{Secret}
use illumio_k8s_utility_oper.Api.ClusterProfile.{ClusterProfile}
use illumio_k8s_utility_oper.Pce.Objects.{Owner, ContainerCluster, PairingProfile}
use illumio_k8s_utility_oper.Namespaces.Loop.{CwpClient}
use illumio_k8s_utility_oper.Policy.Backend.{seconds}
use illumio_k8s_utility_oper.Policy.Controller.{ControlResult}
use illumio_k8s_utility_oper.Policy.Profile.{Connected}

abbrev pub onboard_mode_create : String
onboard_mode_create = "create"

abbrev pub onboard_mode_adopt : String
onboard_mode_adopt = "adopt"

abbrev pub onboard_requeue_not_ready : Duration
onboard_requeue_not_ready = seconds 30

abbrev pub onboard_requeue_healthy : Duration
onboard_requeue_healthy = seconds 600

abbrev pub onboard_requeue_terminal : Duration
onboard_requeue_terminal = seconds 3600

unfoldable pub onboard_mode : ClusterProfile → String
onboard_mode cp =
    if cp.spec.onboarding.mode == onboard_mode_adopt
    then onboard_mode_adopt
    else onboard_mode_create

-- `pce.ContainerClusterUUID`
unfoldable pub container_cluster_uuid : String → String
container_cluster_uuid href = or_else href (after_last_slash href)

-- `OnboardingClient`: the calls for the cluster and its pairing, and those for the namespaces.
pub record OnboardingClient (W : Type 0) : Type 0 where
  pub find_cluster : String → Exec W (Option ContainerCluster)
  pub create_cluster : String → String → Exec W ContainerCluster
  pub find_pairing_profile : String → Exec W (Option PairingProfile)
  pub create_pairing_profile : PairingProfile → Exec W PairingProfile
  pub generate_pairing_key : String → Exec W String
  pub profiles : CwpClient W

-- The calls on the ClusterProfile itself, and `controllerutil.CreateOrUpdate` on a Secret, by
-- namespace and name, with the function that changes its data.
pub record ProfileApi (W : Type 0) : Type 0 where
  pub get : String → Exec W ClusterProfile
  pub update_status : ClusterProfile → Exec W (Unit {0})
  pub create_or_update_secret : String → String → (Secret → Secret) → Exec W (Unit {0})

abbrev put_unless_empty : String → String → Secret → Secret
put_unless_empty key value secret = if value == "" then secret else insert key value secret

-- What `writeCredentialsSecret` makes of the data of the Secret.
unfoldable pub put_credentials : String → String → String → String → Secret → Secret
put_credentials pce_url cluster_id token code secret = put_unless_empty "cluster_code" code (
    put_unless_empty "cluster_token" token
      (insert "cluster_id" cluster_id (insert "pce_url" pce_url secret)))

-- Go on with the profile, or return.
pub data Step : Type 0 where
  continue : ClusterProfile → Step
  return : ControlResult → Step

abbrev pub put_cluster : ContainerCluster → ClusterProfile → ClusterProfile
put_cluster c cp = record cp {
  status = record cp.status {
    container_cluster_href = c.href;
    container_cluster_id = container_cluster_uuid c.href;
  };
}

unfoldable pub write_credentials_secret :
    {W : Type 0}
    → String
    → ProfileApi W
    → ClusterProfile
    → String
    → String
    → String
    → Exec W (Unit {0})
write_credentials_secret operator_namespace objects cp pce_url token code =
    objects.create_or_update_secret operator_namespace cp.spec.onboarding.credentials_output_secret
      (put_credentials pce_url cp.status.container_cluster_id token code)

unfoldable pub owner_of : Connected → ClusterProfile → Owner
owner_of c cp = record { data_set = c.external_data_set; reference = cp.uid }
