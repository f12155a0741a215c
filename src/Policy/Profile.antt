-- ===== src/Policy/Profile.antt =====
-- internal/controller/policybackend.go, resolveClusterProfile, and clusterprofile_controller.go,
-- resolveConnection: which ClusterProfile manages a namespace, and how its PCE is reached.
pub mod Choice
use illumio_k8s_utility_oper.Prelude.{
  String, Bool, true, false, not, ◌||◌, Option, none, some, List, [], ◌∷◌, ◌==◌, string_eq,
  if◌then◌else◌,
}
use illumio_k8s_utility_oper.Prelude.Dict.{get}
use illumio_k8s_utility_oper.Result.{Result, ok, err}
use illumio_k8s_utility_oper.Exec.{Exec, pure, raise, try, ◌>>=◌}
use illumio_k8s_utility_oper.Exec.Errors.{is_kube_not_found, Error}
use illumio_k8s_utility_oper.Api.Meta.{ConditionApi, Namespace}
use illumio_k8s_utility_oper.Api.Cluster.{Reader, Secret}
use illumio_k8s_utility_oper.Api.ClusterProfile.{ClusterProfile}
use illumio_k8s_utility_oper.Api.Connection.{PceConnection, PceConnectionSpec, Config}
use illumio_k8s_utility_oper.Namespaces.Cwp.{DesiredCwp, compute_desired_cwp}

abbrev pub default_external_data_set : String
default_external_data_set = "illumio-operator"

-- A usable connection: the client's configuration, and the data set that marks what it creates.
pub record Connected : Type 0 where
  pub config : Config
  pub external_data_set : String

pub record ReadyProfile : Type 0 where
  pub profile : ClusterProfile
  pub connected : Connected

-- `ComputeDesiredCWP` of a namespace under a profile.
abbrev pub desired_for : Namespace → ClusterProfile → DesiredCwp
desired_for ns cp =
    compute_desired_cwp ns.name ns.labels ns.annotations cp.spec.namespace_rules
      cp.spec.system_namespaces

credentials : PceConnectionSpec → Secret → Option Connected
credentials spec secret =
    let api_key = get secret "api_key" in
    let api_secret = get secret "api_secret" in
    if api_key == "" || api_secret == ""
    then none
    else some (record {
      config = record {
        pce_url = spec.pce_url;
        org_id = spec.org_id;
        api_key = api_key;
        api_secret = api_secret;
      };
      external_data_set =
          if spec.external_data_set == ""
          then default_external_data_set
          else spec.external_data_set;
    })

module _ {W : Type 0} where
  -- A read for which NotFound is an answer and any other error is returned.
  found : {A : Type 0} → Result Error A → Exec W (Option A)
  found (ok a) = pure (some a)
  found (err e) = if is_kube_not_found e then pure none else raise e

  module _ (k8s : Reader W) (api : ConditionApi) where
    with_secret : PceConnectionSpec → Option Secret → Exec W (Option Connected)
    with_secret spec none = pure none
    with_secret spec (some secret) = pure (credentials spec secret)

    with_connection : Option PceConnection → Exec W (Option Connected)
    with_connection none = pure none
    with_connection (some conn) =
        if not (api.is_condition_true conn.status.conditions "Connected") then pure none else do
          s ← try (
              k8s.get_secret conn.spec.credentials_secret_ref.namespace
                conn.spec.credentials_secret_ref.name)
          secret ← found s
          with_secret conn.spec secret

    unfoldable pub resolve_connection : String → Exec W (Option Connected)
    unfolding credentials found with_secret with_connection
    resolve_connection name = do
      c ← try (k8s.get_connection name)
      conn ← found c
      with_connection conn

    ready_with : ClusterProfile → Option Connected → Option ReadyProfile
    ready_with cp none = none
    ready_with cp (some c) = some (record { profile = cp; connected = c })

    -- One profile of the loop; `none` stands for its `continue`.
    try_profile : Namespace → ClusterProfile → Exec W (Option ReadyProfile)
    try_profile ns cp =
        if not (api.is_condition_true cp.status.conditions "Onboarded")
        then pure none
        else if not (desired_for ns cp).managed
        then pure none
        else do c ← resolve_connection cp.spec.pce_connection_ref.name; pure (ready_with cp c)

    first_profile : Namespace → List ClusterProfile → Exec W (Option ReadyProfile)
    first_profile ns [] = pure none
    first_profile ns (cp ∷ rest) = do
      r ← try_profile ns cp
      elim r [ none ↦ first_profile ns rest | some ready ↦ pure (some ready) ]

    among_profiles : Option Namespace → Exec W (Option ReadyProfile)
    among_profiles none = pure none
    among_profiles (some ns) = do profiles ← k8s.list_profiles; first_profile ns profiles

    unfoldable pub resolve_cluster_profile : String → Exec W (Option ReadyProfile)
    unfolding found ready_with try_profile first_profile among_profiles
    resolve_cluster_profile ns_name = do
      n ← try (k8s.get_namespace ns_name)
      ns ← found n
      among_profiles ns
