-- ===== src/Onboarding/Cluster.antt =====
-- internal/controller/clusterprofile_controller.go: the container cluster, adopted or created.
use illumio_k8s_utility_oper.Prelude.{
  String, not, Option, none, some, ◌==◌, string_eq, if◌then◌else◌,
}
use illumio_k8s_utility_oper.Result.{Result, ok, err}
use illumio_k8s_utility_oper.Exec.{Exec, pure, try, ◌>>=◌, ◌>>◌}
use illumio_k8s_utility_oper.Exec.Errors.{Error}
use illumio_k8s_utility_oper.Api.Meta.{ConditionApi, text, about_text, about_named_error}
use illumio_k8s_utility_oper.Api.ClusterProfile.{ClusterProfile}
use illumio_k8s_utility_oper.Api.Connection.{Config}
use illumio_k8s_utility_oper.Pce.Objects.{ContainerCluster}
use illumio_k8s_utility_oper.Policy.Profile.{Connected}
use illumio_k8s_utility_oper.Onboarding.{
  ProfileApi, OnboardingClient, Step, continue, onboard_mode, onboard_mode_adopt,
  onboard_requeue_healthy, onboard_requeue_terminal, put_cluster, write_credentials_secret,
}
use illumio_k8s_utility_oper.Onboarding.Reports.{onboard_error, failing}

module _ {W : Type 0} (operator_namespace : String) (objects : ProfileApi W) (api : ConditionApi)
    (factory : Config → OnboardingClient W) (c : Connected) where
  on_create : ClusterProfile → Result Error ContainerCluster → Exec W Step
  unfolding onboard_error
  on_create cp (err e) =
      onboard_error objects api cp
        (about_named_error "failed to create PCE container cluster %q: %v"
          cp.spec.onboarding.container_cluster_name e)
        e
  on_create cp (ok created) = do
    let cp' = put_cluster created cp
    write_credentials_secret operator_namespace objects cp' c.config.pce_url created.token ""
    objects.update_status cp'
    pure (continue cp')

  unfoldable pub adopt : ClusterProfile → Option ContainerCluster → Exec W Step
  unfolding failing
  adopt cp none =
      failing objects api cp "OnboardFailed"
        (about_text
          "onboarding.mode is adopt but container cluster %q was not found in the PCE; create it first or use mode create"
          cp.spec.onboarding.container_cluster_name)
        onboard_requeue_healthy
  adopt cp (some existing) = do
    objects.update_status (put_cluster existing cp)
    pure (continue (put_cluster existing cp))

  create_new : ClusterProfile → Option ContainerCluster → Exec W Step
  unfolding failing on_create
  create_new cp existing =
      if cp.spec.onboarding.credentials_output_secret == ""
      then failing objects api cp "OnboardFailed"
          (text "onboarding.credentialsOutputSecret is required in create mode")
          onboard_requeue_terminal
      else elim existing [
        | some other ↦
            failing objects api cp "OnboardFailed"
              (about_text
                "container cluster %q already exists in the PCE; its one-time token cannot be recovered. Set onboarding.mode: adopt to manage it in place, or delete it."
                cp.spec.onboarding.container_cluster_name)
              onboard_requeue_terminal
        | none ↦ do
          r ← try (
              (factory c.config).create_cluster cp.spec.onboarding.container_cluster_name
                "Managed by illumio-k8s-utility-operator")
          on_create cp r
      ]

  -- The container cluster, unless the status has it.
  unfoldable pub ensure_cluster : ClusterProfile → Exec W Step
  unfolding adopt create_new
  ensure_cluster cp =
      if not (cp.status.container_cluster_href == "") then pure (continue cp) else do
        existing ← (factory c.config).find_cluster cp.spec.onboarding.container_cluster_name
        if onboard_mode cp == onboard_mode_adopt then adopt cp existing else create_new cp existing
