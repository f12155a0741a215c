-- ===== src/Onboarding/Pairing.antt =====
-- internal/controller/clusterprofile_controller.go: `ensurePairing`, the pairing profile of the
-- nodes and its key.
use illumio_k8s_utility_oper.Prelude.{
  String, ◌<>◌, true, not, Option, none, some, List, [], ◌∷◌, ◌++◌, ◌==◌, string_eq, if◌then◌else◌,
}
use illumio_k8s_utility_oper.Prelude.Dict.{Labels}
use illumio_k8s_utility_oper.Exec.{Exec, pure, ◌>>=◌, ◌>>◌}
use illumio_k8s_utility_oper.Api.Meta.{ConditionApi, about_text}
use illumio_k8s_utility_oper.Api.ClusterProfile.{ClusterProfile}
use illumio_k8s_utility_oper.Api.Connection.{Config}
use illumio_k8s_utility_oper.Pce.Objects.{LabelRef, Owner, PairingProfile}
use illumio_k8s_utility_oper.Namespaces.Cwp.{enforcement_idle}
use illumio_k8s_utility_oper.Policy.Profile.{Connected}
use illumio_k8s_utility_oper.Onboarding.{
  ProfileApi, OnboardingClient, Step, continue, onboard_requeue_healthy, owner_of,
  write_credentials_secret,
}
use illumio_k8s_utility_oper.Onboarding.Reports.{failing}

module _ {W : Type 0} (operator_namespace : String) (objects : ProfileApi W) (api : ConditionApi)
    (factory : Config → OnboardingClient W) (c : Connected) where
  node_labels : Owner → Labels → List LabelRef → Exec W (List LabelRef)
  node_labels owner [] refs = pure refs
  node_labels owner ((key, value) ∷ labels) refs = do
    lbl ← (factory c.config).profiles.ensure_label key value owner
    node_labels owner labels (refs ++ (record { href = lbl.href } ∷ []))

  create_pairing : ClusterProfile → String → Exec W PairingProfile
  unfolding owner_of node_labels
  create_pairing cp name = do
    let npp = cp.spec.onboarding.node_pairing_profile
    let owner = owner_of c cp
    labels ← node_labels owner npp.labels []
    (factory c.config).create_pairing_profile (record {
      href = "";
      name = name;
      description = "";
      enabled = true;
      enforcement_mode =
          if npp.enforcement_mode == "" then enforcement_idle else npp.enforcement_mode;
      visibility_level = "";
      allowed_uses_per_key = "unlimited";
      key_lifespan = "unlimited";
      labels = labels;
      external_data_set = owner.data_set;
      external_data_reference = owner.reference;
    })

  -- The key, and its publication.
  publish_key : ClusterProfile → PairingProfile → Exec W Step
  publish_key cp pp = do
    code ← (factory c.config).generate_pairing_key pp.href
    write_credentials_secret operator_namespace objects cp c.config.pce_url "" code
    pure (continue cp)

  or_create_pairing : ClusterProfile → String → Option PairingProfile → Exec W PairingProfile
  unfolding create_pairing
  or_create_pairing cp name none = create_pairing cp name
  or_create_pairing cp name (some pp) = pure pp

  on_existing : ClusterProfile → Option PairingProfile → Exec W Step
  unfolding failing publish_key
  on_existing cp none =
      failing objects api cp "OnboardFailed"
        (about_text "pairing profile %q not found in the PCE"
          cp.spec.onboarding.node_pairing_profile.existing_name)
        onboard_requeue_healthy
  on_existing cp (some pp) = publish_key cp pp

  unfoldable pub ensure_pairing : ClusterProfile → Exec W Step
  unfolding on_existing or_create_pairing publish_key
  ensure_pairing cp =
      let npp = cp.spec.onboarding.node_pairing_profile in
      let pp_name = cp.spec.onboarding.container_cluster_name <> "-nodes" in
      if not (npp.existing_name == "")
      then (do pp ← (factory c.config).find_pairing_profile npp.existing_name; on_existing cp pp)
      else do
        found ← (factory c.config).find_pairing_profile pp_name
        pp ← or_create_pairing cp pp_name found
        publish_key cp pp
