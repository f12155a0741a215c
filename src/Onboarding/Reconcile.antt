-- ===== src/Onboarding/Reconcile.antt =====
-- internal/controller/clusterprofile_controller.go: `Reconcile` of a ClusterProfile.
use illumio_k8s_utility_oper.Prelude.{
  ltb, String, Option, none, some, [], ◌∷◌, ◌==◌, string_eq, if◌then◌else◌,
}
use illumio_k8s_utility_oper.Prelude.Order.{Sorter}
use illumio_k8s_utility_oper.Result.{ok, err}
use illumio_k8s_utility_oper.Exec.{Exec, pure, raise, try, ◌>>=◌, ◌>>◌}
use illumio_k8s_utility_oper.Exec.Errors.{Error, is_kube_not_found}
use illumio_k8s_utility_oper.Api.Meta.{
  ConditionApi, condition_true, condition_false, Message, text, about_counts, about_error,
}
use illumio_k8s_utility_oper.Api.Cluster.{Reader}
use illumio_k8s_utility_oper.Api.ClusterProfile.{ClusterProfile}
use illumio_k8s_utility_oper.Api.Connection.{Config}
use illumio_k8s_utility_oper.Namespaces.Loop.{CwpTotals, reconcile_namespace_cwps}
use illumio_k8s_utility_oper.Policy.Controller.{ControlResult, done}
use illumio_k8s_utility_oper.Policy.Profile.{Connected, resolve_connection}
use illumio_k8s_utility_oper.Onboarding.Overlap.{LabelMaps, check_label_map_overlap}
use illumio_k8s_utility_oper.Onboarding.{
  ProfileApi, OnboardingClient, Step, continue, return, onboard_mode, onboard_mode_adopt,
  onboard_mode_create, onboard_requeue_not_ready, onboard_requeue_healthy, owner_of,
}
use illumio_k8s_utility_oper.Onboarding.Reports.{put_status, put_observed, onboard_fail}
use illumio_k8s_utility_oper.Onboarding.Cluster.{ensure_cluster}
use illumio_k8s_utility_oper.Onboarding.Pairing.{ensure_pairing}

onboard_message : ClusterProfile → Message
onboard_message cp =
    if onboard_mode cp == onboard_mode_adopt
    then text "existing container cluster adopted"
    else text "cluster onboarded; credentials published"

namespaces_message : CwpTotals → Message
namespaces_message t =
    if ltb 0 t.pending
    then about_counts "%d namespace(s) managed; %d awaiting CWP creation by Kubelink"
        (t.managed ∷ t.pending ∷ [])
    else about_counts "%d namespace(s) managed" (t.managed ∷ [])

module _ {W : Type 0} (sorter : Sorter) (operator_namespace : String) (objects : ProfileApi W)
    (k8s : Reader W) (maps : LabelMaps W) (api : ConditionApi)
    (factory : Config → OnboardingClient W) where
  put_totals : CwpTotals → ClusterProfile → ClusterProfile
  unfolding onboard_message
  put_totals t cp =
      put_status api "Onboarded" condition_true "Onboarded" (onboard_message cp)
        (record cp { status = record cp.status { managed_namespaces = t.managed } })

  unfoldable pub on_totals : ClusterProfile → CwpTotals → Option Error → Exec W ControlResult
  unfolding put_totals namespaces_message
  on_totals cp t (some e) = do
    objects.update_status (
        put_status api "NamespacesReconciled" condition_false "NamespaceReconcileErrors"
          (about_error "%s" e) (put_totals t cp))
    raise e
  on_totals cp t none = do
    checked ← check_label_map_overlap sorter maps api (
        put_status api "NamespacesReconciled" condition_true "Reconciled" (namespaces_message t)
          (put_totals t cp))
    objects.update_status (put_observed checked)
    pure (record {
      requeue_after =
          if ltb 0 t.pending then onboard_requeue_not_ready else onboard_requeue_healthy;
    })

  module _ (c : Connected) where
    unfoldable pub on_paired : Step → Exec W ControlResult
    unfolding on_totals owner_of
    on_paired (return r) = pure r
    on_paired (continue cp) = do
      t ← reconcile_namespace_cwps k8s (factory c.config).profiles (owner_of c cp) cp
      on_totals cp t t.failure

    unfoldable pub on_cluster : Step → Exec W ControlResult
    unfolding ensure_pairing on_paired
    on_cluster (return r) = pure r
    on_cluster (continue cp) =
        if onboard_mode cp == onboard_mode_create
        then (do s ← ensure_pairing operator_namespace objects api factory c cp; on_paired s)
        else on_paired (continue cp)

    unfoldable pub onboard : ClusterProfile → Exec W ControlResult
    unfolding ensure_cluster on_cluster
    onboard cp = do s ← ensure_cluster operator_namespace objects api factory c cp; on_cluster s

  unfoldable pub on_connection : ClusterProfile → Option Connected → Exec W ControlResult
  unfolding onboard_fail onboard
  on_connection cp none =
      onboard_fail objects api cp "PCEConnectionNotReady"
        (text
          "referenced PCEConnection is missing, not Connected, or its credentials Secret is unavailable")
        onboard_requeue_not_ready
  on_connection cp (some c) = onboard c cp

  unfoldable pub reconcile_profile : String → Exec W ControlResult
  unfolding on_connection
  reconcile_profile name = do
    r ← try (objects.get name)
    elim r [
      | err e ↦ if is_kube_not_found e then pure done else raise e
      | ok cp ↦ do
        c ← resolve_connection k8s api cp.spec.pce_connection_ref.name
        on_connection cp c
    ]
