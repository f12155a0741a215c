-- ===== src/Onboarding/Adopting.antt =====
-- A cluster that is adopted: neither it nor its pairing is created.
use illumio_k8s_utility_oper.Prelude.{String, ◌≡◌, refl, not, Option, none, some, ◌==◌, string_eq}
use illumio_k8s_utility_oper.Prelude.Order.{Sorter}
use illumio_k8s_utility_oper.Result.{ok, err}
use illumio_k8s_utility_oper.Exec.Errors.{Error, Duration, is_kube_not_found}
use illumio_k8s_utility_oper.Exec.Value.{
  Returns, Returns-pure, Returns-after, Returns-if, OnOk, Returns-try,
}
use illumio_k8s_utility_oper.Exec.Frame.{
  Keeps, Keeps-pure, Keeps-raise, Keeps-try, Keeps-if, Keeps-bind, Keeps-bind_known,
}
use illumio_k8s_utility_oper.Api.Meta.{ConditionApi, Message}
use illumio_k8s_utility_oper.Api.Cluster.{Reader}
use illumio_k8s_utility_oper.Api.ClusterProfile.{ClusterProfile}
use illumio_k8s_utility_oper.Api.Connection.{Config}
use illumio_k8s_utility_oper.Pce.Objects.{ContainerCluster}
use illumio_k8s_utility_oper.Namespaces.Loop.{CwpTotals}
use illumio_k8s_utility_oper.Namespaces.Loop.Calls.{KeepsCwps, reconcile_namespace_cwps-Keeps}
use illumio_k8s_utility_oper.Policy.Profile.{Connected}
use illumio_k8s_utility_oper.Policy.Profile.Choice.{KeepsReads, resolve_connection-Keeps}
use illumio_k8s_utility_oper.Onboarding.Overlap.{LabelMaps, check_label_map_overlap}
use illumio_k8s_utility_oper.Onboarding.{
  ProfileApi, OnboardingClient, Step, continue, return, onboard_mode,
}
use illumio_k8s_utility_oper.Onboarding.Reports.{onboard_fail, failing}
use illumio_k8s_utility_oper.Onboarding.Cluster.{adopt, ensure_cluster}
use illumio_k8s_utility_oper.Onboarding.Reconcile.{
  on_totals, on_paired, on_cluster, onboard, on_connection, reconcile_profile,
}

abbrev pub IsAdopting : ClusterProfile → Type 0
IsAdopting cp = cp.spec.onboarding.mode ≡ "adopt"

onboard_mode-IsAdopting : (cp : ClusterProfile) → IsAdopting cp → onboard_mode cp ≡ "adopt"
unfolding onboard_mode
onboard_mode-IsAdopting cp h = rw h refl

abbrev Continues : Step → Type 0
Continues (continue cp) = IsAdopting cp
Continues (return r) = Unit

-- The calls for an adopted cluster: reads, writes of the profile's status, and what the namespaces
-- need. The creations of a cluster, of a pairing profile and of a key, and the Secret, are not among
-- them.
pub record KeepsAdopting {W : Type 0} (objects : ProfileApi W) (k8s : Reader W) (maps : LabelMaps W)
    (factory : Config → OnboardingClient W) (P : W → Type 0) : Type 0 where
  pub object : (name : String) → Keeps P (objects.get name)
  pub status : (cp : ClusterProfile) → Keeps P (objects.update_status cp)
  pub overlaps : Keeps P maps.list
  pub clusters : (cfg : Config) (name : String) → Keeps P ((factory cfg).find_cluster name)
  pub cwps : (cfg : Config) → KeepsCwps k8s (factory cfg).profiles P

module _ {W : Type 0} (sorter : Sorter) (operator_namespace : String) (objects : ProfileApi W)
    (k8s : Reader W) (maps : LabelMaps W) (api : ConditionApi)
    (factory : Config → OnboardingClient W) (P : W → Type 0) (reads : KeepsReads k8s P)
    (calls : KeepsAdopting objects k8s maps factory P) where
  onboard_fail-Keeps :
      (cp : ClusterProfile) (reason : String) (message : Message) (d : Duration)
      → Keeps P (onboard_fail objects api cp reason message d)
  unfolding onboard_fail
  onboard_fail-Keeps cp reason message d = Keeps-bind _ _ (calls.status _) λ u. Keeps-pure _

  on_totals-Keeps :
      (cp : ClusterProfile) (t : CwpTotals) (o : Option Error)
      → Keeps P (on_totals sorter operator_namespace objects k8s maps api factory cp t o)
  unfolding on_totals check_label_map_overlap
  on_totals-Keeps cp t (some e) = Keeps-bind _ _ (calls.status _) λ u. Keeps-raise e
  on_totals-Keeps cp t none =
      Keeps-bind _ _ (Keeps-bind _ _ (Keeps-try _ calls.overlaps) λ r. Keeps-pure _)
        λ checked. Keeps-bind _ _ (calls.status _) λ u. Keeps-pure _

  module _ (c : Connected) where
    adopt-Keeps :
        (cp : ClusterProfile) (o : Option ContainerCluster)
        → Keeps P (adopt operator_namespace objects api factory c cp o)
    unfolding adopt failing
    adopt-Keeps cp none = Keeps-bind _ _ (onboard_fail-Keeps cp _ _ _) λ r. Keeps-pure _
    adopt-Keeps cp (some existing) = Keeps-bind _ _ (calls.status _) λ u. Keeps-pure _

    adopt-Continues :
        (cp : ClusterProfile) (o : Option ContainerCluster)
        → IsAdopting cp
        → Returns Continues (adopt operator_namespace objects api factory c cp o)
    unfolding adopt failing
    adopt-Continues cp none h =
        Returns-after Continues _ _ λ r. Returns-pure Continues (return r) tt
    adopt-Continues cp (some existing) h =
        Returns-after Continues _ _ λ u. Returns-pure Continues _ h

    ensure_cluster-Keeps :
        (cp : ClusterProfile)
        → IsAdopting cp
        → Keeps P (ensure_cluster operator_namespace objects api factory c cp)
    unfolding ensure_cluster
    ensure_cluster-Keeps cp h =
        Keeps-if (not (cp.status.container_cluster_href == "")) _ _ (Keeps-pure _) (
          Keeps-bind _ _ (calls.clusters c.config _)
            λ o. rw (onboard_mode-IsAdopting cp h) (adopt-Keeps cp o))

    ensure_cluster-Continues :
        (cp : ClusterProfile)
        → IsAdopting cp
        → Returns Continues (ensure_cluster operator_namespace objects api factory c cp)
    unfolding ensure_cluster
    ensure_cluster-Continues cp h =
        Returns-if Continues (not (cp.status.container_cluster_href == "")) _ _
          (Returns-pure Continues (continue cp) h)
          (Returns-after Continues _ _
            λ o. rw (onboard_mode-IsAdopting cp h) (adopt-Continues cp o h))

    on_paired-Keeps :
        (s : Step) → Keeps P (on_paired sorter operator_namespace objects k8s maps api factory c s)
    unfolding on_paired
    on_paired-Keeps (return r) = Keeps-pure _
    on_paired-Keeps (continue cp) =
        Keeps-bind _ _
          (reconcile_namespace_cwps-Keeps k8s (factory c.config).profiles _ P (calls.cwps c.config)
            cp)
          λ t. on_totals-Keeps cp t t.failure

    on_cluster-Keeps :
        (s : Step)
        → Continues s
        → Keeps P (on_cluster sorter operator_namespace objects k8s maps api factory c s)
    unfolding on_cluster
    on_cluster-Keeps (return r) h = Keeps-pure _
    on_cluster-Keeps (continue cp) h =
        rw (onboard_mode-IsAdopting cp h) (on_paired-Keeps (continue cp))

  on_connection-Keeps :
      (cp : ClusterProfile) (o : Option Connected)
      → IsAdopting cp
      → Keeps P (on_connection sorter operator_namespace objects k8s maps api factory cp o)
  unfolding on_connection onboard
  on_connection-Keeps cp none h = onboard_fail-Keeps cp _ _ _
  on_connection-Keeps cp (some c) h =
      Keeps-bind_known Continues _ _ (ensure_cluster-Keeps c cp h) (ensure_cluster-Continues c cp h)
        (on_cluster-Keeps c)

  -- For a profile in adopt mode a reconciliation reads, writes the profile's status and updates the
  -- namespaces, which may create labels, and makes no other call: whatever these keep is kept, so no
  -- container cluster, pairing profile or pairing key is created, and the credentials Secret is not
  -- written.
  pub reconcile_profile-IsAdopting :
      (name : String)
      → Returns IsAdopting (objects.get name)
      → Keeps P (reconcile_profile sorter operator_namespace objects k8s maps api factory name)
  unfolding reconcile_profile
  reconcile_profile-IsAdopting name adopting =
      Keeps-bind_known (OnOk IsAdopting) _ _ (Keeps-try _ (calls.object name))
        (Returns-try IsAdopting (objects.get name) adopting)
        (elim [
          | err e ↦ λ _. Keeps-if (is_kube_not_found e) _ _ (Keeps-pure _) (Keeps-raise e)
          | ok cp ↦ λ h.
              Keeps-bind _ _ (resolve_connection-Keeps k8s api P reads _)
                λ c. on_connection-Keeps cp c h
        ])
