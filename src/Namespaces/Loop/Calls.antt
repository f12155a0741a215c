-- ===== src/Namespaces/Loop/Calls.antt =====
-- The calls that the loop over the namespaces makes.
use illumio_k8s_utility_oper.Prelude.{String, Option, none, some, List, [], ◌∷◌, ◌==◌, string_eq}
use illumio_k8s_utility_oper.Prelude.Dict.{Dict, Labels, lookup}
use illumio_k8s_utility_oper.Result.{Result, ok, err}
use illumio_k8s_utility_oper.Exec.{Exec}
use illumio_k8s_utility_oper.Exec.Errors.{Error}
use illumio_k8s_utility_oper.Exec.Frame.{Keeps, Keeps-pure, Keeps-try, Keeps-if, Keeps-bind}
use illumio_k8s_utility_oper.Api.Meta.{Namespace}
use illumio_k8s_utility_oper.Api.Cluster.{Reader}
use illumio_k8s_utility_oper.Api.ClusterProfile.{ClusterProfile}
use illumio_k8s_utility_oper.Pce.Objects.{Owner}
use illumio_k8s_utility_oper.Namespaces.Cwp.{DesiredCwp}
use illumio_k8s_utility_oper.Namespaces.Update.{
  ContainerWorkloadProfile, CwpUpdate, Resolving, BuiltUpdate, WithCache, uncached, recall,
  remember, assign_found, resolve_desired, build_cwp_update,
}
use illumio_k8s_utility_oper.Policy.Enforcement.{effective_enforcement}
use illumio_k8s_utility_oper.Policy.Profile.Choice.{KeepsReads}
use illumio_k8s_utility_oper.Namespaces.Loop.{
  CwpClient, Tally, raise_enforcement, on_built, apply_profile, each_namespace, fresh_cache,
  on_cwps, on_namespaces, reconcile_namespace_cwps,
}

pub record KeepsCwps {W : Type 0} (k8s : Reader W) (client : CwpClient W) (P : W → Type 0)
    : Type 0 where
  pub reads : KeepsReads k8s P
  pub namespaces : Keeps P k8s.list_namespaces
  pub ensures : (key value : String) (owner : Owner) → Keeps P (client.ensure_label key value owner)
  pub lists : (cluster : String) → Keeps P (client.list_profiles cluster)
  pub updates : (href : String) (u : CwpUpdate) → Keeps P (client.update_profile href u)

-- A property of the state, beside a cache.
abbrev pub Beside : {W : Type 0} → (W → Type 0) → WithCache W → Type 0
Beside P (w, cache) = P w

module _ {W : Type 0} (P : W → Type 0) where
  pub uncached-Keeps : {A : Type 0} (m : Exec W A) → Keeps P m → Keeps (Beside P) (uncached m)
  unfolding uncached
  uncached-Keeps m k = record { holds = λ (w, cache) h. k.holds w h }

  recall-Keeps : (key : String) → Keeps (Beside P) (recall key)
  unfolding recall
  recall-Keeps key = record { holds = λ (w, cache) h. h }

  remember-Keeps : (key href : String) → Keeps (Beside P) (remember key href)
  unfolding remember
  remember-Keeps key href = record { holds = λ (w, cache) h. h }

module _ {W : Type 0} (k8s : Reader W) (client : CwpClient W) (owner : Owner) (P : W → Type 0)
    (calls : KeepsCwps k8s client P) where
  assign_found-Keeps :
      (key value : String) (r : Resolving) (o : Option String)
      → Keeps (Beside P) (assign_found client.ensure_label owner key value r o)
  unfolding assign_found
  assign_found-Keeps key value r (some href) = Keeps-pure _
  assign_found-Keeps key value r none =
      Keeps-bind _ _ (uncached-Keeps P _ (calls.ensures key value owner))
        λ lbl. Keeps-bind _ _ (remember-Keeps P _ _) λ _. Keeps-pure _

  resolve_desired-Keeps :
      (labels : Labels) (r : Resolving)
      → Keeps (Beside P) (resolve_desired client.ensure_label owner labels r)
  unfolding resolve_desired
  resolve_desired-Keeps [] r = Keeps-pure _
  resolve_desired-Keeps ((key, value) ∷ labels) r =
      Keeps-bind _ _ (recall-Keeps P _)
        λ o. Keeps-bind _ _ (assign_found-Keeps key value r o) (resolve_desired-Keeps labels)

  pub build_cwp_update-Keeps :
      (cwp : ContainerWorkloadProfile) (desired : DesiredCwp)
      → Keeps (Beside P) (build_cwp_update client.ensure_label owner cwp desired)
  unfolding build_cwp_update
  build_cwp_update-Keeps cwp desired =
      Keeps-bind _ _ (resolve_desired-Keeps desired.labels _) λ r. Keeps-pure _

  on_built-Keeps :
      (ns : Namespace) (cwp : ContainerWorkloadProfile) (desired : DesiredCwp) (t : Tally)
      (r : Result Error BuiltUpdate)
      → Keeps (Beside P) (on_built k8s client owner ns cwp desired t r)
  unfolding on_built
  on_built-Keeps ns cwp desired t (err e) = Keeps-pure _
  on_built-Keeps ns cwp desired t (ok b) =
      Keeps-if b.changed _ _
        (Keeps-bind _ _ (Keeps-try _ (uncached-Keeps P _ (calls.updates _ _))) λ u. Keeps-pure _)
        (Keeps-pure _)

  apply_profile-Keeps :
      (ns : Namespace) (desired : DesiredCwp) (t : Tally) (o : Option ContainerWorkloadProfile)
      → Keeps (Beside P) (apply_profile k8s client owner ns desired t o)
  unfolding apply_profile
  apply_profile-Keeps ns desired t none = Keeps-pure _
  apply_profile-Keeps ns desired t (some cwp) =
      Keeps-bind _ _ (Keeps-try _ (build_cwp_update-Keeps cwp desired))
        (on_built-Keeps ns cwp desired t)

  raise_enforcement-Keeps :
      (ns : Namespace) (desired : DesiredCwp) (t : Tally)
      → Keeps (Beside P) (raise_enforcement k8s client owner ns desired t)
  unfolding raise_enforcement effective_enforcement
  raise_enforcement-Keeps ns desired t =
      Keeps-if desired.managed _ _
        (Keeps-bind _ _
          (Keeps-try _ (
            uncached-Keeps P _ (
              Keeps-bind _ _ (calls.reads.intents _)
                λ i. Keeps-bind _ _ (calls.reads.policies _) λ p. Keeps-pure _)))
          λ e. Keeps-pure _)
        (Keeps-pure _)

  each_namespace-Keeps :
      (cp : ClusterProfile) (by_ns : Dict ContainerWorkloadProfile) (namespaces : List Namespace)
      (t : Tally)
      → Keeps (Beside P) (each_namespace k8s client owner cp by_ns namespaces t)
  unfolding each_namespace
  each_namespace-Keeps cp by_ns [] t = Keeps-pure _
  each_namespace-Keeps cp by_ns (ns ∷ rest) t =
      Keeps-bind _ _ (raise_enforcement-Keeps ns _ t) λ raised.
        Keeps-bind _ _ (apply_profile-Keeps ns raised.0 raised.1 (lookup ns.name by_ns))
          (each_namespace-Keeps cp by_ns rest)

  fresh_cache-Keeps :
      {A : Type 0} (m : Exec (WithCache W) A)
      → Keeps (Beside P) m
      → Keeps P (fresh_cache k8s client owner m)
  unfolding fresh_cache
  fresh_cache-Keeps m k = record { holds = λ w h. k.holds (w, []) h }

  on_cwps-Keeps :
      (cp : ClusterProfile) (namespaces : List Namespace)
      (r : Result Error (List ContainerWorkloadProfile))
      → Keeps P (on_cwps k8s client owner cp namespaces r)
  unfolding on_cwps
  on_cwps-Keeps cp namespaces (err e) = Keeps-pure _
  on_cwps-Keeps cp namespaces (ok cwps) =
      Keeps-bind _ _ (fresh_cache-Keeps _ (each_namespace-Keeps cp _ namespaces _))
        λ t. Keeps-pure _

  on_namespaces-Keeps :
      (cp : ClusterProfile) (r : Result Error (List Namespace))
      → Keeps P (on_namespaces k8s client owner cp r)
  unfolding on_namespaces
  on_namespaces-Keeps cp (err e) = Keeps-pure _
  on_namespaces-Keeps cp (ok namespaces) =
      Keeps-bind _ _ (Keeps-try _ (calls.lists _)) (on_cwps-Keeps cp namespaces)

  pub reconcile_namespace_cwps-Keeps :
      (cp : ClusterProfile) → Keeps P (reconcile_namespace_cwps k8s client owner cp)
  unfolding reconcile_namespace_cwps
  reconcile_namespace_cwps-Keeps cp =
      Keeps-if (cp.status.container_cluster_id == "") _ _ (Keeps-pure _)
        (Keeps-bind _ _ (Keeps-try _ calls.namespaces) (on_namespaces-Keeps cp))
