-- ===== src/Insight/Scope/Calls.antt =====
-- Preparing a request only reads.
use illumio_k8s_utility_oper.Prelude.{String, Option, none, some, List, [], ◌∷◌, is_empty}
use illumio_k8s_utility_oper.Prelude.Dict.{Labels}
use illumio_k8s_utility_oper.Result.{Result, ok, err}
use illumio_k8s_utility_oper.Exec.{Exec}
use illumio_k8s_utility_oper.Exec.Errors.{Error, is_kube_not_found, is_label_not_found}
use illumio_k8s_utility_oper.Exec.Frame.{
  Keeps, Keeps-pure, Keeps-raise, Keeps-try, Keeps-if, Keeps-bind,
}
use illumio_k8s_utility_oper.Api.Meta.{ConditionApi, Namespace}
use illumio_k8s_utility_oper.Api.Cluster.{Reader}
use illumio_k8s_utility_oper.Api.Connection.{Config}
use illumio_k8s_utility_oper.Pce.Objects.{Label}
use illumio_k8s_utility_oper.Policy.Profile.{ReadyProfile}
use illumio_k8s_utility_oper.Policy.Profile.Choice.{KeepsReads, resolve_cluster_profile-Keeps}
use illumio_k8s_utility_oper.Policy.Resolve.{accepted, rejected}
use illumio_k8s_utility_oper.Insight.Scope.{
  Refusals, on_found, scope_hrefs, on_scope, on_namespace, on_profile, prepare, scope_label_values,
}

module _ {W : Type 0} (find_label : Config → String → String → Exec W Label) (k8s : Reader W)
    (api : ConditionApi) (refusals : Refusals) (P : W → Type 0) (reads : KeepsReads k8s P)
    (finds : (cfg : Config) (key value : String) → Keeps P (find_label cfg key value)) where
  on_found-Keeps :
      (key value : String) (r : Result Error Label) → Keeps P (on_found find_label key value r)
  unfolding on_found
  on_found-Keeps key value (ok l) = Keeps-pure _
  on_found-Keeps key value (err e) =
      Keeps-if (is_label_not_found e) _ _ (Keeps-pure _) (Keeps-pure _)

  scope_hrefs-Keeps :
      (cfg : Config) (scope : Labels) (hrefs : List String)
      → Keeps P (scope_hrefs find_label cfg scope hrefs)
  unfolding scope_hrefs
  scope_hrefs-Keeps cfg [] hrefs = Keeps-pure _
  scope_hrefs-Keeps cfg ((key, value) ∷ scope) hrefs =
      Keeps-bind _ _ (Keeps-try _ (finds cfg key value)) λ r.
        Keeps-bind _ _ (on_found-Keeps key value r) (elim [
          | rejected reason message ↦ Keeps-pure _
          | accepted href ↦ scope_hrefs-Keeps cfg scope _
        ])

  on_scope-Keeps :
      (p : ReadyProfile) (scope : Labels) → Keeps P (on_scope find_label k8s api refusals p scope)
  unfolding on_scope
  on_scope-Keeps p scope =
      Keeps-if (is_empty scope) _ _ (Keeps-pure _)
        (Keeps-bind _ _ (scope_hrefs-Keeps p.connected.config scope []) λ o. Keeps-pure _)

  on_namespace-Keeps :
      (p : ReadyProfile) (r : Result Error Namespace)
      → Keeps P (on_namespace find_label k8s api refusals p r)
  unfolding on_namespace
  on_namespace-Keeps p (ok ns) = on_scope-Keeps p (scope_label_values ns p.profile)
  on_namespace-Keeps p (err e) = Keeps-if (is_kube_not_found e) _ _ (Keeps-pure _) (Keeps-raise e)

  on_profile-Keeps :
      (namespace : String) (o : Option ReadyProfile)
      → Keeps P (on_profile find_label k8s api refusals namespace o)
  unfolding on_profile
  on_profile-Keeps namespace none = Keeps-pure _
  on_profile-Keeps namespace (some p) =
      Keeps-bind _ _ (Keeps-try _ (reads.namespace namespace)) (on_namespace-Keeps p)

  pub prepare-Keeps : (namespace : String) → Keeps P (prepare find_label k8s api refusals namespace)
  unfolding prepare
  prepare-Keeps namespace =
      Keeps-bind _ _ (resolve_cluster_profile-Keeps k8s api P reads namespace)
        (on_profile-Keeps namespace)
