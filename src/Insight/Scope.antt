-- ===== src/Insight/Scope.antt =====
-- internal/controller/preflight.go, scopeLabelValues, and the first half of the two reconcilers of
-- policyinsight_controller.go and ruleview_controller.go: they differ in two of the messages.
pub mod Calls
use illumio_k8s_utility_oper.Prelude.{
  String, ◌<>◌, Bool, true, false, not, Option, none, some, List, [], ◌∷◌, ◌++◌, is_empty,
  if◌then◌else◌,
}
use illumio_k8s_utility_oper.Prelude.Dict.{Labels}
use illumio_k8s_utility_oper.Result.{Result, ok, err}
use illumio_k8s_utility_oper.Exec.{Exec, pure, raise, try, ◌>>=◌}
use illumio_k8s_utility_oper.Exec.Errors.{
  Error, is_kube_not_found, is_label_not_found, pce_rate_limit,
}
use illumio_k8s_utility_oper.Api.Meta.{
  ConditionApi, Message, text, about_label, about_error, Namespace,
}
use illumio_k8s_utility_oper.Api.Cluster.{Reader}
use illumio_k8s_utility_oper.Api.ClusterProfile.{ClusterProfile, scope_label_keys}
use illumio_k8s_utility_oper.Api.Connection.{Config}
use illumio_k8s_utility_oper.Pce.Objects.{Label}
use illumio_k8s_utility_oper.Policy.Profile.{
  Connected, ReadyProfile, desired_for, resolve_cluster_profile,
}
use illumio_k8s_utility_oper.Policy.Resolve.{Outcome, accepted, rejected, scope_label_subset}

unfoldable pub scope_label_values : Namespace → ClusterProfile → Labels
scope_label_values ns cp =
    let desired = desired_for ns cp in
    if not desired.managed then [] else scope_label_subset desired.labels (scope_label_keys cp.spec)

unfoldable pub pce_fail_reason : Error → String
pce_fail_reason e = elim (pce_rate_limit e) [ none ↦ "QueryFailed" | some d ↦ "RateLimited" ]

-- What a reconciler has found out before it asks the PCE about the scope.
pub data Prepared : Type 0 where
  -- the namespace is gone
  gone : Prepared
  -- the reason and the message of a failure
  refused : String → Message → Prepared
  scoped : Connected → List String → Prepared

-- The messages of the failures before the first call of the PCE.
pub record Refusals : Type 0 where
  pub not_ready : Message
  pub no_scope : Message

module _ {W : Type 0} (find_label : Config → String → String → Exec W Label) where
  on_found : String → String → Result Error Label → Exec W (Outcome String)
  on_found k v (ok lbl) = pure (accepted lbl.href)
  on_found k v (err e) =
      if is_label_not_found e
      then pure (rejected "NoScopeLabels" (about_label "scope label %s=%s not yet in the PCE" k v))
      else pure (rejected (pce_fail_reason e) (about_error "resolve scope label: %s" e))

  scope_hrefs : Config → Labels → List String → Exec W (Outcome (List String))
  unfolding on_found
  scope_hrefs cfg [] hrefs = pure (accepted hrefs)
  scope_hrefs cfg ((k, v) ∷ scope) hrefs = do
    r ← try (find_label cfg k v)
    o ← on_found k v r
    elim o [
      | rejected reason message ↦ pure (rejected reason message)
      | accepted href ↦ scope_hrefs cfg scope (hrefs ++ (href ∷ []))
    ]

  module _ (k8s : Reader W) (api : ConditionApi) (refusals : Refusals) where
    prepared_with : Connected → Outcome (List String) → Prepared
    prepared_with c (rejected reason message) = refused reason message
    prepared_with c (accepted hrefs) = scoped c hrefs

    on_scope : ReadyProfile → Labels → Exec W Prepared
    unfolding scope_hrefs prepared_with
    on_scope p scope =
        if is_empty scope
        then pure (refused "NoScopeLabels" refusals.no_scope)
        else do o ← scope_hrefs p.connected.config scope []; pure (prepared_with p.connected o)

    on_namespace : ReadyProfile → Result Error Namespace → Exec W Prepared
    unfolding on_scope
    on_namespace p (ok ns) = on_scope p (scope_label_values ns p.profile)
    on_namespace p (err e) = if is_kube_not_found e then pure gone else raise e

    on_profile : String → Option ReadyProfile → Exec W Prepared
    unfolding on_namespace
    on_profile namespace none = pure (refused "ClusterProfileNotReady" refusals.not_ready)
    on_profile namespace (some p) = do n ← try (k8s.get_namespace namespace); on_namespace p n

    unfoldable pub prepare : String → Exec W Prepared
    unfolding on_profile
    prepare namespace = do r ← resolve_cluster_profile k8s api namespace; on_profile namespace r
