-- ===== src/Policy/Controller.antt =====
-- internal/controller/segmentationintent_controller.go and segmentationpolicy_controller.go: the two
-- reconcilers differ in the type of the resource, its finalizer, its compiler, and the labels that
-- narrow its providers. These make up a `Resource`.
pub mod Lifecycle
use illumio_k8s_utility_oper.Prelude.{
  ℕ, String, ◌<>◌, Bool, true, false, not, Option, none, some, List, [], ◌∷◌, ◌++◌, ◌==◌, string_eq,
  if◌then◌else◌,
}
use illumio_k8s_utility_oper.Prelude.Int.{pos}
use illumio_k8s_utility_oper.Prelude.Dict.{Labels}
use illumio_k8s_utility_oper.Result.{Result, ok, err}
use illumio_k8s_utility_oper.Exec.{Exec, pure, raise, try, ◌>>=◌, ◌>>◌}
use illumio_k8s_utility_oper.Exec.Errors.{Error, Duration, is_kube_not_found, pce_rate_limit}
use illumio_k8s_utility_oper.Api.Meta.{
  ConditionApi, condition_false, Condition, Message, text, about_count, about_text, about_place,
  about_error, ObjectMeta,
}
use illumio_k8s_utility_oper.Api.Cluster.{Reader}
use illumio_k8s_utility_oper.Api.Connection.{Config}
use illumio_k8s_utility_oper.Api.Segmentation.{SegmentationIntent, SegmentationPolicy}
use illumio_k8s_utility_oper.Pce.Interfaces.{PolicyClient}
use illumio_k8s_utility_oper.Policy.Compile.{
  CompiledAllow, CompileError, exactly_one, intent_empty, unsupported_policy_type,
  pod_selector_expressions, no_peer, no_selector, both_selectors, peer_expressions,
  selector_needs_labels, Compiled, compile_intent, compile_policy,
}
use illumio_k8s_utility_oper.Policy.Resolve.{contains, reason_rejected}
use illumio_k8s_utility_oper.Policy.Backend.{
  BackendResult, apply_backend_result, reconcile_policy, finalize_policy,
}

-- `ctrl.Result`; a duration of 0 asks for no further attempt.
pub record ControlResult : Type 0 where
  pub requeue_after : Duration

abbrev pub done : ControlResult
done = record { requeue_after = pos 0 }

-- The calls that a reconciler makes on its own resource. `Update` answers with the object as the
-- cluster has it then.
pub record ResourceApi (W T : Type 0) : Type 0 where
  -- by namespace and name
  pub get : String → String → Exec W T
  pub update : T → Exec W T
  pub update_status : T → Exec W (Unit {0})

pub record Resource (T : Type 0) : Type 0 where
  pub finalizer : String
  pub meta : T → ObjectMeta
  pub put_finalizers : List String → T → T
  pub conditions : T → List Condition
  -- sets the conditions and the observed generation
  pub put_conditions : List Condition → T → T
  -- copies the other fields of a result to the status
  pub put_result : BackendResult → T → T
  pub compile : T → Compiled
  pub narrowing : T → Labels

unfoldable pub intent_resource : Resource SegmentationIntent
intent_resource = record {
  finalizer = "microsegment.io/segmentationintent";
  meta = λ si. si.meta;
  put_finalizers = λ l si. record si { meta = record si.meta { finalizers = l } };
  conditions = λ si. si.status.conditions;
  put_conditions = λ l si. record si {
    status = record si.status { conditions = l; observed_generation = si.meta.generation };
  };
  put_result = λ res si. record si {
    status = record si.status {
      workloads_affected = res.workloads_affected;
      effective_enforcement = res.effective_enforcement;
      enforcement_set_by = res.enforcement_set_by;
      unknown_label_mode = res.unknown_label_mode;
      unknown_label_mode_set_by = res.unknown_label_mode_set_by;
      deferred_labels = res.deferred_labels;
      created_labels = res.created_labels;
    };
  };
  compile = λ si. compile_intent si.spec;
  narrowing = λ si. si.spec.provider;
}

unfoldable pub policy_resource : Resource SegmentationPolicy
policy_resource = record {
  finalizer = "microsegment.io/segmentationpolicy";
  meta = λ sp. sp.meta;
  put_finalizers = λ l sp. record sp { meta = record sp.meta { finalizers = l } };
  conditions = λ sp. sp.status.conditions;
  put_conditions = λ l sp. record sp {
    status = record sp.status { conditions = l; observed_generation = sp.meta.generation };
  };
  put_result = λ res sp. record sp {
    status = record sp.status {
      workloads_affected = res.workloads_affected;
      effective_enforcement = res.effective_enforcement;
      enforcement_set_by = res.enforcement_set_by;
      unknown_label_mode = res.unknown_label_mode;
      unknown_label_mode_set_by = res.unknown_label_mode_set_by;
      deferred_labels = res.deferred_labels;
      created_labels = res.created_labels;
    };
  };
  compile = λ sp. compile_policy sp.spec;
  narrowing = λ sp. sp.spec.pod_selector.match_labels;
}

-- `cerr.Error()`
pub refusal_text : CompileError → Message
refusal_text (exactly_one i) =
    about_count
      "allow[%d]: set exactly one of from (cross-app) or fromIntraNamespace (same-namespace)" i
refusal_text intent_empty = text "intent is empty: set spec.allow or spec.allowIntraNamespace"
refusal_text (unsupported_policy_type t) =
    about_text "unsupported policyType %q: only Ingress is supported" t
refusal_text pod_selector_expressions =
    text
      "spec.podSelector: matchExpressions are not supported; use matchLabels to narrow the provider"
refusal_text (no_peer i) =
    about_count "ingress[%d].from must list at least one peer (allow-all is not supported)" i
refusal_text (no_selector i j) =
    about_place
      "ingress[%d].from[%d]: a podSelector or namespaceSelector is required (ipBlock is not supported)"
      i j
refusal_text (both_selectors i j) =
    about_place
      "ingress[%d].from[%d]: set podSelector (same-namespace, intra-scope) OR namespaceSelector (cross-namespace, extra-scope), not both"
      i j
refusal_text (peer_expressions i j) =
    about_place "ingress[%d].from[%d]: matchExpressions are not supported; use matchLabels" i j
refusal_text (selector_needs_labels i j) =
    about_place "ingress[%d].from[%d]: namespaceSelector requires matchLabels" i j

-- `controllerutil.RemoveFinalizer`
abbrev pub without_finalizer : String → List String → List String
without_finalizer f [] = []
without_finalizer f (x ∷ l) = if x == f then without_finalizer f l else x ∷ without_finalizer f l

module _ {W T : Type 0} (res : Resource T) (objects : ResourceApi W T) (k8s : Reader W)
    (api : ConditionApi) (factory : Config → PolicyClient W) where
  -- Both places that set Ready=False without a result of the backend.
  abbrev pub put_not_ready : String → Message → T → T
  put_not_ready reason message o =
      res.put_conditions
        (api.set_condition (res.conditions o) (record {
          kind = "Ready";
          status = condition_false;
          reason = reason;
          message = message;
          observed_generation = 0;
        }))
        o

  abbrev pub put_backend_result : BackendResult → T → T
  put_backend_result r o =
      res.put_result r (res.put_conditions (apply_backend_result api (res.conditions o) r) o)

  -- The branch of an object with a deletion timestamp.
  reconcile_deleted : T → Exec W ControlResult
  reconcile_deleted o =
      if contains (res.meta o).finalizers res.finalizer
      then (do
        finalize_policy k8s api factory (res.meta o).namespace (res.meta o).uid
        o' ←
            objects.update
              (res.put_finalizers (without_finalizer res.finalizer (res.meta o).finalizers) o)
        pure done)
      else pure done

  -- `controllerutil.AddFinalizer`, and the update if it changed the object.
  ensure_finalizer : T → Exec W T
  ensure_finalizer o =
      if contains (res.meta o).finalizers res.finalizer
      then pure o
      else objects.update (res.put_finalizers ((res.meta o).finalizers ++ (res.finalizer ∷ [])) o)

  after_backend : T → Result Error BackendResult → Exec W ControlResult
  after_backend o (ok r) = do
    objects.update_status (put_backend_result r o)
    pure (record { requeue_after = r.requeue })
  after_backend o (err e) = elim (pce_rate_limit e) [
    | none ↦ raise e
    | some d ↦ do
      objects.update_status (put_not_ready "RateLimited" (about_error "%s" e) o)
      pure (record { requeue_after = d })
  ]

  after_compile : T → Compiled → Exec W ControlResult
  unfolding after_backend
  after_compile o (err e) = do
    objects.update_status (put_not_ready reason_rejected (refusal_text e) o)
    pure done
  after_compile o (ok allows) = do
    let m = res.meta o
    r ← try (
        reconcile_policy k8s api factory m.namespace m.name m.uid m.annotations (res.narrowing o)
          allows)
    after_backend o r

  reconcile_present : T → Exec W ControlResult
  unfolding ensure_finalizer after_compile
  reconcile_present o = do o' ← ensure_finalizer o; after_compile o' (res.compile o')

  unfoldable pub reconcile_resource : String → String → Exec W ControlResult
  unfolding reconcile_deleted reconcile_present
  reconcile_resource namespace name = do
    r ← try (objects.get namespace name)
    elim r [
      | err e ↦ if is_kube_not_found e then pure done else raise e
      | ok o ↦ if (res.meta o).deleting then reconcile_deleted o else reconcile_present o
    ]
