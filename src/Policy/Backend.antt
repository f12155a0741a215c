-- ===== src/Policy/Backend.antt =====
-- internal/controller/policybackend.go, ReconcilePolicy, FinalizePolicy and applyBackendResult: the
-- backend that both policy controllers share.
pub mod Gate
pub mod Finalize
pub mod Status
use illumio_k8s_utility_oper.Prelude.{
  ℕ, ◌*◌, String, ◌<>◌, Bool, true, false, not, ◌&&◌, ◌||◌, Option, none, some, List, [], ◌∷◌, ◌==◌,
  string_eq, if◌then◌else◌,
}
use illumio_k8s_utility_oper.Prelude.Int.{pos}
use illumio_k8s_utility_oper.Prelude.Dict.{Labels, get}
use illumio_k8s_utility_oper.Result.{Result, ok, err}
use illumio_k8s_utility_oper.Exec.{Exec, pure, raise, try, ◌>>=◌, ◌>>◌}
use illumio_k8s_utility_oper.Exec.Errors.{Error, Duration, is_not_found, is_pending_deletion}
use illumio_k8s_utility_oper.Api.Meta.{
  ConditionApi, ConditionStatus, condition_true, condition_false, Condition, Message, text,
  about_label, about_count, Namespace,
}
use illumio_k8s_utility_oper.Api.Cluster.{Reader}
use illumio_k8s_utility_oper.Api.Connection.{Config}
use illumio_k8s_utility_oper.Api.LabelMode.{ModeChoice, resolve_unknown_label_mode}
use illumio_k8s_utility_oper.Pce.Objects.{Owner, RuleSet, ProvisionResult}
use illumio_k8s_utility_oper.Pce.Interfaces.{PolicyClient}
use illumio_k8s_utility_oper.Policy.Compile.{CompiledAllow}
use illumio_k8s_utility_oper.Policy.Enforcement.{Effective, effective_enforcement}
use illumio_k8s_utility_oper.Policy.Profile.{ReadyProfile, desired_for, resolve_cluster_profile}
use illumio_k8s_utility_oper.Policy.Resolve.{
  Outcome, accepted, rejected, reason_rejected, Resolution, find_hrefs, resolve_provider,
  resolve_allows,
}
use illumio_k8s_utility_oper.Policy.Draft.{rule_set_update_type_delete, reconcile_rule_set}

-- `controller.Condition`
pub record BackendCondition : Type 0 where
  pub status : ConditionStatus
  pub reason : String
  pub message : Message

pub record BackendResult : Type 0 where
  pub ready : Option BackendCondition
  pub provisioned : Option BackendCondition
  pub workloads_affected : ℕ
  pub requeue : Duration
  pub effective_enforcement : String
  pub enforcement_set_by : String
  pub unknown_label_mode : String
  pub unknown_label_mode_set_by : String
  pub deferred_labels : List String
  pub created_labels : List String

abbrev pub seconds : ℕ → Duration
seconds n = pos (n * 1000000000)

abbrev pub si_requeue_not_ready : Duration
si_requeue_not_ready = seconds 30

abbrev pub si_requeue_healthy : Duration
si_requeue_healthy = seconds 600

abbrev pub annotation_provision_approve : String
annotation_provision_approve = "microsegment.io/provision"

abbrev put_condition :
    ConditionApi → String → Option BackendCondition → List Condition → List Condition
put_condition api kind none conds = conds
put_condition api kind (some c) conds = api.set_condition conds (record {
  kind = kind;
  status = c.status;
  reason = c.reason;
  message = c.message;
  observed_generation = 0;
})

unfoldable pub apply_backend_result : ConditionApi → List Condition → BackendResult → List Condition
apply_backend_result api conds res =
    put_condition api "Provisioned" res.provisioned (put_condition api "Ready" res.ready conds)

-- A result that carries nothing but a Ready=False condition and the time of the next attempt.
abbrev pub not_ready : String → Message → Duration → BackendResult
not_ready reason message requeue = record {
  ready = some (record { status = condition_false; reason = reason; message = message });
  provisioned = none;
  workloads_affected = 0;
  requeue = requeue;
  effective_enforcement = "";
  enforcement_set_by = "";
  unknown_label_mode = "";
  unknown_label_mode_set_by = "";
  deferred_labels = [];
  created_labels = [];
}

abbrev pub with_mode : ModeChoice → BackendResult → BackendResult
with_mode choice res = record res {
  unknown_label_mode = choice.mode;
  unknown_label_mode_set_by = choice.set_by;
}

abbrev pub with_enforcement : Effective → BackendResult → BackendResult
with_enforcement e res = record res {
  effective_enforcement = e.mode;
  enforcement_set_by = e.set_by;
}

unfoldable pub do_provision : String → Labels → Bool
do_provision provisioning_mode annotations =
    let approved = get annotations annotation_provision_approve == "approved" in
    provisioning_mode == "auto" || (provisioning_mode == "manual" && approved)

abbrev pending_message : String → Message
pending_message provisioning_mode =
    if provisioning_mode == "manual"
    then text "draft written; awaiting microsegment.io/provision=approved annotation"
    else text ("draft written; provisioning is " <> provisioning_mode)

abbrev pub compiled_condition : BackendCondition
compiled_condition = record {
  status = condition_true;
  reason = "Compiled";
  message = text "compiled to Illumio ruleset";
}

-- What is read of the namespace for the status: its annotations, and the effective enforcement, which
-- stays empty if it cannot be computed.
pub record NamespaceView : Type 0 where
  pub annotations : Labels
  pub enforcement : Effective

abbrev no_enforcement : Effective
no_enforcement = record { mode = ""; set_by = "" }

enforcement_or_none : Result Error Effective → Effective
enforcement_or_none (ok e) = e
enforcement_or_none (err e) = no_enforcement

module _ {W : Type 0} (k8s : Reader W) (api : ConditionApi)
    (factory : Config → PolicyClient W) where
  view_namespace : String → ReadyProfile → Exec W NamespaceView
  unfolding enforcement_or_none
  view_namespace namespace p = do
    n ← try (k8s.get_namespace namespace)
    elim n [
      | err e ↦ pure (record { annotations = []; enforcement = no_enforcement })
      | ok ns ↦ do
        e ← try (effective_enforcement k8s namespace (desired_for ns p.profile).enforcement_mode)
        pure (record { annotations = ns.annotations; enforcement = enforcement_or_none e })
    ]

  module _ (namespace cr_name uid : String) (annotations provider_labels : Labels) where
    -- Behind the draft: provision the one ruleset, or leave it pending.
    finish : ReadyProfile → Effective → ModeChoice → Resolution → String → Exec W BackendResult
    finish p enforcement choice resolution rs_href =
        let base = with_enforcement enforcement (
          with_mode choice (record {
            ready = some compiled_condition;
            provisioned = some (record {
              status = condition_false;
              reason = "ProvisionPending";
              message = pending_message p.profile.spec.provisioning_mode;
            });
            workloads_affected = 0;
            requeue = si_requeue_healthy;
            effective_enforcement = "";
            enforcement_set_by = "";
            unknown_label_mode = "";
            unknown_label_mode_set_by = "";
            deferred_labels = resolution.deferred;
            created_labels = resolution.created;
          })) in
        if not (do_provision p.profile.spec.provisioning_mode annotations) then pure base else do
          res ←
              (factory p.connected.config).provision_rule_sets (rs_href ∷ [])
                (namespace <> "/" <> cr_name)
          pure (record base {
            provisioned = some (record {
              status = condition_true;
              reason = "Provisioned";
              message = about_count "provisioned; %d workloads affected" res.workloads_affected;
            });
            workloads_affected = res.workloads_affected;
          })

    after_draft :
        ReadyProfile
        → Effective
        → ModeChoice
        → Resolution
        → Result Error String
        → Exec W BackendResult
    after_draft p enforcement choice resolution (ok rs_href) =
        finish p enforcement choice resolution rs_href
    after_draft p enforcement choice resolution (err e) =
        if is_pending_deletion e
        then pure (
            with_enforcement enforcement (
              with_mode choice (
                not_ready "PCEStateConflict"
                  (text
                    "the operator-owned Illumio ruleset has an unprovisioned pending deletion in the PCE; resolve it there (provision or revert the deletion) — the operator will not override a pending change made in the PCE")
                  si_requeue_not_ready)))
        else raise e

    write_draft :
        ReadyProfile → Effective → ModeChoice → List String → Resolution → Exec W BackendResult
    unfolding finish after_draft
    write_draft p enforcement choice provider_hrefs resolution = do
      let client = factory p.connected.config
      let owner : Owner = record { data_set = p.connected.external_data_set; reference = uid }
      narrow ←
          find_hrefs client (about_label "provider label %s=%s not in the PCE") provider_labels []
      elim narrow [
        | rejected reason message ↦
            pure (with_mode choice (not_ready reason message si_requeue_healthy))
        | accepted narrow_hrefs ↦ do
          r ← try (
              reconcile_rule_set client cr_name namespace owner provider_hrefs narrow_hrefs
                resolution.allows)
          after_draft p enforcement choice resolution r
      ]

    reconcile_with : List CompiledAllow → ReadyProfile → Exec W BackendResult
    unfolding view_namespace write_draft
    reconcile_with allows p = do
      view ← view_namespace namespace p
      let client = factory p.connected.config
      let owner : Owner = record { data_set = p.connected.external_data_set; reference = uid }
      let choice =
          resolve_unknown_label_mode p.profile.spec.unknown_label_mode view.annotations annotations
      provider ← resolve_provider client k8s namespace p.profile
      elim provider [
        | rejected reason message ↦ pure (not_ready reason message si_requeue_healthy)
        | accepted provider_hrefs ↦ do
          o ← resolve_allows client choice.mode owner allows
          elim o [
            | rejected reason message ↦
                pure (with_mode choice (not_ready reason message si_requeue_healthy))
            | accepted resolution ↦ write_draft p view.enforcement choice provider_hrefs resolution
          ]
      ]

    unfoldable pub reconcile_policy : List CompiledAllow → Exec W BackendResult
    unfolding reconcile_with
    reconcile_policy allows = do
      r ← resolve_cluster_profile k8s api namespace
      elim r [
        | none ↦ pure (
            not_ready "ClusterProfileNotReady"
              (text "no Onboarded ClusterProfile / PCEConnection available") si_requeue_not_ready)
        | some p ↦ reconcile_with allows p
      ]

  -- A 404 is success.
  unless_gone : {A : Type 0} → Result Error A → Exec W (Unit {0})
  unless_gone (ok a) = pure tt
  unless_gone (err e) = if is_not_found e then pure tt else raise e

  delete_owned : PolicyClient W → String → String → Option RuleSet → Exec W (Unit {0})
  delete_owned client namespace uid none = pure tt
  delete_owned client namespace uid (some rs) = do
    (if rs.update_type == rule_set_update_type_delete
        then pure tt
        else do d ← try (client.delete_rule_set rs.href); unless_gone d)
    r ← try (client.provision_rule_sets (rs.href ∷ []) ("delete " <> namespace <> "/" <> uid))
    unless_gone r

  unfoldable pub finalize_policy : String → String → Exec W (Unit {0})
  unfolding unless_gone delete_owned
  finalize_policy namespace uid = do
    r ← resolve_cluster_profile k8s api namespace
    elim r [
      | none ↦ pure tt
      | some p ↦ do
        let client = factory p.connected.config
        rs ←
            client.find_rule_set_by_owner
              (record { data_set = p.connected.external_data_set; reference = uid })
        delete_owned client namespace uid rs
    ]
