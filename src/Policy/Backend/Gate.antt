-- ===== src/Policy/Backend/Gate.antt =====
-- The gate in front of provisioning: without auto mode or an approval the backend only drafts.
use illumio_k8s_utility_oper.Prelude.{
  String, ◌≡◌, ◌≢◌, false, none, some, List, [], All, arith, eq_iff, string_eq,
}
use illumio_k8s_utility_oper.Prelude.Dict.{Labels, get}
use illumio_k8s_utility_oper.Result.{Result, ok, err}
use illumio_k8s_utility_oper.Exec.Errors.{Error, is_pending_deletion}
use illumio_k8s_utility_oper.Exec.Value.{Returns}
use illumio_k8s_utility_oper.Exec.Frame.{
  Keeps, Keeps-pure, Keeps-raise, Keeps-try, Keeps-if, Keeps-bind, Keeps-bind_known,
}
use illumio_k8s_utility_oper.Api.Meta.{ConditionApi}
use illumio_k8s_utility_oper.Api.Cluster.{Reader}
use illumio_k8s_utility_oper.Api.ClusterProfile.{ClusterProfile}
use illumio_k8s_utility_oper.Api.Connection.{Config}
use illumio_k8s_utility_oper.Api.LabelMode.{ModeChoice}
use illumio_k8s_utility_oper.Pce.Objects.{Owner}
use illumio_k8s_utility_oper.Pce.Interfaces.{PolicyClient}
use illumio_k8s_utility_oper.Policy.Compile.{CompiledAllow}
use illumio_k8s_utility_oper.Policy.Enforcement.{Effective, effective_enforcement}
use illumio_k8s_utility_oper.Policy.Profile.{ReadyProfile}
use illumio_k8s_utility_oper.Policy.Profile.Choice.{
  KeepsReads, resolve_cluster_profile-Serves, resolve_cluster_profile-Keeps,
}
use illumio_k8s_utility_oper.Policy.Resolve.{accepted, rejected, Resolution}
use illumio_k8s_utility_oper.Policy.Resolve.Calls.{
  find_hrefs-Keeps, resolve_provider-Keeps, resolve_allows-Keeps,
}
use illumio_k8s_utility_oper.Policy.Draft.Calls.{KeepsDraft, reconcile_rule_set-Keeps}
use illumio_k8s_utility_oper.Policy.Backend.{
  annotation_provision_approve, do_provision, view_namespace, finish, after_draft, write_draft,
  reconcile_with, reconcile_policy,
}

-- The calls of the policy client other than provisioning and the deletion of a ruleset.
pub record KeepsUnprovisioned {W : Type 0} (client : PolicyClient W) (P : W → Type 0) : Type 0 where
  pub finds : (key value : String) → Keeps P (client.find_label key value)
  pub ensures : (key value : String) (owner : Owner) → Keeps P (client.ensure_label key value owner)
  pub drafts : KeepsDraft client P

-- A profile for which the annotations of the resource do not allow provisioning: not in auto mode,
-- and in manual mode only without the approval.
abbrev pub IsUnapproved : Labels → ClusterProfile → Type 0
IsUnapproved annotations cp =
    (cp.spec.provisioning_mode ≢ "auto")
    × (cp.spec.provisioning_mode ≡ "manual"
        → get annotations annotation_provision_approve ≢ "approved")

do_provision-IsUnapproved :
    (annotations : Labels) (cp : ClusterProfile)
    → IsUnapproved annotations cp
    → do_provision cp.spec.provisioning_mode annotations ≡ false
unfolding do_provision
do_provision-IsUnapproved annotations cp h = ground (
  arith,
  eq_iff cp.spec.provisioning_mode "auto",
  eq_iff cp.spec.provisioning_mode "manual",
  eq_iff (get annotations annotation_provision_approve) "approved",
)

module _ {W : Type 0} (k8s : Reader W) (api : ConditionApi) (factory : Config → PolicyClient W)
    (P : W → Type 0) (reads : KeepsReads k8s P)
    (calls : (cfg : Config) → KeepsUnprovisioned (factory cfg) P) where
  effective_enforcement-Keeps :
      (namespace mode : String) → Keeps P (effective_enforcement k8s namespace mode)
  unfolding effective_enforcement
  effective_enforcement-Keeps namespace mode =
      Keeps-bind _ _ (reads.intents namespace)
        λ i. Keeps-bind _ _ (reads.policies namespace) λ p. Keeps-pure _

  view_namespace-Keeps :
      (namespace : String) (p : ReadyProfile) → Keeps P (view_namespace k8s api factory namespace p)
  unfolding view_namespace
  view_namespace-Keeps namespace p =
      Keeps-bind _ _ (Keeps-try _ (reads.namespace namespace)) (elim [
        | err e ↦ Keeps-pure _
        | ok ns ↦
            Keeps-bind _ _ (Keeps-try _ (effective_enforcement-Keeps namespace _)) λ e. Keeps-pure _
      ])

  module _ (namespace cr_name uid : String) (annotations provider_labels : Labels) where
    finish-Keeps :
        (p : ReadyProfile) (e : Effective) (choice : ModeChoice) (resolution : Resolution)
        (href : String)
        → IsUnapproved annotations p.profile
        → Keeps P (
            finish k8s api factory namespace cr_name uid annotations provider_labels p e choice
              resolution href)
    unfolding finish
    finish-Keeps p e choice resolution href gate =
        rw (do_provision-IsUnapproved annotations p.profile gate) (Keeps-pure _)

    after_draft-Keeps :
        (p : ReadyProfile) (e : Effective) (choice : ModeChoice) (resolution : Resolution)
        (r : Result Error String)
        → IsUnapproved annotations p.profile
        → Keeps P (
            after_draft k8s api factory namespace cr_name uid annotations provider_labels p e choice
              resolution r)
    unfolding after_draft
    after_draft-Keeps p e choice resolution (ok href) gate =
        finish-Keeps p e choice resolution href gate
    after_draft-Keeps p e choice resolution (err x) gate =
        Keeps-if (is_pending_deletion x) _ _ (Keeps-pure _) (Keeps-raise x)

    write_draft-Keeps :
        (p : ReadyProfile) (e : Effective) (choice : ModeChoice) (hrefs : List String)
        (resolution : Resolution)
        → IsUnapproved annotations p.profile
        → Keeps P (
            write_draft k8s api factory namespace cr_name uid annotations provider_labels p e choice
              hrefs resolution)
    unfolding write_draft
    write_draft-Keeps p e choice hrefs resolution gate =
        let c = calls p.connected.config in
        Keeps-bind _ _
          (find_hrefs-Keeps (factory p.connected.config) P c.finds _ provider_labels [])
          (elim [
            | rejected reason message ↦ Keeps-pure _
            | accepted narrow ↦
                Keeps-bind _ _
                  (Keeps-try _
                    (reconcile_rule_set-Keeps (factory p.connected.config) P c.drafts _ _ _ _ _ _))
                  λ r. after_draft-Keeps p e choice resolution r gate
          ])

    reconcile_with-Keeps :
        (allows : List CompiledAllow) (p : ReadyProfile)
        → IsUnapproved annotations p.profile
        → Keeps P (
            reconcile_with k8s api factory namespace cr_name uid annotations provider_labels allows
              p)
    unfolding reconcile_with
    reconcile_with-Keeps allows p gate =
        let c = calls p.connected.config in
        Keeps-bind _ _ (view_namespace-Keeps namespace p) λ view.
          Keeps-bind _ _
            (resolve_provider-Keeps (factory p.connected.config) P c.finds k8s reads.namespace
              namespace p.profile)
            (elim [
              | rejected reason message ↦ Keeps-pure _
              | accepted hrefs ↦
                  Keeps-bind _ _
                    (resolve_allows-Keeps (factory p.connected.config) P c.finds _ _
                      (λ _ key value _. c.ensures key value _) allows)
                    (elim [
                      | rejected reason message ↦ Keeps-pure _
                      | accepted resolution ↦
                          write_draft-Keeps p view.enforcement _ hrefs resolution gate
                    ])
            ])

    -- If no ClusterProfile is in auto mode, and those in manual mode meet no approval on the resource,
    -- then reconciling the policy makes no call of the PCE but lookups, label creations and writes to the
    -- draft: whatever these keep is kept, so nothing is provisioned and no ruleset is deleted.
    pub reconcile_policy-IsUnapproved :
        (allows : List CompiledAllow)
        → Returns (All (IsUnapproved annotations)) k8s.list_profiles
        → Keeps P (
            reconcile_policy k8s api factory namespace cr_name uid annotations provider_labels
              allows)
    unfolding reconcile_policy
    reconcile_policy-IsUnapproved allows gate =
        Keeps-bind_known _ _ _ (resolve_cluster_profile-Keeps k8s api P reads namespace)
          (resolve_cluster_profile-Serves k8s api (λ _. Unit {0}) (IsUnapproved annotations)
            namespace (record { value = λ w ns h. tt }) gate)
          (elim [ none ↦ λ _. Keeps-pure _ | some p ↦ λ s. reconcile_with-Keeps allows p s.2.2 ])
