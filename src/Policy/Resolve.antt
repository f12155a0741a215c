-- ===== src/Policy/Resolve.antt =====
-- internal/controller/policybackend.go, resolveProvider, scopeLabelSubset and resolveAllows, and
-- labelcreate.go: the labels of a policy as hrefs of the PCE.
pub mod Allows
pub mod Calls
use illumio_k8s_utility_oper.Prelude.{
  String, ◌<>◌, Bool, true, false, not, ◌&&◌, ◌||◌, Option, none, some, List, [], ◌∷◌, ◌++◌, ◌==◌,
  string_eq, is_empty, if◌then◌else◌,
}
use illumio_k8s_utility_oper.Prelude.Dict.{Labels, insert}
use illumio_k8s_utility_oper.Result.{Result, ok, err}
use illumio_k8s_utility_oper.Exec.{Exec, pure, raise, try, ◌>>=◌}
use illumio_k8s_utility_oper.Exec.Errors.{Error, is_kube_not_found, is_label_not_found}
use illumio_k8s_utility_oper.Api.Meta.{Message, text, about_label, about_labels, Namespace}
use illumio_k8s_utility_oper.Api.Cluster.{Reader}
use illumio_k8s_utility_oper.Api.ClusterProfile.{ClusterProfile, scope_label_keys}
use illumio_k8s_utility_oper.Api.LabelMode.{unknown_label_skip, unknown_label_create}
use illumio_k8s_utility_oper.Namespaces.Cwp.{DesiredCwp}
use illumio_k8s_utility_oper.Pce.Objects.{Owner, Label}
use illumio_k8s_utility_oper.Pce.Interfaces.{PolicyClient}
use illumio_k8s_utility_oper.Policy.Compile.{CompiledAllow}
use illumio_k8s_utility_oper.Policy.Rules.{ResolvedAllow}
use illumio_k8s_utility_oper.Policy.Profile.{desired_for}

-- A result, or the reason and the message of a rejection (`ok` is false and the error nil).
pub data Outcome (A : Type 0) : Type 0 where
  accepted : A → Outcome A
  rejected : String → Message → Outcome A

abbrev pub reason_rejected : String
reason_rejected = "Rejected"

abbrev pub contains : List String → String → Bool
contains [] k = false
contains (x ∷ xs) k = x == k || contains xs k

unfoldable pub auto_creatable_key : String → Bool
auto_creatable_key key = key == "role" || key == "app" || key == "env" || key == "loc"

-- The second loop of `scopeLabelSubset`, with the map that it fills.
scope_label_subset_onto : Labels → List String → Labels → Labels
scope_label_subset_onto [] keys out = out
scope_label_subset_onto ((k, v) ∷ labels) keys out =
    scope_label_subset_onto labels keys (if contains keys k then insert k v out else out)

unfoldable pub scope_label_subset : Labels → List String → Labels
unfolding scope_label_subset_onto
scope_label_subset labels scope_keys = scope_label_subset_onto labels scope_keys []

-- What the loops of `resolveAllows` collect: the hrefs of the entry at hand, whether a label of it was
-- skipped, and the labels deferred and created so far.
pub record Progress : Type 0 where
  pub consumer_hrefs : List String
  pub skipped_any : Bool
  pub deferred : List String
  pub created : List String

pub record Resolution : Type 0 where
  pub allows : List ResolvedAllow
  pub deferred : List String
  pub created : List String

abbrev pub add_href : Progress → Label → Progress
add_href p lbl = record p { consumer_hrefs = p.consumer_hrefs ++ (lbl.href ∷ []) }

-- An entry whose labels were all skipped is dropped.
add_entry : CompiledAllow → List ResolvedAllow → Progress → Resolution
add_entry a out p =
    if p.skipped_any && is_empty p.consumer_hrefs
    then record { allows = out; deferred = p.deferred; created = p.created }
    else record {
      allows =
          out
          ++ (record {
            consumer_hrefs = p.consumer_hrefs;
            all_workloads = false;
            intra_scope = a.intra_scope;
            ports = a.ports;
          }
              ∷ []);
      deferred = p.deferred;
      created = p.created;
    }

provider_labels_of : ClusterProfile → Namespace → Outcome Labels
provider_labels_of cp ns =
    let desired = desired_for ns cp in
    let scope = scope_label_subset desired.labels (scope_label_keys cp.spec) in
    if not desired.managed || is_empty desired.labels
    then rejected reason_rejected (
        text
          "namespace is not managed or has no Illumio labels; an admin must manage it via ClusterProfile")
    else if is_empty scope
    then rejected reason_rejected (
        about_labels
          "namespace has none of the policy scope labels %v assigned via ClusterProfile; assign at least one to scope its ruleset"
          (scope_label_keys cp.spec))
    else accepted scope

module _ {W : Type 0} (client : PolicyClient W) where
  module _ (missing : String → String → Message) where
    on_find : String → String → Result Error Label → Exec W (Outcome Label)
    on_find key value (ok lbl) = pure (accepted lbl)
    on_find key value (err e) =
        if is_label_not_found e
        then pure (rejected reason_rejected (missing key value))
        else raise e

    -- The loops over scope labels and over provider labels: each label must exist.
    unfoldable pub find_hrefs : Labels → List String → Exec W (Outcome (List String))
    unfolding on_find
    find_hrefs [] hrefs = pure (accepted hrefs)
    find_hrefs ((key, value) ∷ labels) hrefs = do
      r ← try (client.find_label key value)
      o ← on_find key value r
      elim o [
        | accepted lbl ↦ find_hrefs labels (hrefs ++ (lbl.href ∷ []))
        | rejected reason message ↦ pure (rejected reason message)
      ]

  provider_hrefs : Outcome Labels → Exec W (Outcome (List String))
  provider_hrefs (rejected reason message) = pure (rejected reason message)
  provider_hrefs (accepted scope) =
      find_hrefs (about_label "namespace label %s=%s not yet in the PCE") scope []

  unfoldable pub resolve_provider :
      Reader W → String → ClusterProfile → Exec W (Outcome (List String))
  unfolding provider_labels_of provider_hrefs
  resolve_provider k8s ns_name cp = do
    n ← try (k8s.get_namespace ns_name)
    elim n [
      | err e ↦
          if is_kube_not_found e
          then pure (rejected reason_rejected (text "namespace not found"))
          else raise e
      | ok ns ↦ provider_hrefs (provider_labels_of cp ns)
    ]

  module _ (mode : String) (owner : Owner) where
    -- A label that the PCE does not have.
    unknown_label : String → String → Progress → Exec W (Outcome Progress)
    unknown_label key value p =
        let kv = key <> "=" <> value in
        if mode == unknown_label_skip
        then pure (accepted (record p { skipped_any = true; deferred = p.deferred ++ (kv ∷ []) }))
        else if mode == unknown_label_create
        then (if not (auto_creatable_key key)
            then pure (
                rejected reason_rejected (
                  about_label
                    "cannot auto-create label with non-standard key %q (create mode allows role/app/env/loc only); pre-create %s in the PCE"
                    key value))
            else do
              lbl ← client.ensure_label key value owner
              pure (accepted (record (add_href p lbl) { created = p.created ++ (kv ∷ []) })))
        else pure
            (rejected reason_rejected (about_label "no Illumio label %s in the PCE" key value))

    resolve_found : String → String → Progress → Result Error Label → Exec W (Outcome Progress)
    resolve_found key value p (ok lbl) = pure (accepted (add_href p lbl))
    resolve_found key value p (err e) =
        if is_label_not_found e then unknown_label key value p else raise e

    resolve_label : String → String → Progress → Exec W (Outcome Progress)
    unfolding resolve_found
    resolve_label key value p = do
      r ← try (client.find_label key value)
      resolve_found key value p r

    -- The loop over `a.From`.
    resolve_from : Labels → Progress → Exec W (Outcome Progress)
    resolve_from [] p = pure (accepted p)
    resolve_from ((key, value) ∷ from) p = do
      o ← resolve_label key value p
      elim o [
        | accepted p' ↦ resolve_from from p'
        | rejected reason message ↦ pure (rejected reason message)
      ]

    -- One entry of the loop over `allows`.
    resolve_entry : CompiledAllow → Resolution → Exec W (Outcome Resolution)
    unfolding add_entry
    resolve_entry a r =
        if a.all_workloads
        then pure (
            accepted (record r {
              allows =
                  r.allows
                  ++ (record {
                    consumer_hrefs = [];
                    all_workloads = true;
                    intra_scope = a.intra_scope;
                    ports = a.ports;
                  }
                      ∷ []);
            }))
        else do
          o ← resolve_from a.from (record {
            consumer_hrefs = [];
            skipped_any = false;
            deferred = r.deferred;
            created = r.created;
          })
          elim o [
            | accepted p ↦ pure (accepted (add_entry a r.allows p))
            | rejected reason message ↦ pure (rejected reason message)
          ]

    resolve_entries : List CompiledAllow → Resolution → Exec W (Outcome Resolution)
    resolve_entries [] r = pure (accepted r)
    resolve_entries (a ∷ allows) r = do
      o ← resolve_entry a r
      elim o [
        | accepted r' ↦ resolve_entries allows r'
        | rejected reason message ↦ pure (rejected reason message)
      ]

    unfoldable pub resolve_allows : List CompiledAllow → Exec W (Outcome Resolution)
    unfolding unknown_label resolve_label resolve_from resolve_entry resolve_entries
    resolve_allows allows =
        resolve_entries allows (record { allows = []; deferred = []; created = [] })
