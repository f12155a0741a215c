-- ===== src/Policy/Resolve/Calls.antt =====
-- Which calls the resolution of labels makes.
use illumio_k8s_utility_oper.Prelude.{
  String, ◌≡◌, true, not, List, [], ◌∷◌, arith, eq_iff, ◌==◌, string_eq,
}
use illumio_k8s_utility_oper.Prelude.Dict.{Labels}
use illumio_k8s_utility_oper.Result.{Result, ok, err}
use illumio_k8s_utility_oper.Exec.Errors.{Error, is_label_not_found, is_kube_not_found}
use illumio_k8s_utility_oper.Exec.Frame.{
  Keeps, Keeps-pure, Keeps-raise, Keeps-try, Keeps-if, Keeps-if_known, Keeps-bind, frame_rules,
}
use illumio_k8s_utility_oper.Api.Meta.{Message}
use illumio_k8s_utility_oper.Api.Cluster.{Reader}
use illumio_k8s_utility_oper.Api.ClusterProfile.{ClusterProfile}
use illumio_k8s_utility_oper.Api.LabelMode.{unknown_label_skip, unknown_label_create}
use illumio_k8s_utility_oper.Pce.Objects.{Owner, Label}
use illumio_k8s_utility_oper.Pce.Interfaces.{PolicyClient}
use illumio_k8s_utility_oper.Policy.Compile.{CompiledAllow}
use illumio_k8s_utility_oper.Policy.Resolve.{
  Outcome, accepted, rejected, auto_creatable_key, Progress, Resolution, on_find, find_hrefs,
  provider_labels_of, provider_hrefs, resolve_provider, unknown_label, resolve_found, resolve_label,
  resolve_from, resolve_entry, resolve_entries, resolve_allows,
}

module _ {W : Type 0} (client : PolicyClient W) (P : W → Type 0)
    (finds : (key value : String) → Keeps P (client.find_label key value)) where
  on_find-Keeps :
      (missing : String → String → Message) (key value : String) (r : Result Error Label)
      → Keeps P (on_find client missing key value r)
  unfolding on_find
  on_find-Keeps missing key value (ok lbl) = search frame_rules
  on_find-Keeps missing key value (err e) = search frame_rules

  -- Resolving labels that must exist only looks labels up.
  pub find_hrefs-Keeps :
      (missing : String → String → Message) (labels : Labels) (hrefs : List String)
      → Keeps P (find_hrefs client missing labels hrefs)
  unfolding find_hrefs
  find_hrefs-Keeps missing [] hrefs = search frame_rules
  find_hrefs-Keeps missing ((key, value) ∷ labels) hrefs =
      Keeps-bind _ _ (search (frame_rules, finds key value)) λ r.
        Keeps-bind _ _ (on_find-Keeps missing key value r) (elim [
          | accepted lbl ↦ find_hrefs-Keeps missing labels _
          | rejected reason message ↦ search frame_rules
        ])

  provider_hrefs-Keeps : (o : Outcome Labels) → Keeps P (provider_hrefs client o)
  unfolding provider_hrefs
  provider_hrefs-Keeps (rejected reason message) = Keeps-pure _
  provider_hrefs-Keeps (accepted scope) = find_hrefs-Keeps _ scope []

  pub resolve_provider-Keeps :
      (k8s : Reader W)
      → ((name : String) → Keeps P (k8s.get_namespace name))
      → (ns_name : String) (cp : ClusterProfile) → Keeps P (resolve_provider client k8s ns_name cp)
  unfolding resolve_provider
  resolve_provider-Keeps k8s reads ns_name cp = Keeps-bind _ _ (Keeps-try _ (reads ns_name)) (elim [
    | err e ↦ Keeps-if (is_kube_not_found e) _ _ (Keeps-pure _) (Keeps-raise e)
    | ok ns ↦ provider_hrefs-Keeps (provider_labels_of cp ns)
  ])

  module _ (mode : String) (owner : Owner)
      (ensures : mode ≡ unknown_label_create
        → (key value : String) → auto_creatable_key key ≡ true
        → Keeps P (client.ensure_label key value owner)) where
    unknown_label-Keeps :
        (key value : String) (p : Progress) → Keeps P (unknown_label client mode owner key value p)
    unfolding unknown_label
    unknown_label-Keeps key value p = Keeps-if (mode == unknown_label_skip) _ _ (Keeps-pure _) (
        Keeps-if_known (mode == unknown_label_create) _ _
          (λ create.
            Keeps-if_known (not (auto_creatable_key key)) _ _ (λ _. Keeps-pure _)
              λ standard.
                Keeps-bind _ _
                  (ensures ((eq_iff mode unknown_label_create).0 create) key value (ground arith))
                  (λ lbl. search frame_rules))
          (λ _. Keeps-pure _))

    resolve_found-Keeps :
        (key value : String) (p : Progress) (r : Result Error Label)
        → Keeps P (resolve_found client mode owner key value p r)
    unfolding resolve_found
    resolve_found-Keeps key value p (ok lbl) = search frame_rules
    resolve_found-Keeps key value p (err e) =
        Keeps-if (is_label_not_found e) _ _ (unknown_label-Keeps key value p) (Keeps-raise e)

    resolve_label-Keeps :
        (key value : String) (p : Progress) → Keeps P (resolve_label client mode owner key value p)
    unfolding resolve_label
    resolve_label-Keeps key value p =
        Keeps-bind _ _ (search (frame_rules, finds key value)) (resolve_found-Keeps key value p)

    resolve_from-Keeps :
        (from : Labels) (p : Progress) → Keeps P (resolve_from client mode owner from p)
    unfolding resolve_from
    resolve_from-Keeps [] p = search frame_rules
    resolve_from-Keeps ((key, value) ∷ from) p =
        Keeps-bind _ _ (resolve_label-Keeps key value p) (elim [
          | accepted p' ↦ resolve_from-Keeps from p'
          | rejected reason message ↦ search frame_rules
        ])

    resolve_entry-Keeps :
        (a : CompiledAllow) (r : Resolution) → Keeps P (resolve_entry client mode owner a r)
    unfolding resolve_entry
    resolve_entry-Keeps a r = Keeps-if a.all_workloads _ _ (Keeps-pure _) (
        Keeps-bind _ _ (resolve_from-Keeps a.from _)
          (elim [ accepted p ↦ search frame_rules | rejected reason message ↦ search frame_rules ]))

    resolve_entries-Keeps :
        (allows : List CompiledAllow) (r : Resolution)
        → Keeps P (resolve_entries client mode owner allows r)
    unfolding resolve_entries
    resolve_entries-Keeps [] r = search frame_rules
    resolve_entries-Keeps (a ∷ allows) r = Keeps-bind _ _ (resolve_entry-Keeps a r) (elim [
      | accepted r' ↦ resolve_entries-Keeps allows r'
      | rejected reason message ↦ search frame_rules
    ])

    -- Resolving allow entries looks labels up, and creates labels in create mode alone, and then only
    -- for the keys role, app, env and loc: any property of the state that these calls keep is kept,
    -- whether the resolution succeeds or not.
    pub resolve_allows-Keeps :
        (allows : List CompiledAllow) → Keeps P (resolve_allows client mode owner allows)
    unfolding resolve_allows
    resolve_allows-Keeps allows = resolve_entries-Keeps allows _
