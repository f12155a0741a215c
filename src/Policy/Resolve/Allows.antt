-- ===== src/Policy/Resolve/Allows.antt =====
-- What resolveAllows can return.
use illumio_k8s_utility_oper.Prelude.{
  String, ◌≡◌, ◌≢◌, refl, ap, Bool-cases, ◌⊎◌, inl, inr, true, false, not, ◌&&◌, List, [], ◌∷◌,
  ◌++◌, All, All-append, arith, is_empty, ◌==◌, string_eq,
}
use illumio_k8s_utility_oper.Prelude.Dict.{Labels}
use illumio_k8s_utility_oper.Result.{Result, ok, err}
use illumio_k8s_utility_oper.Exec.Errors.{Error, is_label_not_found}
use illumio_k8s_utility_oper.Exec.Value.{
  Returns, Returns-pure, Returns-raise, Returns-if, Returns-bind, Returns-after,
}
use illumio_k8s_utility_oper.Api.LabelMode.{unknown_label_skip, unknown_label_create}
use illumio_k8s_utility_oper.Pce.Objects.{Owner, Label}
use illumio_k8s_utility_oper.Pce.Interfaces.{PolicyClient}
use illumio_k8s_utility_oper.Policy.Compile.{CompiledAllow}
use illumio_k8s_utility_oper.Policy.Compile.Scope.{IsScoped}
use illumio_k8s_utility_oper.Policy.Rules.{ResolvedAllow}
use illumio_k8s_utility_oper.Policy.Resolve.{
  Outcome, accepted, rejected, auto_creatable_key, Progress, Resolution, unknown_label,
  resolve_found, resolve_label, resolve_from, add_entry, resolve_entry, resolve_entries,
  resolve_allows,
}

-- A rejection promises nothing.
abbrev pub OnAccepted : {A : Type 0} → (A → Type 0) → Outcome A → Type 0
OnAccepted Q (accepted a) = Q a
OnAccepted Q (rejected reason message) = Unit

-- All Workloads only within the scope, and otherwise at least one consumer label.
pub record IsResolved (a : ResolvedAllow) : Type 0 where
  pub whole : a.all_workloads ≡ true → a.intra_scope ≡ true
  pub named : a.all_workloads ≡ false → a.consumer_hrefs ≢ []

abbrev Started : Progress → Type 0
Started p = (p.skipped_any ≡ true) ⊎ (p.consumer_hrefs ≢ [])

append_one-ne-nil : (l : List String) (x : String) → l ++ (x ∷ []) ≢ []
append_one-ne-nil [] x h = cc
append_one-ne-nil (y ∷ l) x h = cc

abbrev AreResolved : Resolution → Type 0
AreResolved r = All IsResolved r.allows

add_entry-AreResolved :
    (a : CompiledAllow) (out : List ResolvedAllow) (p : Progress)
    → All IsResolved out
    → Started p
    → AreResolved (add_entry a out p)
unfolding add_entry
add_entry-AreResolved a out p h s = elim (Bool-cases (p.skipped_any && is_empty p.consumer_hrefs)) [
  | inl dropped ↦ rw dropped h
  | inr kept ↦
      rw kept
        (All-append IsResolved out _ h (record { whole = λ e. cc; named = λ e. ground arith }, tt))
]

module _ {W : Type 0} (client : PolicyClient W) (mode : String) (owner : Owner) where
  unknown_label-Started :
      (key value : String) (p : Progress)
      → Returns (OnAccepted Started) (unknown_label client mode owner key value p)
  unfolding unknown_label
  unknown_label-Started key value p =
      Returns-if _ (mode == unknown_label_skip) _ _ (Returns-pure _ _ (inl refl)) (
        Returns-if _ (mode == unknown_label_create) _ _
          (Returns-if _ (not (auto_creatable_key key)) _ _ (Returns-pure _ _ tt) (
            Returns-after _ _ _
              λ lbl. Returns-pure _ _ (inr (append_one-ne-nil p.consumer_hrefs lbl.href))))
          (Returns-pure _ _ tt))

  resolve_found-Started :
      (key value : String) (p : Progress) (r : Result Error Label)
      → Returns (OnAccepted Started) (resolve_found client mode owner key value p r)
  unfolding resolve_found
  resolve_found-Started key value p (ok lbl) =
      Returns-pure _ _ (inr (append_one-ne-nil p.consumer_hrefs lbl.href))
  resolve_found-Started key value p (err e) =
      Returns-if _ (is_label_not_found e) _ _ (unknown_label-Started key value p)
        (Returns-raise _ e)

  resolve_label-Started :
      (key value : String) (p : Progress)
      → Returns (OnAccepted Started) (resolve_label client mode owner key value p)
  unfolding resolve_label
  resolve_label-Started key value p = Returns-after _ _ _ (resolve_found-Started key value p)

  resolve_from-Started :
      (from : Labels) (p : Progress)
      → Started p
      → Returns (OnAccepted Started) (resolve_from client mode owner from p)
  unfolding resolve_from
  resolve_from-Started [] p h = Returns-pure _ _ h
  resolve_from-Started ((key, value) ∷ from) p h =
      Returns-bind (OnAccepted Started) _ _ _ (resolve_label-Started key value p) (elim [
        | accepted p' ↦ λ s. resolve_from-Started from p' s
        | rejected reason message ↦ λ _. Returns-pure _ _ tt
      ])

  resolve_from_named :
      (from : Labels) (p : Progress)
      → from ≢ []
      → Returns (OnAccepted Started) (resolve_from client mode owner from p)
  unfolding resolve_from
  resolve_from_named [] p h = absurd (h refl)
  resolve_from_named ((key, value) ∷ from) p h =
      Returns-bind (OnAccepted Started) _ _ _ (resolve_label-Started key value p) (elim [
        | accepted p' ↦ λ s. resolve_from-Started from p' s
        | rejected reason message ↦ λ _. Returns-pure _ _ tt
      ])

  resolve_entry-AreResolved :
      (a : CompiledAllow) (r : Resolution)
      → IsScoped a
      → AreResolved r
      → Returns (OnAccepted AreResolved) (resolve_entry client mode owner a r)
  unfolding resolve_entry
  resolve_entry-AreResolved a r sc h = elim (Bool-cases a.all_workloads) [
    | inl whole ↦ rw whole (
        Returns-pure _ _ (
          All-append IsResolved r.allows _ h
            (record { whole = λ e. sc.whole whole; named = λ e. cc }, tt)))
    | inr named ↦ rw named (
        Returns-bind (OnAccepted Started) _ _ _ (resolve_from_named a.from _ (sc.named named))
          (elim [
            | accepted p ↦ λ s. Returns-pure _ _ (add_entry-AreResolved a r.allows p h s)
            | rejected reason message ↦ λ _. Returns-pure _ _ tt
          ]))
  ]

  resolve_entries-AreResolved :
      (allows : List CompiledAllow) (r : Resolution)
      → All IsScoped allows
      → AreResolved r
      → Returns (OnAccepted AreResolved) (resolve_entries client mode owner allows r)
  unfolding resolve_entries
  resolve_entries-AreResolved [] r sc h = Returns-pure _ _ h
  resolve_entries-AreResolved (a ∷ allows) r sc h =
      Returns-bind (OnAccepted AreResolved) _ _ _ (resolve_entry-AreResolved a r sc.0 h) (elim [
        | accepted r' ↦ λ s. resolve_entries-AreResolved allows r' sc.1 s
        | rejected reason message ↦ λ _. Returns-pure _ _ tt
      ])

  -- Whatever the PCE answers and whatever the mode, a resolution that is accepted for entries that the
  -- front ends produce has All Workloads only within the scope, and a consumer label in every other
  -- entry: no mode turns an unknown label into an entry without consumers.
  pub resolve_allows-AreResolved :
      (allows : List CompiledAllow) (w w' : W) (resolution : Resolution)
      → All IsScoped allows
      → resolve_allows client mode owner allows w ≡ (ok (accepted resolution), w')
      → All IsResolved resolution.allows
  unfolding resolve_allows
  resolve_allows-AreResolved allows w w' resolution sc h =
      (resolve_entries-AreResolved allows (record { allows = []; deferred = []; created = [] }) sc
          tt).value
        w (accepted resolution) (ap (λ t. t.0) h)
