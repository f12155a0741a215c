-- ===== src/Policy/Compile/Intent.antt =====
-- What CompileIntent accepts, and what it makes of it.
use mathlib.Core.List.{append_assoc, append-nil}
use illumio_k8s_utility_oper.Prelude.{
  ℕ, ◌+◌, ◌≡◌, ◌≢◌, ◌↔◌, ◌∙◌, ap, Bool, true, false, not, List, [], ◌∷◌, ◌++◌, map, All, length,
  arith, is_empty, if◌then◌else◌,
}
use illumio_k8s_utility_oper.Result.{ok, err, >>=-eq-ok}
use illumio_k8s_utility_oper.Api.Segmentation.{IntentAllow, SegmentationIntentSpec}
use illumio_k8s_utility_oper.Policy.Compile.{
  CompiledAllow, exactly_one, intent_port, whole_namespace, labelled, compile_entry,
  compile_entries, refuse_empty, compile_intent,
}

-- Exactly one of the two sources of an entry has labels.
abbrev pub HasOneSource : IntentAllow → Type 0
HasOneSource a = is_empty a.from ≡ not (is_empty a.from_intra_namespace)

-- What an entry with one source means: a source in another app is extra-scope, a source in the
-- namespace is intra-scope.
abbrev pub meaning : IntentAllow → CompiledAllow
meaning a =
    if is_empty a.from
    then labelled a.from_intra_namespace true (map intent_port a.ports)
    else labelled a.from false (map intent_port a.ports)

abbrev pub shortcut : Bool → List CompiledAllow
shortcut on = if on then whole_namespace [] ∷ [] else []

compile_entry-HasOneSource :
    (i : ℕ) (a : IntentAllow) → HasOneSource a → compile_entry i a ≡ ok (meaning a)
unfolding compile_entry
compile_entry-HasOneSource i a h = ground arith

compile_entry-eq-ok :
    (i : ℕ) (a : IntentAllow) (c : CompiledAllow)
    → compile_entry i a ≡ ok c
    → HasOneSource a × (c ≡ meaning a)
unfolding compile_entry
compile_entry-eq-ok i a c h = ground arith

compile_entries-of_All :
    (i : ℕ) (l : List IntentAllow) (out : List CompiledAllow)
    → All HasOneSource l
    → compile_entries i l out ≡ ok (out ++ map meaning l)
unfolding compile_entries
compile_entries-of_All i [] out h = rw append-nil
compile_entries-of_All i (a ∷ l) out h =
    rw (compile_entry-HasOneSource i a h.0)
      (compile_entries-of_All (i + 1) l (out ++ (meaning a ∷ [])) h.1 ∙ rw append_assoc)

compile_entries-eq-ok :
    (i : ℕ) (l : List IntentAllow) (out r : List CompiledAllow)
    → compile_entries i l out ≡ ok r
    → All HasOneSource l
unfolding compile_entries
compile_entries-eq-ok i [] out r h = tt
compile_entries-eq-ok i (a ∷ l) out r h =
    let (c, e, rest) =
      >>=-eq-ok (compile_entry i a) (λ c. compile_entries (i + 1) l (out ++ (c ∷ []))) h in
    ((compile_entry-eq-ok i a c e).0, compile_entries-eq-ok (i + 1) l (out ++ (c ∷ [])) r rest)

abbrev pub Accepts : SegmentationIntentSpec → List CompiledAllow → Type 0
Accepts spec out =
    All HasOneSource spec.allow
    × (out ≢ [])
    × (out ≡ shortcut spec.allow_intra_namespace ++ map meaning spec.allow)

refuse_empty-eq-ok : (l out : List CompiledAllow) → refuse_empty l ≡ ok out → (out ≡ l) × (out ≢ [])
unfolding refuse_empty
refuse_empty-eq-ok l out h = ground arith

refuse_empty_lem : (l : List CompiledAllow) → l ≢ [] → refuse_empty l ≡ ok l
unfolding refuse_empty
refuse_empty_lem l h = ground arith

-- CompileIntent accepts a specification exactly if each entry of `allow` has one source and
-- something is allowed; the result is the `allowIntraNamespace` entry, if that is set, and then one
-- entry for each entry of `allow`, in order.
pub compile_intent-eq-ok_iff :
    (spec : SegmentationIntentSpec) (out : List CompiledAllow)
    → (compile_intent spec ≡ ok out) ↔ Accepts spec out
unfolding compile_intent
compile_intent-eq-ok_iff spec out = (
  λ h.
      let (l, e, r) =
        >>=-eq-ok (compile_entries 0 spec.allow (shortcut spec.allow_intra_namespace)) refuse_empty
          h in
      let good = compile_entries-eq-ok 0 spec.allow (shortcut spec.allow_intra_namespace) l e in
      let all = compile_entries-of_All 0 spec.allow (shortcut spec.allow_intra_namespace) good in
      let (same, filled) = refuse_empty-eq-ok l out r in (good, filled, cc (same, e, all)),
  λ (good, filled, same).
      rw (compile_entries-of_All 0 spec.allow (shortcut spec.allow_intra_namespace) good)
        (rw (← same) (refuse_empty_lem out filled)),
)

compile_entry_bad :
    (i : ℕ) (a : IntentAllow) → ¬ HasOneSource a → compile_entry i a ≡ err (exactly_one i)
unfolding compile_entry
compile_entry_bad i a bad = ground arith

compile_entries_bad :
    (i : ℕ) (before : List IntentAllow) (a : IntentAllow) (after : List IntentAllow)
    (out : List CompiledAllow)
    → All HasOneSource before
    → ¬ HasOneSource a
    → compile_entries i (before ++ (a ∷ after)) out ≡ err (exactly_one (i + length before))
unfolding compile_entries
compile_entries_bad i [] a after out h bad =
    rw (compile_entry_bad i a bad) (ap (λ n. err (exactly_one n)) (omega arith))
compile_entries_bad i (b ∷ before) a after out h bad = rw (compile_entry-HasOneSource i b h.0) (
    compile_entries_bad (i + 1) before a after (out ++ (meaning b ∷ [])) h.1 bad
    ∙ ap (λ n. err (exactly_one n)) (omega arith))

-- The first entry of `allow` that has both sources, or none, is the one that the error names, by its
-- position.
pub compile_intent_first_bad :
    (spec : SegmentationIntentSpec) (before : List IntentAllow) (a : IntentAllow)
    (after : List IntentAllow)
    → spec.allow ≡ before ++ (a ∷ after)
    → All HasOneSource before
    → ¬ HasOneSource a
    → compile_intent spec ≡ err (exactly_one (length before))
unfolding compile_intent
compile_intent_first_bad spec before a after e h bad = rw e (
    rw (compile_entries_bad 0 before a after (shortcut spec.allow_intra_namespace) h bad)
      (ap (λ n. err (exactly_one n)) (omega arith)))
