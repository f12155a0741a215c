-- ===== src/Namespaces/Cwp/Annotations.antt =====
-- Annotations override what the rules give.
use Prim.Native.String.{slice, len}
use text.Mathlib.Text.{starts_with}
use text.Mathlib.TextEquality.{starts_with_iff}
use text.Mathlib.TextPositions.{starts_with-append, slice-append_right, len-append}
use illumio_k8s_utility_oper.Prelude.{
  String, ◌<>◌, ◌≡◌, ◌≢◌, refl, sym, ap, ◌∙◌, true, inl, inr, Option, none, some, List, [], ◌∷◌,
  arith, eq_iff, ◌==◌, string_eq, Bool-cases, if◌then◌else◌,
}
use illumio_k8s_utility_oper.Prelude.Dict.{Labels, lookup, lookup-insert, NodupKeys}
use illumio_k8s_utility_oper.Api.ClusterProfile.{NamespaceRule, SystemNamespacesSpec}
use illumio_k8s_utility_oper.Namespaces.Cwp.{
  DesiredCwp, annotation_label_prefix, trim_prefix, override_label, override_labels,
  apply_annotation_overrides, floor_enforcement, first_rule, is_system, from_system,
  compute_desired_cwp,
}

trim_prefix-append : (p k : String) → trim_prefix p (p <> k) ≡ k
trim_prefix-append p k =
    ap (λ n. slice (p <> k) (len p) n) (len-append p k) ∙ slice-append_right p k

append-trim_prefix : (p j : String) → starts_with j p ≡ true → p <> trim_prefix p j ≡ j
append-trim_prefix p j h =
    let (u, e) = (starts_with_iff j p).0 h in
    ap (λ t. p <> t) (ap (trim_prefix p) (sym e) ∙ trim_prefix-append p u) ∙ e

-- The value that an override leaves: an empty one changes nothing.
abbrev pub overridden : Option String → Option String → Option String
overridden none old = old
overridden (some v) old = if v == "" then old else some v

-- An annotation for another key does not touch the label.
lookup-override_label_ne :
    (k j v : String) (labels : Labels)
    → j ≢ annotation_label_prefix <> k
    → lookup k (override_label j v labels) ≡ lookup k labels
unfolding override_label
lookup-override_label_ne k j v labels h =
    elim (Bool-cases (starts_with j annotation_label_prefix)) [
      | inl e ↦ ground (
        arith,
        eq_iff (trim_prefix annotation_label_prefix j) k,
        lookup-insert (trim_prefix annotation_label_prefix j) k v labels,
        append-trim_prefix annotation_label_prefix j e,
      )
      | inr e ↦ rw e
    ]

lookup-override_label_self :
    (k v : String) (labels : Labels)
    → k ≢ ""
    → lookup k (override_label (annotation_label_prefix <> k) v labels)
      ≡ overridden (some v) (lookup k labels)
unfolding override_label
lookup-override_label_self k v labels h =
    rw (starts_with-append annotation_label_prefix k, trim_prefix-append annotation_label_prefix k)
      (ground (arith, eq_iff k "", eq_iff k k, lookup-insert k k v labels))

override_step :
    (k j v : String) (annos labels : Labels)
    → lookup j annos ≡ none
    → k ≢ ""
    → overridden
        (lookup (annotation_label_prefix <> k) annos)
        (lookup k (override_label j v labels))
      ≡ overridden (lookup (annotation_label_prefix <> k) ((j, v) ∷ annos)) (lookup k labels)
override_step k j v annos labels fresh h = elim (Bool-cases (j == annotation_label_prefix <> k)) [
  | inl e ↦
      let same = (eq_iff j (annotation_label_prefix <> k)).0 e in
      rw e (
        ground (
          arith,
          ap (λ t. lookup k (override_label t v labels)) same,
          ap (λ t. lookup t annos) same,
          lookup-override_label_self k v labels h,
        ))
  | inr e ↦ rw e (
      ap (overridden (lookup (annotation_label_prefix <> k) annos)) (
        lookup-override_label_ne k j v labels
          (ground (arith, eq_iff j (annotation_label_prefix <> k)))))
]

lookup-override_labels :
    (k : String) (annos labels : Labels)
    → NodupKeys annos
    → k ≢ ""
    → lookup k (override_labels annos labels)
      ≡ overridden (lookup (annotation_label_prefix <> k) annos) (lookup k labels)
unfolding override_labels
lookup-override_labels k [] labels u h = refl
lookup-override_labels k ((j, v) ∷ annos) labels (fresh, u) h =
    lookup-override_labels k annos (override_label j v labels) u h
    ∙ override_step k j v annos labels fresh h

labels-floor_enforcement : (d : DesiredCwp) → (floor_enforcement d).labels ≡ d.labels
unfolding floor_enforcement
labels-floor_enforcement d = ground arith

-- For every label key the desired profile has the value of the namespace's annotation for that key
-- if there is one with a value, and otherwise what the system specification or the first matching
-- rule assigns. So the order in which the annotations are visited does not matter.
pub lookup-compute_desired_cwp :
    (k name : String) (ns_labels annos : Labels) (rules : List NamespaceRule)
    (sys : SystemNamespacesSpec)
    → NodupKeys annos
    → k ≢ ""
    → lookup k (compute_desired_cwp name ns_labels annos rules sys).labels
      ≡ overridden (lookup (annotation_label_prefix <> k) annos) (
          lookup k
            (if is_system sys name
              then from_system sys
              else first_rule rules name ns_labels).labels)
unfolding compute_desired_cwp apply_annotation_overrides
lookup-compute_desired_cwp k name ns_labels annos rules sys u h =
    let d = if is_system sys name then from_system sys else first_rule rules name ns_labels in
    ap (lookup k) (labels-floor_enforcement (apply_annotation_overrides d annos))
    ∙ lookup-override_labels k annos d.labels u h
