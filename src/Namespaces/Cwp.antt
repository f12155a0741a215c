-- ===== src/Namespaces/Cwp.antt =====
-- internal/controller/cwpmatch.go: the desired Container Workload Profile of a namespace.
pub mod Annotations
pub mod Precedence
use Prim.Native.Char.{code}
use Prim.Native.String.{slice, len}
use text.Mathlib.Text.{starts_with}
use illumio_k8s_utility_oper.Prelude.{
  ℕ, ◌+◌, String, Bool, true, false, not, ◌&&◌, ◌||◌, Option, none, some, List, [], ◌∷◌, ◌==◌,
  nat_eq, string_eq, leb, is_empty, if◌then◌else◌,
}
use illumio_k8s_utility_oper.Prelude.Dict.{Dict, Labels, lookup, get, insert}
use illumio_k8s_utility_oper.Api.ClusterProfile.{
  NamespaceMatch, LabelAssignment, NamespaceRule, SystemNamespacesSpec,
}
use illumio_k8s_utility_oper.Namespaces.Glob.{path_match, codes}

abbrev pub enforcement_idle : String
enforcement_idle = "idle"

abbrev pub enforcement_visibility_only : String
enforcement_visibility_only = "visibility_only"

abbrev pub annotation_managed : String
annotation_managed = "microsegment.io/managed"

abbrev pub annotation_enforcement : String
annotation_enforcement = "microsegment.io/enforcement"

abbrev pub annotation_label_prefix : String
annotation_label_prefix = "microsegment.io/label."

pub record DesiredCwp : Type 0 where
  pub managed : Bool
  pub labels : Labels
  pub enforcement_mode : String

abbrev pub default_system_patterns : List String
default_system_patterns = "openshift-*" ∷ "kube-*" ∷ "default" ∷ []

abbrev patterns_or_default : List String → List String
patterns_or_default [] = default_system_patterns
patterns_or_default (p ∷ ps) = p ∷ ps

abbrev pub system_patterns : SystemNamespacesSpec → List String
system_patterns sys = patterns_or_default sys.patterns

unfoldable pub matches_any_pattern : String → List String → Bool
matches_any_pattern name [] = false
matches_any_pattern name (p ∷ patterns) = path_match p name || matches_any_pattern name patterns

-- The loop over `m.Labels`.
labels_match : Labels → Labels → Bool
labels_match [] ns_labels = true
labels_match ((k, v) ∷ required) ns_labels = get ns_labels k == v && labels_match required ns_labels

unfoldable pub rule_matches : NamespaceMatch → String → Labels → Bool
unfolding labels_match
rule_matches m name ns_labels =
    if not (m.name_pattern == "") && not (path_match m.name_pattern name)
    then false
    else labels_match m.labels ns_labels

-- What one assignment gives: its value, or else that of the namespace's label.
assigned : LabelAssignment → Labels → Option String
assigned a ns_labels =
    if not (a.value == "")
    then some a.value
    else if not (a.from_namespace_label == "")
    then elim (lookup a.from_namespace_label ns_labels) [
      | none ↦ none
      | some v ↦ if v == "" then none else some v
    ]
    else none

put_assigned : String → Option String → Labels → Labels
put_assigned key none out = out
put_assigned key (some v) out = insert key v out

-- The loop over `assign`, with the map that it fills.
resolve_assign_labels_onto : Dict LabelAssignment → Labels → Labels → Labels
resolve_assign_labels_onto [] ns_labels out = out
resolve_assign_labels_onto ((key, a) ∷ assign) ns_labels out =
    resolve_assign_labels_onto assign ns_labels (put_assigned key (assigned a ns_labels) out)

unfoldable pub resolve_assign_labels : Dict LabelAssignment → Labels → Labels
unfolding assigned put_assigned resolve_assign_labels_onto
resolve_assign_labels assign ns_labels = resolve_assign_labels_onto assign ns_labels []

-- `strings.EqualFold(v, "true")`: no letter of the second text has case variants beyond ASCII.
lower : ℕ → ℕ
lower c = if leb b'A' c && leb c b'Z' then c + 32 else c

same_folded : List ℕ → List ℕ → Bool
same_folded [] [] = true
same_folded (c ∷ s) (d ∷ t) = (lower c == lower d) && same_folded s t
same_folded _ _ = false

unfoldable pub equal_fold : String → String → Bool
unfolding lower same_folded
equal_fold s t = same_folded (codes s) (codes t)

-- `strings.TrimPrefix` of a text that has the prefix.
abbrev pub trim_prefix : String → String → String
trim_prefix prefix k = slice k (len prefix) (len k)

-- One annotation of the loop: a label override has the prefix, a key behind it, and a value.
override_label : String → String → Labels → Labels
override_label k v labels =
    if starts_with k annotation_label_prefix && not (v == "")
    then if trim_prefix annotation_label_prefix k == ""
      then labels
      else insert (trim_prefix annotation_label_prefix k) v labels
    else labels

override_labels : Labels → Labels → Labels
override_labels [] labels = labels
override_labels ((k, v) ∷ annos) labels = override_labels annos (override_label k v labels)

override_managed : Option String → Bool → Bool
override_managed none managed = managed
override_managed (some v) managed = equal_fold v "true"

override_enforcement : Option String → String → String
override_enforcement none mode = mode
override_enforcement (some v) mode = if v == "" then mode else v

unfoldable pub apply_annotation_overrides : DesiredCwp → Labels → DesiredCwp
unfolding override_label override_labels override_managed override_enforcement
apply_annotation_overrides d annos = record {
  managed = override_managed (lookup annotation_managed annos) d.managed;
  labels = override_labels annos d.labels;
  enforcement_mode = override_enforcement (lookup annotation_enforcement annos) d.enforcement_mode;
}

abbrev pub unmanaged : DesiredCwp
unmanaged = record { managed = false; labels = []; enforcement_mode = "" }

abbrev pub from_rule : NamespaceRule → Labels → DesiredCwp
from_rule r ns_labels = record {
  managed = r.managed;
  labels = resolve_assign_labels r.assign_labels ns_labels;
  enforcement_mode = r.enforcement_mode;
}

-- The loop over `rules`, which stops at the first match.
unfoldable pub first_rule : List NamespaceRule → String → Labels → DesiredCwp
first_rule [] name ns_labels = unmanaged
first_rule (r ∷ rules) name ns_labels =
    if rule_matches r.match name ns_labels
    then from_rule r ns_labels
    else first_rule rules name ns_labels

unfoldable pub is_system : SystemNamespacesSpec → String → Bool
is_system sys name = sys.manage && matches_any_pattern name (system_patterns sys)

abbrev pub from_system : SystemNamespacesSpec → DesiredCwp
from_system sys = record {
  managed = true;
  labels = sys.labels;
  enforcement_mode = sys.enforcement_mode;
}

-- The PCE rejects a managed profile with idle enforcement.
unfoldable pub floor_enforcement : DesiredCwp → DesiredCwp
floor_enforcement d =
    if d.managed && (d.enforcement_mode == "" || d.enforcement_mode == enforcement_idle)
    then record d { enforcement_mode = enforcement_visibility_only }
    else d

unfoldable pub compute_desired_cwp :
    String → Labels → Labels → List NamespaceRule → SystemNamespacesSpec → DesiredCwp
unfolding is_system first_rule
compute_desired_cwp name ns_labels ns_annotations rules sys =
    let base = first_rule rules name ns_labels in
    let d = if is_system sys name then from_system sys else base in
    floor_enforcement (apply_annotation_overrides d ns_annotations)
