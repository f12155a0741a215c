-- ===== src/Api/LabelMode/Choice.antt =====
-- The chosen mode is a mode, and comes from the most specific source that gives one.
use illumio_k8s_utility_oper.Prelude.{
  String, ◌≡◌, refl, true, List, [], ◌∷◌, arith, string_eq, if◌then◌else◌,
}
use illumio_k8s_utility_oper.Prelude.Dict.{Labels, get}
use illumio_k8s_utility_oper.Api.LabelMode.{
  ModeChoice, unknown_label_strict, annotation_unknown_label_mode, valid_unknown_label_mode,
  resolve_unknown_label_mode,
}

-- The first source of a list that gives a valid mode; strict, by default, if none does.
abbrev pub first_valid : List ModeChoice → ModeChoice
first_valid [] = record { mode = unknown_label_strict; set_by = "default" }
first_valid (c ∷ choices) = if valid_unknown_label_mode c.mode then c else first_valid choices

abbrev pub sources : String → Labels → Labels → List ModeChoice
sources cp_default ns_annotations cr_annotations =
    record { mode = get cr_annotations annotation_unknown_label_mode; set_by = "cr" }
    ∷ record { mode = get ns_annotations annotation_unknown_label_mode; set_by = "namespace" }
    ∷ record { mode = cp_default; set_by = "clusterprofile" }
    ∷ []

first_valid-valid :
    (choices : List ModeChoice) → valid_unknown_label_mode (first_valid choices).mode ≡ true
unfolding valid_unknown_label_mode
first_valid-valid [] = refl
first_valid-valid (c ∷ choices) = ground (arith, first_valid-valid choices)

-- Whatever the annotations and the default hold, the chosen mode is strict, skip or create, and it is
-- the first valid one among the resource's annotation, the namespace's annotation and the profile's
-- default, named by its source; a misspelt one is passed over.
pub resolve_unknown_label_mode_lem :
    (cp_default : String) (ns_annotations cr_annotations : Labels)
    → let choice = resolve_unknown_label_mode cp_default ns_annotations cr_annotations in
      (valid_unknown_label_mode choice.mode ≡ true)
      × (choice ≡ first_valid (sources cp_default ns_annotations cr_annotations))
unfolding resolve_unknown_label_mode
resolve_unknown_label_mode_lem cp_default ns_annotations cr_annotations =
    (first_valid-valid (sources cp_default ns_annotations cr_annotations), refl)
