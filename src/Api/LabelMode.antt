-- ===== src/Api/LabelMode.antt =====
-- api/v1alpha1/labelmode.go: how a label that the PCE does not have is handled.
pub mod Choice
use illumio_k8s_utility_oper.Prelude.{
  String, Bool, ◌||◌, ◌==◌, string_eq, if◌then◌else◌, ◌≡◌, ◌≢◌, true, false, arith, ◌⊎◌, inl, inr,
}
use illumio_k8s_utility_oper.Prelude.Dict.{Labels, get}

abbrev pub unknown_label_strict : String
unknown_label_strict = "strict"

abbrev pub unknown_label_skip : String
unknown_label_skip = "skip"

abbrev pub unknown_label_create : String
unknown_label_create = "create"

abbrev pub annotation_unknown_label_mode : String
annotation_unknown_label_mode = "microsegment.io/unknown-label-mode"

unfoldable pub valid_unknown_label_mode : String → Bool
valid_unknown_label_mode m =
    m == unknown_label_strict || m == unknown_label_skip || m == unknown_label_create

pub record ModeChoice : Type 0 where
  pub mode : String
  pub set_by : String

-- The same test at each level, the most specific first.
unfoldable pub resolve_unknown_label_mode : String → Labels → Labels → ModeChoice
unfolding valid_unknown_label_mode
resolve_unknown_label_mode cp_default ns_annotations cr_annotations =
    let cr = get cr_annotations annotation_unknown_label_mode in
    let ns = get ns_annotations annotation_unknown_label_mode in
    if valid_unknown_label_mode cr
    then record { mode = cr; set_by = "cr" }
    else if valid_unknown_label_mode ns
    then record { mode = ns; set_by = "namespace" }
    else if valid_unknown_label_mode cp_default
    then record { mode = cp_default; set_by = "clusterprofile" }
    else record { mode = unknown_label_strict; set_by = "default" }
