-- ===== src/Namespaces/Cwp/Precedence.antt =====
-- Which source decides whether a namespace is managed, and at which enforcement.
use illumio_k8s_utility_oper.Prelude.{
  String, ◌≡◌, ◌≢◌, refl, true, false, some, List, [], ◌∷◌, ◌++◌, All, arith, eq_iff, string_eq,
}
use illumio_k8s_utility_oper.Prelude.Dict.{Labels, lookup}
use illumio_k8s_utility_oper.Api.ClusterProfile.{NamespaceRule, SystemNamespacesSpec}
use illumio_k8s_utility_oper.Namespaces.Cwp.{
  DesiredCwp, annotation_managed, enforcement_idle, enforcement_visibility_only, equal_fold,
  rule_matches, apply_annotation_overrides, floor_enforcement, first_rule, is_system, from_system,
  from_rule, unmanaged, compute_desired_cwp,
}

floor_enforcement_lem :
    (d : DesiredCwp)
    → (floor_enforcement d).managed ≡ true
    → ((floor_enforcement d).enforcement_mode ≢ "")
      × ((floor_enforcement d).enforcement_mode ≢ enforcement_idle)
unfolding floor_enforcement
floor_enforcement_lem d h = ground (
  arith,
  eq_iff d.enforcement_mode "",
  eq_iff d.enforcement_mode enforcement_idle,
  eq_iff enforcement_visibility_only enforcement_idle,
  eq_iff enforcement_visibility_only "",
)

managed-floor_enforcement : (d : DesiredCwp) → (floor_enforcement d).managed ≡ d.managed
unfolding floor_enforcement
managed-floor_enforcement d = ground arith

module _ (name : String) (ns_labels annos : Labels) (rules : List NamespaceRule)
    (sys : SystemNamespacesSpec) where
  -- A managed namespace never asks for the modes that the PCE rejects for it, whatever the rules, the
  -- system specification and the annotations say.
  pub compute_desired_cwp_enforced :
      (compute_desired_cwp name ns_labels annos rules sys).managed ≡ true
      → ((compute_desired_cwp name ns_labels annos rules sys).enforcement_mode ≢ "")
        × ((compute_desired_cwp name ns_labels annos rules sys).enforcement_mode ≢ enforcement_idle)
  unfolding compute_desired_cwp
  compute_desired_cwp_enforced = floor_enforcement_lem _

  -- The `managed` annotation has the last word: whatever matches, the namespace is managed exactly if
  -- the annotation is "true", in any case of letters.
  pub compute_desired_cwp_annotated :
      (v : String)
      → lookup annotation_managed annos ≡ some v
      → (compute_desired_cwp name ns_labels annos rules sys).managed ≡ equal_fold v "true"
  unfolding compute_desired_cwp apply_annotation_overrides
  compute_desired_cwp_annotated v h = rw (managed-floor_enforcement, h)

  -- A namespace that the system specification covers does not depend on the rules.
  pub compute_desired_cwp_system :
      is_system sys name ≡ true
      → compute_desired_cwp name ns_labels annos rules sys
        ≡ floor_enforcement (apply_annotation_overrides (from_system sys) annos)
  unfolding compute_desired_cwp
  compute_desired_cwp_system h = rw h

first_rule_none :
    (name : String) (ns_labels : Labels) (rules : List NamespaceRule)
    → All (λ r. rule_matches r.match name ns_labels ≡ false) rules
    → first_rule rules name ns_labels ≡ unmanaged
unfolding first_rule
first_rule_none name ns_labels [] h = refl
first_rule_none name ns_labels (r ∷ rules) h = rw h.0 (first_rule_none name ns_labels rules h.1)

first_rule_skips :
    (name : String) (ns_labels : Labels) (before rest : List NamespaceRule)
    → All (λ r. rule_matches r.match name ns_labels ≡ false) before
    → first_rule (before ++ rest) name ns_labels ≡ first_rule rest name ns_labels
unfolding first_rule
first_rule_skips name ns_labels [] rest h = refl
first_rule_skips name ns_labels (r ∷ before) rest h =
    rw h.0 (first_rule_skips name ns_labels before rest h.1)

first_rule_match :
    (name : String) (ns_labels : Labels) (r : NamespaceRule) (rest : List NamespaceRule)
    → rule_matches r.match name ns_labels ≡ true
    → first_rule (r ∷ rest) name ns_labels ≡ from_rule r ns_labels
unfolding first_rule
first_rule_match name ns_labels r rest h = rw h

-- For a namespace that the system specification does not cover, the first rule that matches decides,
-- and with no matching rule the namespace is unmanaged but for its annotations.
pub compute_desired_cwp_first :
    (name : String) (ns_labels annos : Labels) (before rest : List NamespaceRule)
    (sys : SystemNamespacesSpec)
    → is_system sys name ≡ false
    → All (λ r. rule_matches r.match name ns_labels ≡ false) before
    → (compute_desired_cwp name ns_labels annos before sys
        ≡ floor_enforcement (apply_annotation_overrides unmanaged annos))
      × ((r : NamespaceRule)
          → rule_matches r.match name ns_labels ≡ true
          → compute_desired_cwp name ns_labels annos (before ++ (r ∷ rest)) sys
            ≡ floor_enforcement (apply_annotation_overrides (from_rule r ns_labels) annos))
unfolding compute_desired_cwp
compute_desired_cwp_first name ns_labels annos before rest sys plain none_before = (
  rw (plain, first_rule_none name ns_labels before none_before),
  λ r matches. rw (
    plain,
    first_rule_skips name ns_labels before (r ∷ rest) none_before,
    first_rule_match name ns_labels r rest matches,
  ),
)
