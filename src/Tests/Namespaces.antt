-- ===== src/Tests/Namespaces.antt =====
-- Namespaces: runs of the matching code, and the theorems at a namespace that a rule, the system
-- patterns and an annotation concern.
use illumio_k8s_utility_oper.Prelude.{◌≡◌, ◌≢◌, refl, true, some, [], ◌∷◌, arith, eq_iff}
use illumio_k8s_utility_oper.Prelude.Dict.{Labels, lookup}
use illumio_k8s_utility_oper.Api.ClusterProfile.{NamespaceRule, SystemNamespacesSpec}
use illumio_k8s_utility_oper.Namespaces.Cwp.{
  compute_desired_cwp, rule_matches, is_system, from_rule, equal_fold, floor_enforcement,
  apply_annotation_overrides, matches_any_pattern, enforcement_idle, resolve_assign_labels,
  unmanaged,
}
use illumio_k8s_utility_oper.Namespaces.Glob.{path_match}
use illumio_k8s_utility_oper.Namespaces.Cwp.Annotations.{lookup-compute_desired_cwp}
use illumio_k8s_utility_oper.Namespaces.Cwp.Precedence.{
  compute_desired_cwp_enforced, compute_desired_cwp_first,
}
use illumio_k8s_utility_oper.Tests.World.{shop, db_rule, rules}

abbrev sys : SystemNamespacesSpec
sys = record {
  manage = true;
  patterns = [];
  labels = ("app", "system") ∷ [];
  enforcement_mode = "";
}

abbrev opted_out : Labels
opted_out = ("microsegment.io/managed", "False") ∷ []

shop_desired : compute_desired_cwp "shop" shop.labels shop.annotations rules sys ≡ record {
  managed = true;
  labels = ("app", "web") ∷ ("env", "prod") ∷ [];
  enforcement_mode = "visibility_only";
}
unfolding compute_desired_cwp rule_matches matches_any_pattern path_match resolve_assign_labels
    apply_annotation_overrides equal_fold floor_enforcement
shop_desired = refl

compute_desired_cwp_enforced_example :
    ((compute_desired_cwp "shop" shop.labels shop.annotations rules sys).enforcement_mode ≢ "")
    × ((compute_desired_cwp "shop" shop.labels shop.annotations rules sys).enforcement_mode
        ≢ enforcement_idle)
unfolding compute_desired_cwp rule_matches matches_any_pattern path_match resolve_assign_labels
    apply_annotation_overrides equal_fold floor_enforcement
compute_desired_cwp_enforced_example =
    compute_desired_cwp_enforced "shop" shop.labels shop.annotations rules sys refl

lookup-compute_desired_cwp_example :
    lookup "env" (compute_desired_cwp "shop" shop.labels shop.annotations rules sys).labels
    ≡ some "prod"
lookup-compute_desired_cwp_example =
    lookup-compute_desired_cwp "env" "shop" shop.labels shop.annotations rules sys
      (refl, (refl, tt)) (ground (arith, eq_iff "env" ""))

compute_desired_cwp_first_example :
    (compute_desired_cwp "shop" shop.labels shop.annotations (db_rule ∷ []) sys
      ≡ floor_enforcement (apply_annotation_overrides unmanaged shop.annotations))
    × ((r : NamespaceRule)
        → rule_matches r.match "shop" shop.labels ≡ true
        → compute_desired_cwp "shop" shop.labels shop.annotations (db_rule ∷ r ∷ []) sys
          ≡ floor_enforcement
              (apply_annotation_overrides (from_rule r shop.labels) shop.annotations))
unfolding is_system matches_any_pattern path_match rule_matches
compute_desired_cwp_first_example =
    compute_desired_cwp_first "shop" shop.labels shop.annotations (db_rule ∷ []) [] sys refl
      (refl, tt)
