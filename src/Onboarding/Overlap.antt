-- ===== src/Onboarding/Overlap.antt =====
-- internal/controller/labelmap.go: the warning about an Illumio LabelMap that writes label keys which
-- the ClusterProfile assigns too.
pub mod Keys
use illumio_k8s_utility_oper.Prelude.{
  String, Bool, true, false, not, ◌||◌, Option, none, some, List, [], ◌∷◌, ◌++◌, is_empty, ◌==◌,
  string_eq, if◌then◌else◌,
}
use illumio_k8s_utility_oper.Prelude.Order.{text_compare, Sorter}
use illumio_k8s_utility_oper.Prelude.Dict.{Dict}
use illumio_k8s_utility_oper.Result.{Result, ok, err}
use illumio_k8s_utility_oper.Exec.{Exec, pure, try, ◌>>=◌}
use illumio_k8s_utility_oper.Exec.Errors.{Error}
use illumio_k8s_utility_oper.Api.Meta.{
  ConditionApi, ConditionStatus, condition_true, condition_false, Message, text, about_labels,
}
use illumio_k8s_utility_oper.Api.ClusterProfile.{ClusterProfile, NamespaceRule}
use illumio_k8s_utility_oper.Policy.Resolve.{contains}

-- An object of the LabelMap resource, as far as it is read: the `toKey` of each entry of
-- `workloadLabelMap`, where the list, the entry or the text is there.
pub record LabelMap : Type 0 where
  pub workload_label_map : Option (List (Option String))

-- `List`, whose error says that the resource is not installed.
pub record LabelMaps (W : Type 0) : Type 0 where
  pub list : Exec W (List LabelMap)

-- A `map[string]bool` of keys that are all true.
abbrev pub add_key : String → List String → List String
add_key k keys = if contains keys k then keys else keys ++ (k ∷ [])

pub add_keys : {V : Type 0} → Dict V → List String → List String
add_keys [] keys = keys
add_keys ((k, v) ∷ m) keys = add_keys m (add_key k keys)

pub add_rules : List NamespaceRule → List String → List String
unfolding add_keys
add_rules [] keys = keys
add_rules (r ∷ rules) keys = add_rules rules (add_keys r.assign_labels keys)

unfoldable pub operator_assigned_keys : ClusterProfile → List String
unfolding add_keys add_rules
operator_assigned_keys cp =
    add_keys cp.spec.system_namespaces.labels (add_rules cp.spec.namespace_rules [])

add_entry_key : Option String → List String → List String
add_entry_key none keys = keys
add_entry_key (some k) keys = if k == "" then keys else add_key k keys

add_entries : List (Option String) → List String → List String
unfolding add_entry_key
add_entries [] keys = keys
add_entries (e ∷ entries) keys = add_entries entries (add_entry_key e keys)

add_maps : List LabelMap → List String → List String
unfolding add_entries
add_maps [] keys = keys
add_maps (m ∷ items) keys =
    add_maps items
      (elim m.workload_label_map [ none ↦ keys | some entries ↦ add_entries entries keys ])

unfoldable pub label_map_workload_keys : List LabelMap → List String
unfolding add_maps
label_map_workload_keys items = add_maps items []

pub common : List String → List String → List String
common [] b = []
common (k ∷ a) b = let rest = common a b in if contains b k then k ∷ rest else rest

unfoldable pub overlap_keys : Sorter → List String → List String → List String
unfolding common
overlap_keys sorter a b = sorter.sort text_compare (common a b)

module _ {W : Type 0} (sorter : Sorter) (maps : LabelMaps W) (api : ConditionApi) where
  abbrev put_overlap : ConditionStatus → String → Message → ClusterProfile → ClusterProfile
  put_overlap status reason message cp = record cp {
    status = record cp.status {
      conditions = api.set_condition cp.status.conditions (record {
        kind = "LabelMapOverlap";
        status = status;
        reason = reason;
        message = message;
        observed_generation = 0;
      });
    };
  }

  report_overlap : ClusterProfile → List String → ClusterProfile
  report_overlap cp overlapping =
      if is_empty overlapping
      then put_overlap condition_false "NoOverlap"
          (text "LabelMap and this operator label distinct dimensions") cp
      else put_overlap condition_true "Overlap"
          (about_labels
            "Illumio LabelMap writes label key(s) %v that this operator also assigns via the ClusterProfile; two systems labeling the same dimension conflict — map those keys in only one place (LabelMap workloadLabelMap or ClusterProfile assignLabels), not both"
            overlapping)
          cp

  on_maps : ClusterProfile → Result Error (List LabelMap) → ClusterProfile
  unfolding report_overlap
  on_maps cp (err e) =
      put_overlap condition_false "NoLabelMap" (text "no Illumio LabelMap detected") cp
  on_maps cp (ok items) =
      report_overlap cp
        (overlap_keys sorter (operator_assigned_keys cp) (label_map_workload_keys items))

  unfoldable pub check_label_map_overlap : ClusterProfile → Exec W ClusterProfile
  unfolding on_maps
  check_label_map_overlap cp = do r ← try maps.list; pure (on_maps cp r)
