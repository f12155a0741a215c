-- ===== src/Tests/Client.antt =====
-- The PCE client: the theorems at requests in memory.
use illumio_k8s_utility_oper.Prelude.{◌≡◌, refl, Option, none, some, [], ◌∷◌}
use illumio_k8s_utility_oper.Result.{ok}
use illumio_k8s_utility_oper.Exec.Value.{Returns}
use illumio_k8s_utility_oper.Pce.Objects.{Label}
use illumio_k8s_utility_oper.Pce.Client.{Requests, ensure_label, find_rule_set_by_owner}
use illumio_k8s_utility_oper.Pce.Client.Lookup.{
  IsOwnedBy, Search, label_for, ensure_label_lem, find_rule_set_by_owner-IsOwnedBy,
}
use illumio_k8s_utility_oper.Tests.World.{World}
use illumio_k8s_utility_oper.Tests.Draft.{drafted, holding_draft, operator}

-- The PCE's filter also matches values that only begin with the one asked for.
abbrev near_miss : Label
near_miss = record {
  href = "/l/9";
  key = "app";
  value = "web-2";
  external_data_set = "";
  external_data_reference = "";
}

abbrev near_requests : Requests World
near_requests = record {
  get_labels = λ key value w. (ok (near_miss ∷ []), w);
  post_label = λ l w. (ok (record l { href = "/l/10" }), w);
  get_rule_sets = λ w. (ok (drafted "" ∷ []), w);
  get_services = λ w. (ok [], w);
}

ensure_label_example :
    (o : Option Label) × Search "app" "web" (near_miss ∷ []) o
    × (ensure_label near_requests "app" "web" operator (holding_draft "") ≡ (elim o [
      | some l ↦ (ok l, holding_draft "")
      | none ↦
          near_requests.post_label
            (label_for near_requests "app" "web"
              (near_miss ∷ [])
              (holding_draft "")
              (holding_draft "")
              refl
              operator)
            (holding_draft "")
    ]))
ensure_label_example =
    ensure_label_lem near_requests "app" "web" (near_miss ∷ []) (holding_draft "")
      (holding_draft "") refl operator

find_rule_set_by_owner-IsOwnedBy_example :
    Returns (IsOwnedBy operator) (find_rule_set_by_owner near_requests operator)
find_rule_set_by_owner-IsOwnedBy_example = find_rule_set_by_owner-IsOwnedBy near_requests operator
