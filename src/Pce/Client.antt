-- ===== src/Pce/Client.antt =====
-- internal/pce/labels.go and policy.go: the lookups of the PCE client. The exchange `do` with its JSON
-- is a parameter, one call for each request.
pub mod Lookup
use illumio_k8s_utility_oper.Prelude.{
  String, ◌<>◌, Bool, true, false, not, ◌&&◌, Option, none, some, List, [], ◌∷◌, ◌==◌, string_eq,
  if◌then◌else◌,
}
use illumio_k8s_utility_oper.Result.{Result, ok, err}
use illumio_k8s_utility_oper.Exec.{Exec, pure, raise, try, ◌>>=◌}
use illumio_k8s_utility_oper.Exec.Errors.{Error, label_not_found, is_label_not_found}
use illumio_k8s_utility_oper.Pce.Objects.{Owner, Label, Service, RuleSet}

pub record Requests (W : Type 0) : Type 0 where
  -- GET /labels, filtered by key and value
  pub get_labels : String → String → Exec W (List Label)
  -- POST /labels
  pub post_label : Label → Exec W Label
  -- GET /sec_policy/draft/rule_sets
  pub get_rule_sets : Exec W (List RuleSet)
  -- GET /sec_policy/draft/services
  pub get_services : Exec W (List Service)

-- The loop that returns the first entry that passes a test.
unfoldable pub first_where {ℓ} : {A : Type ℓ} → (A → Bool) → List A → Option A
first_where p [] = none
first_where p (x ∷ xs) = if p x then some x else first_where p xs

abbrev pub is_exactly : String → String → Label → Bool
is_exactly key value l = l.key == key && l.value == value

abbrev pub is_owned_by : Owner → RuleSet → Bool
is_owned_by owner rs = rs.external_data_reference == owner.reference && not (owner.reference == "")

module _ {W : Type 0} (requests : Requests W) where
  unfoldable pub or_not_found : Option Label → Exec W Label
  or_not_found none = raise label_not_found
  or_not_found (some l) = pure l

  unfoldable pub find_label : String → String → Exec W Label
  find_label key value = do
    labels ← requests.get_labels key value
    or_not_found (first_where (is_exactly key value) labels)

  unfoldable pub create_label : Label → Exec W Label
  create_label l = requests.post_label l

  or_create : String → String → Owner → Result Error Label → Exec W Label
  or_create key value owner (ok existing) = pure existing
  or_create key value owner (err e) =
      if not (is_label_not_found e)
      then raise e
      else create_label (record {
        href = "";
        key = key;
        value = value;
        external_data_set = owner.data_set;
        external_data_reference = key <> "=" <> value;
      })

  unfoldable pub ensure_label : String → String → Owner → Exec W Label
  unfolding or_create
  ensure_label key value owner = do r ← try (find_label key value); or_create key value owner r

  unfoldable pub find_service_by_name : String → Exec W (Option Service)
  find_service_by_name name = do
    services ← requests.get_services
    pure (first_where (λ (s : Service). s.name == name) services)

  unfoldable pub find_rule_set_by_owner : Owner → Exec W (Option RuleSet)
  find_rule_set_by_owner owner = do
    sets ← requests.get_rule_sets
    pure (first_where (is_owned_by owner) sets)
