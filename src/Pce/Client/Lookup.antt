-- ===== src/Pce/Client/Lookup.antt =====
-- What the lookups find: an exact match, although the PCE's own filters match more.
use illumio_k8s_utility_oper.Prelude.{
  String, ◌<>◌, ◌≡◌, ◌≢◌, ◌↔◌, refl, inl, inr, true, Bool-cases, Option, none, some, List, [], ◌∷◌,
  All, Mem, arith, eq_iff, string_eq,
}
use illumio_k8s_utility_oper.Result.{ok}
use illumio_k8s_utility_oper.Exec.{try, ◌>>=◌, resume}
use illumio_k8s_utility_oper.Exec.Errors.{is_label_not_found}
use illumio_k8s_utility_oper.Exec.Value.{Returns, Returns-pure, Returns-after}
use illumio_k8s_utility_oper.Pce.Objects.{Owner, Label, RuleSet}
use illumio_k8s_utility_oper.Pce.Client.{
  Requests, first_where, is_exactly, is_owned_by, or_not_found, find_label, create_label, or_create,
  ensure_label, find_rule_set_by_owner,
}

abbrev pub IsExactly : String → String → Label → Type 0
IsExactly key value l = (l.key ≡ key) × (l.value ≡ value)

abbrev pub IsOwnedBy : Owner → Option RuleSet → Type 0
IsOwnedBy owner none = Unit
IsOwnedBy owner (some rs) = (rs.external_data_reference ≡ owner.reference) × (owner.reference ≢ "")

-- An exact match that is one of the labels, or none of them matches.
abbrev pub Search : String → String → List Label → Option Label → Type 0
Search key value labels none = All (λ (l : Label). ¬ IsExactly key value l) labels
Search key value labels (some l) = IsExactly key value l × Mem labels l

is_exactly_iff :
    (key value : String) (l : Label) → (is_exactly key value l ≡ true) ↔ IsExactly key value l
is_exactly_iff key value l = ground (arith, eq_iff l.key key, eq_iff l.value value)

Search-grow :
    (key value : String) (x : Label) (labels : List Label) (o : Option Label)
    → ¬ IsExactly key value x
    → Search key value labels o
    → Search key value (x ∷ labels) o
Search-grow key value x labels none other h = (other, h)
Search-grow key value x labels (some l) other h = (h.0, inr h.1)

first_where-Search :
    (key value : String) (labels : List Label)
    → Search key value labels (first_where (is_exactly key value) labels)
unfolding first_where
first_where-Search key value [] = tt
first_where-Search key value (x ∷ labels) = elim (Bool-cases (is_exactly key value x)) [
  | inl same ↦ rw same ((is_exactly_iff key value x).0 same, inl refl)
  | inr other ↦ rw other (
      Search-grow key value x labels (first_where (is_exactly key value) labels)
        (λ exact. cc ((is_exactly_iff key value x).1 exact, other))
        (first_where-Search key value labels))
]

module _ {W : Type 0} (requests : Requests W) (key value : String) (labels : List Label) (w w1 : W)
    (listed : requests.get_labels key value w ≡ (ok labels, w1)) where
  abbrev pub label_for : Owner → Label
  label_for owner = record {
    href = "";
    key = key;
    value = value;
    external_data_set = owner.data_set;
    external_data_reference = key <> "=" <> value;
  }

  ensured :
      (owner : Owner) (o : Option Label)
      → (try (or_not_found requests o) >>= or_create requests key value owner) w1
        ≡ (elim o [ some l ↦ (ok l, w1) | none ↦ requests.post_label (label_for owner) w1 ])
  unfolding ◌>>=◌ or_not_found or_create create_label is_label_not_found
  ensured owner none = refl
  ensured owner (some l) = refl

  -- EnsureLabel answers with a listed label whose key and value are exactly those asked for, without
  -- writing. Only if no listed label is one, it creates the label, whose external reference is its own
  -- `key=value`, and answers with what the PCE does.
  pub ensure_label_lem :
      (owner : Owner)
      → (o : Option Label) × Search key value labels o
        × (ensure_label requests key value owner w
            ≡ (elim o [ some l ↦ (ok l, w1) | none ↦ requests.post_label (label_for owner) w1 ]))
  unfolding ensure_label find_label ◌>>=◌
  ensure_label_lem owner = (
    first_where (is_exactly key value) labels,
    first_where-Search key value labels,
    rw (listed, resume) (ensured owner (first_where (is_exactly key value) labels)),
  )

first_where-IsOwnedBy :
    (owner : Owner) (sets : List RuleSet) → IsOwnedBy owner (first_where (is_owned_by owner) sets)
unfolding first_where
first_where-IsOwnedBy owner [] = tt
first_where-IsOwnedBy owner (rs ∷ sets) = elim (Bool-cases (is_owned_by owner rs)) [
  | inl mine ↦
      rw mine (
        ground
          (arith, eq_iff rs.external_data_reference owner.reference, eq_iff owner.reference ""))
  | inr other ↦ rw other (first_where-IsOwnedBy owner sets)
]

-- A ruleset that is found for an owner carries its reference, which is not empty: a ruleset that somebody
-- made without a reference is never taken for the operator's.
pub find_rule_set_by_owner-IsOwnedBy :
    {W : Type 0} (requests : Requests W) (owner : Owner)
    → Returns (IsOwnedBy owner) (find_rule_set_by_owner requests owner)
unfolding find_rule_set_by_owner
find_rule_set_by_owner-IsOwnedBy requests owner =
    Returns-after _ _ _ λ sets. Returns-pure _ _ (first_where-IsOwnedBy owner sets)
