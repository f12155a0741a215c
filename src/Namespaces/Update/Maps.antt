-- ===== src/Namespaces/Update/Maps.antt =====
-- Comparing label maps: a map agrees with itself, since it has each key once.
use illumio_k8s_utility_oper.Prelude.{
  String, ◌≡◌, refl, ◌∙◌, true, none, some, List, [], ◌∷◌, ◌++◌, arith, eq_iff, beq_refl,
  Bool-cases, inl, inr, ◌==◌, string_eq, nat_eq,
}
use illumio_k8s_utility_oper.Prelude.Dict.{Labels, lookup, insert, lookup-insert, NodupKeys}
use illumio_k8s_utility_oper.Namespaces.Update.{
  CwpLabel, assigned_label, current_hrefs, agrees, same_label_set,
}

pub NodupKeys-insert : (k v : String) (m : Labels) → NodupKeys m → NodupKeys (insert k v m)
NodupKeys-insert k v [] h = (refl, tt)
NodupKeys-insert k v ((j, u) ∷ m) h = elim (Bool-cases (j == k)) [
  | inl same ↦ rw same ((ground (arith, eq_iff j k, h.0)), h.1)
  | inr other ↦ rw other (
    lookup-insert k j v m ∙ ground (arith, eq_iff j k, eq_iff k j, h.0),
    NodupKeys-insert k v m h.1,
  )
]

-- Each entry of the first map is found in the second.
abbrev Found : Labels → Labels → Type 0
Found [] m = Unit
Found ((k, v) ∷ a) m = (lookup k m ≡ some v) × Found a m

Found-cons : (k v : String) (a m : Labels) → lookup k a ≡ none → Found a m → Found a ((k, v) ∷ m)
Found-cons k v [] m new h = tt
Found-cons k v ((j, u) ∷ a) m new h = (
  ground (arith, eq_iff j k, eq_iff k j, new, h.0),
  Found-cons k v a m (ground (arith, eq_iff j k, new)) h.1,
)

Found-self : (m : Labels) → NodupKeys m → Found m m
Found-self [] h = tt
Found-self ((k, v) ∷ m) h = (ground (arith, eq_iff k k), Found-cons k v m m h.0 (Found-self m h.1))

agrees-Found : (a m : Labels) → Found a m → agrees a m ≡ true
unfolding agrees
agrees-Found [] m h = refl
agrees-Found ((k, v) ∷ a) m h = ground (arith, eq_iff v v, h.0, agrees-Found a m h.1)

pub same_label_set_self : (m : Labels) → NodupKeys m → same_label_set m m ≡ true
unfolding same_label_set
same_label_set_self m h = rw beq_refl (agrees-Found m m (Found-self m h))

pub current_hrefs-append :
    (l : List CwpLabel) (k href : String) (m : Labels)
    → current_hrefs (l ++ (assigned_label k href ∷ [])) m ≡ insert k href (current_hrefs l m)
unfolding current_hrefs
current_hrefs-append [] k href m = refl
current_hrefs-append (x ∷ l) k href m = current_hrefs-append l k href _
