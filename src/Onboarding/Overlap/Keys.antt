-- ===== src/Onboarding/Overlap/Keys.antt =====
-- Which keys are reported as an overlap.
use mathlib.Core.List.{Permᴰ}
use illumio_k8s_utility_oper.Prelude.{
  String, ◌≡◌, refl, sym, ap, ◌∙◌, Bool, ◌&&◌, ◌||◌, List, [], ◌∷◌, Bool-cases, inl, inr, arith,
  ◌==◌, string_eq,
}
use illumio_k8s_utility_oper.Prelude.Order.{
  text_compare, IsAscending, Sorter, SorterIsLawful, sort-IsOrder, text_compare-IsOrder,
}
use illumio_k8s_utility_oper.Policy.Resolve.{contains}
use illumio_k8s_utility_oper.Onboarding.Overlap.{common, overlap_keys}

or_swap : (p q r : Bool) → (p || (q || r)) ≡ (q || (p || r))
or_swap p q r = ground arith

perm-contains : (k : String) {l m : List String} → Permᴰ l m → contains l k ≡ contains m k
perm-contains k Permᴰ.nil = refl
perm-contains k (Permᴰ.cons e p) = rw (e, perm-contains k p) refl
perm-contains k (Permᴰ.swap {a} {b} {a'} {b'} {l} e e') =
    rw (e, e') (or_swap (b' == k) (a' == k) (contains l k))
perm-contains k (Permᴰ.trans p q) = perm-contains k p ∙ perm-contains k q

contains-common :
    (a b : List String) (k : String) → contains (common a b) k ≡ (contains a k && contains b k)
unfolding common
contains-common [] b k = refl
contains-common (x ∷ a) b k =
    let rest = contains-common a b k in
    elim (Bool-cases (x == k)) [
      | inl e ↦
          let same : contains b x ≡ contains b k = ap (contains b) ((string_eq.test_iff x k).0 e) in
          elim (Bool-cases (contains b x)) [
            | inl h ↦ rw (h, e) (sym (sym same ∙ h))
            | inr h ↦ rw (h, e, rest) (ground (arith, same, h))
          ]
      | inr e ↦ elim (Bool-cases (contains b x)) [
        | inl h ↦ rw (h, e, rest) refl
        | inr h ↦ rw (h, e, rest) refl
      ]
    ]

-- With a sort that sorts: a key is reported exactly if both sides have it, and the report is in
-- ascending order.
pub overlap_keys_lem :
    (sorter : Sorter)
    → SorterIsLawful sorter
    → (a b : List String)
    → ((k : String) → contains (overlap_keys sorter a b) k ≡ (contains a k && contains b k))
      × IsAscending text_compare (overlap_keys sorter a b)
unfolding overlap_keys
overlap_keys_lem sorter lawful a b = (
  λ k. perm-contains k (lawful.sort-perm text_compare (common a b)) ∙ contains-common a b k,
  sort-IsOrder sorter lawful text_compare (common a b) text_compare-IsOrder,
)
