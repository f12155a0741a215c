-- ===== src/Tests/Sorting.antt =====
-- A sort that does what `slices.SortFunc` documents.
use mathlib.Core.List.Permᴰ
use mathlib.Core.List.{Permᴰ}
use Prim.Native.Nat.{Ordering}
use illumio_k8s_utility_oper.Prelude.{
  ◌≡◌, refl, true, false, List, [], ◌∷◌, All, Bool-cases, inl, inr, if◌then◌else◌,
}
use illumio_k8s_utility_oper.Prelude.Order.{
  flip, at_most, IsOrderOn, IsAscending, Sorter, SorterIsLawful,
}
use illumio_k8s_utility_oper.Prelude.Order.Perm.{perm-All}
use illumio_k8s_utility_oper.Prelude.Order.Split.{All-zip}

module _ {A : Type 0} (cmp : A → A → Ordering) where
  insert_sorted : A → List A → List A
  insert_sorted x [] = x ∷ []
  insert_sorted x (y ∷ ys) = if at_most (cmp x y) then x ∷ y ∷ ys else y ∷ insert_sorted x ys

  insertion_sort : List A → List A
  unfolding insert_sorted
  insertion_sort [] = []
  insertion_sort (x ∷ xs) = insert_sorted x (insertion_sort xs)

  insert_sorted-perm : (x : A) (ys : List A) → Permᴰ (insert_sorted x ys) (x ∷ ys)
  unfolding insert_sorted
  insert_sorted-perm x [] = Permᴰ.refl (x ∷ [])
  insert_sorted-perm x (y ∷ ys) = elim (Bool-cases (at_most (cmp x y))) [
    | inl h ↦ rw h (Permᴰ.refl (x ∷ y ∷ ys))
    | inr h ↦ rw h (Permᴰ.trans (Permᴰ.cons refl (insert_sorted-perm x ys)) (Permᴰ.swap refl refl))
  ]

  insertion_sort-perm : (l : List A) → Permᴰ (insertion_sort l) l
  unfolding insertion_sort
  insertion_sort-perm [] = Permᴰ.nil
  insertion_sort-perm (x ∷ xs) =
      Permᴰ.trans (insert_sorted-perm x (insertion_sort xs))
        (Permᴰ.cons refl (insertion_sort-perm xs))

  module _ (P : A → Type 0) (order : IsOrderOn P cmp) where
    at_most-flip : (o : Ordering) → at_most o ≡ false → at_most (flip o) ≡ true
    at_most-flip Ordering.lt h = cc
    at_most-flip Ordering.eq h = cc
    at_most-flip Ordering.gt h = refl

    insert_sorted-IsAscending :
        (x : A) (ys : List A)
        → P x
        → All P ys
        → IsAscending cmp ys
        → IsAscending cmp (insert_sorted x ys)
    unfolding insert_sorted
    insert_sorted-IsAscending x [] px ps h = (tt, tt)
    insert_sorted-IsAscending x (y ∷ ys) px (py, ps) (h, hs) =
        elim (Bool-cases (at_most (cmp x y))) [
          | inl e ↦ rw e (
            (
              e,
              All-zip P (λ z. at_most (cmp y z) ≡ true) (λ z. at_most (cmp x z) ≡ true) ys
                  (λ z pz k. order.trans x y z px py pz e k) ps h,
            ),
            (h, hs),
          )
          | inr e ↦
              let before : at_most (cmp y x) ≡ true =
                rw (order.flips x y px py) (at_most-flip (cmp x y) e) in
              rw e (
                perm-All (λ z. at_most (cmp y z) ≡ true) (insert_sorted-perm x ys) (before, h),
                insert_sorted-IsAscending x ys px ps hs,
              )
        ]

    insertion_sort-IsAscending : (l : List A) → All P l → IsAscending cmp (insertion_sort l)
    unfolding insertion_sort
    insertion_sort-IsAscending [] ps = tt
    insertion_sort-IsAscending (x ∷ xs) (p, ps) =
        insert_sorted-IsAscending x (insertion_sort xs) p (perm-All P (insertion_sort-perm xs) ps)
          (insertion_sort-IsAscending xs ps)

unfoldable pub sorter : Sorter
unfolding insertion_sort
sorter = record { sort = insertion_sort }

pub sorter-IsLawful : SorterIsLawful sorter
unfolding sorter
sorter-IsLawful = record {
  sort-perm = λ cmp l. insertion_sort-perm cmp l;
  sort-IsAscending = λ P cmp l order ps. insertion_sort-IsAscending cmp P order l ps;
}
