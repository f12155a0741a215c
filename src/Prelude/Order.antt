-- ===== src/Prelude/Order.antt =====
-- Go's comparison functions, as `cmp.Compare` gives them, and `slices.SortFunc`, which is a parameter
-- with its documented behaviour: it is not stable, so it is known by its laws alone.
pub mod Perm
pub mod Split
use Prim.Native.Char.{code}
use Prim.Native.Nat.{ℕ, compare, Ordering}
use Prim.Native.String.{String}
use mathlib.Core.Path.{◌≡◌, refl, ap₂}
use mathlib.Core.Bool.{Bool, true, false}
use mathlib.Core.List.{List, [], ◌∷◌, Permᴰ}
use native.Mathlib.Omega.{arith}
use text.Mathlib.TextEquality.{codes_equal}
use illumio_k8s_utility_oper.Prelude.Lists.{All}

-- The second comparison decides where the first finds no difference.
abbrev pub then_by : Ordering → Ordering → Ordering
then_by Ordering.lt o = Ordering.lt
then_by Ordering.eq o = o
then_by Ordering.gt o = Ordering.gt

abbrev pub flip : Ordering → Ordering
flip Ordering.lt = Ordering.gt
flip Ordering.eq = Ordering.eq
flip Ordering.gt = Ordering.lt

abbrev pub at_most : Ordering → Bool
at_most Ordering.gt = false
at_most _ = true

-- `strings.Compare`: the order of the UTF-8 bytes is that of the code points.
unfoldable pub text_compare : String → String → Ordering
text_compare String.[] String.[] = Ordering.eq
text_compare String.[] (String.◌∷◌ d t) = Ordering.lt
text_compare (String.◌∷◌ c s) String.[] = Ordering.gt
text_compare (String.◌∷◌ c s) (String.◌∷◌ d t) =
    then_by (compare (code c) (code d)) (text_compare s t)

-- A comparison by which a list can be sorted: a total preorder.
pub record IsOrder {A : Type 0} (cmp : A → A → Ordering) : Type 0 where
  pub flips : (a b : A) → cmp b a ≡ flip (cmp a b)
  pub trans :
      (a b c : A) → at_most (cmp a b) ≡ true → at_most (cmp b c) ≡ true → at_most (cmp a c) ≡ true

-- The same for the entries of which `P` holds.
pub record IsOrderOn {A : Type 0} (P : A → Type 0) (cmp : A → A → Ordering) : Type 0 where
  pub flips : (a b : A) → P a → P b → cmp b a ≡ flip (cmp a b)
  pub trans :
      (a b c : A)
      → P a
      → P b
      → P c
      → at_most (cmp a b) ≡ true
      → at_most (cmp b c) ≡ true
      → at_most (cmp a c) ≡ true

abbrev pub IsAscending : {A : Type 0} → (A → A → Ordering) → List A → Type 0
IsAscending cmp [] = Unit
IsAscending cmp (x ∷ xs) = All (λ y. at_most (cmp x y) ≡ true) xs × IsAscending cmp xs

pub record Sorter : Type 1 where
  pub sort : {A : Type 0} → (A → A → Ordering) → List A → List A

pub record SorterIsLawful (s : Sorter) : Type 1 where
  pub sort-perm : {A : Type 0} (cmp : A → A → Ordering) (l : List A) → Permᴰ (s.sort cmp l) l
  pub sort-IsAscending :
      {A : Type 0} (P : A → Type 0) (cmp : A → A → Ordering) (l : List A)
      → IsOrderOn P cmp
      → All P l
      → IsAscending cmp (s.sort cmp l)

All-Unit : {A : Type 0} (l : List A) → All (λ _. Unit {0}) l
All-Unit [] = tt
All-Unit (x ∷ l) = (tt, All-Unit l)

pub sort-IsOrder :
    {A : Type 0} (s : Sorter) (lawful : SorterIsLawful s) (cmp : A → A → Ordering) (l : List A)
    → IsOrder cmp
    → IsAscending cmp (s.sort cmp l)
sort-IsOrder s lawful cmp l o =
    lawful.sort-IsAscending (λ _. Unit {0}) cmp l
      (record { flips = λ a b _ _. o.flips a b; trans = λ a b c _ _ _. o.trans a b c }) (All-Unit l)

compare_flips : (a b : ℕ) → compare b a ≡ flip (compare a b)
compare_flips a b = ground arith

compare_trans :
    (a b c : ℕ)
    → at_most (compare a b) ≡ true
    → at_most (compare b c) ≡ true
    → at_most (compare a c) ≡ true
compare_trans a b c h k = ground arith

pub compare-IsOrder : IsOrder compare
compare-IsOrder = record { flips = compare_flips; trans = compare_trans }

flip-then_by_sym : (o p : Ordering) → then_by (flip o) (flip p) ≡ flip (then_by o p)
flip-then_by_sym Ordering.lt p = refl
flip-then_by_sym Ordering.eq p = refl
flip-then_by_sym Ordering.gt p = refl

module _ {A : Type 0} {f g : A → A → Ordering} (of : IsOrder f) (og : IsOrder g) where
  then_by_flips : (a b : A) → then_by (f b a) (g b a) ≡ flip (then_by (f a b) (g a b))
  then_by_flips a b = rw (of.flips a b, og.flips a b) (flip-then_by_sym (f a b) (g a b))

  then_by_trans :
      (a b c : A)
      → at_most (then_by (f a b) (g a b)) ≡ true
      → at_most (then_by (f b c) (g b c)) ≡ true
      → at_most (then_by (f a c) (g a c)) ≡ true
  then_by_trans a b c h k = ground (
    arith,
    of.flips a b,
    of.flips b c,
    of.flips a c,
    of.trans a b c,
    of.trans c a b,
    of.trans b c a,
    og.trans a b c,
  )

  pub then_by-IsOrder : IsOrder (λ a b. then_by (f a b) (g a b))
  then_by-IsOrder = record { flips = then_by_flips; trans = then_by_trans }

-- Comparing by a key.
pub on-IsOrder :
    {A B : Type 0} (key : A → B) (f : B → B → Ordering)
    → IsOrder f
    → IsOrder (λ a b. f (key a) (key b))
on-IsOrder key f o = record {
  flips = λ a b. o.flips (key a) (key b);
  trans = λ a b c. o.trans (key a) (key b) (key c);
}

-- The other way round.
pub swap-IsOrder : {A : Type 0} (f : A → A → Ordering) → IsOrder f → IsOrder (λ a b. f b a)
swap-IsOrder f o = record { flips = λ a b. o.flips b a; trans = λ a b c h k. o.trans c b a k h }

text_flips : (s t : String) → text_compare t s ≡ flip (text_compare s t)
unfolding text_compare
text_flips String.[] String.[] = refl
text_flips String.[] (String.◌∷◌ d t) = refl
text_flips (String.◌∷◌ c s) String.[] = refl
text_flips (String.◌∷◌ c s) (String.◌∷◌ d t) =
    rw (compare_flips (code c) (code d), text_flips s t)
      (flip-then_by_sym (compare (code c) (code d)) (text_compare s t))

text_trans :
    (s t u : String)
    → at_most (text_compare s t) ≡ true
    → at_most (text_compare t u) ≡ true
    → at_most (text_compare s u) ≡ true
unfolding text_compare
text_trans String.[] String.[] u h k = k
text_trans String.[] (String.◌∷◌ d t) String.[] h k = refl
text_trans String.[] (String.◌∷◌ d t) (String.◌∷◌ e u) h k = refl
text_trans (String.◌∷◌ c s) String.[] u h k = cc h
text_trans (String.◌∷◌ c s) (String.◌∷◌ d t) String.[] h k = k
text_trans (String.◌∷◌ c s) (String.◌∷◌ d t) (String.◌∷◌ e u) h k = ground (arith, text_trans s t u)

pub text_compare-IsOrder : IsOrder text_compare
text_compare-IsOrder = record { flips = text_flips; trans = text_trans }

pub text_compare_self : (s : String) → text_compare s s ≡ Ordering.eq
unfolding text_compare
text_compare_self String.[] = refl
text_compare_self (String.◌∷◌ c s) =
    let same : compare (code c) (code c) ≡ Ordering.eq = ground arith in
    rw (same, text_compare_self s) refl

then_by_eq : (o p : Ordering) → then_by o p ≡ Ordering.eq → (o ≡ Ordering.eq) × (p ≡ Ordering.eq)
then_by_eq Ordering.eq p h = (refl, h)
then_by_eq Ordering.lt p h = cc h
then_by_eq Ordering.gt p h = cc h

pub text_compare_eq : (s t : String) → text_compare s t ≡ Ordering.eq → s ≡ t
unfolding text_compare
text_compare_eq String.[] String.[] h = refl
text_compare_eq String.[] (String.◌∷◌ d t) h = cc h
text_compare_eq (String.◌∷◌ c s) String.[] h = cc h
text_compare_eq (String.◌∷◌ c s) (String.◌∷◌ d t) h =
    let (e, e') = then_by_eq (compare (code c) (code d)) (text_compare s t) h in
    ap₂ (λ x y. String.◌∷◌ x y) (codes_equal c d e) (text_compare_eq s t e')
