-- ===== src/Prelude/Order/Perm.antt =====
-- What does not depend on the order of a list: sums, lengths, and predicates over the entries.
use Prim.Native.Nat.{ℕ, ◌+◌}
use mathlib.Core.Path.{◌≡◌, refl, sym, ◌∙◌, subst}
use mathlib.Core.List.{List, [], ◌∷◌, Permᴰ}
use native.Mathlib.Omega.{arith}
use illumio_k8s_utility_oper.Prelude.Lists.{length, All}

module _ {A : Type 0} where
  abbrev pub sum_by : (A → ℕ) → List A → ℕ
  sum_by f [] = 0
  sum_by f (x ∷ xs) = f x + sum_by f xs

  pub perm-sum_by : (f : A → ℕ) {l m : List A} → Permᴰ l m → sum_by f l ≡ sum_by f m
  perm-sum_by f Permᴰ.nil = refl
  perm-sum_by f (Permᴰ.cons {a} {b} {l₁} {l₂} e p) = cc (perm-sum_by f p)
  perm-sum_by f (Permᴰ.swap {a} {b} {a'} {b'} {l} e e') = rw (e, e') (omega arith)
  perm-sum_by f (Permᴰ.trans p q) = perm-sum_by f p ∙ perm-sum_by f q

  pub perm-length : {l m : List A} → Permᴰ l m → length l ≡ length m
  perm-length Permᴰ.nil = refl
  perm-length (Permᴰ.cons e p) = rw (perm-length p) refl
  perm-length (Permᴰ.swap e e') = refl
  perm-length (Permᴰ.trans p q) = perm-length p ∙ perm-length q

  pub perm-All : (P : A → Type 0) {l m : List A} → Permᴰ l m → All P m → All P l
  perm-All P Permᴰ.nil h = tt
  perm-All P (Permᴰ.cons e p) (h, hs) = (subst P (sym e) h, perm-All P p hs)
  perm-All P (Permᴰ.swap e e') (h, (h', hs)) = (subst P (sym e) h', (subst P (sym e') h, hs))
  perm-All P (Permᴰ.trans p q) h = perm-All P p (perm-All P q h)
