-- ===== src/Exec/Yields.antt =====
-- Actions that come to a value from every state, and what holds of it.
use illumio_k8s_utility_oper.Prelude.{◌≡◌, refl, Bool, true, false, if◌then◌else◌}
use illumio_k8s_utility_oper.Result.{Result, ok}
use illumio_k8s_utility_oper.Exec.Errors.{Error}
use illumio_k8s_utility_oper.Exec.{Exec, pure, try, resume, ◌>>=◌}

pub record Yields {W A : Type 0} (Q : A → Type 0) (m : Exec W A) : Type 0 where
  pub yield : (w : W) → (a : A) × ((m w).0 ≡ ok a) × Q a

module _ {W A : Type 0} (Q : A → Type 0) where
  pub Yields-pure : (a : A) → Q a → Yields {W = W} Q (pure a)
  unfolding pure
  Yields-pure a q = record { yield = λ w. (a, refl, q) }

  pub Yields-if :
      (b : Bool) (m n : Exec W A)
      → (b ≡ true → Yields Q m)
      → (b ≡ false → Yields Q n)
      → Yields Q (if b then m else n)
  Yields-if true m n ym yn = ym refl
  Yields-if false m n ym yn = yn refl

pub Yields-weaken :
    {W A : Type 0} (R Q : A → Type 0) (m : Exec W A)
    → Yields R m
    → ((a : A) → R a → Q a)
    → Yields Q m
Yields-weaken R Q m y f = record { yield = λ w. let (a, e, r) = y.yield w in (a, e, f a r) }

-- A call whose error is looked at comes to a value, about which nothing is known.
pub Yields-try : {W A : Type 0} (m : Exec W A) → Yields (λ _. Unit {0}) (try m)
unfolding try
Yields-try m = record { yield = λ w. ((m w).0, refl, tt) }

module _ {W A B : Type 0} (R : A → Type 0) (Q : B → Type 0) where
  resume-Yields :
      (r : Result Error A) (f : A → Exec W B) (w : W) (a : A)
      → r ≡ ok a
      → Yields Q (f a)
      → (b : B) × ((resume r f w).0 ≡ ok b) × Q b
  resume-Yields r f w a e y = rw e (y.yield w)

  pub Yields-bind :
      (m : Exec W A) (f : A → Exec W B)
      → Yields R m
      → ((a : A) → R a → Yields Q (f a))
      → Yields Q (m >>= f)
  unfolding ◌>>=◌
  Yields-bind m f ym yf = record {
    yield = λ w. let (a, e, known) = ym.yield w in resume-Yields (m w).0 f (m w).1 a e (yf a known);
  }
