-- ===== src/Exec/Costs.antt =====
-- Costs: how far an action, whether it returns or fails, may raise a number of the state, such as the
-- calls made so far; and frames of the runs that fail.
use illumio_k8s_utility_oper.Prelude.{ℕ, ◌+◌, ◌≤◌, ◌≡◌, arith, Bool, true, false, if◌then◌else◌}
use illumio_k8s_utility_oper.Result.{Result, ok, err}
use illumio_k8s_utility_oper.Exec.Errors.{Error}
use illumio_k8s_utility_oper.Exec.Frame.{Keeps}
use illumio_k8s_utility_oper.Exec.{Exec, pure, try, resume, ◌>>=◌}

pub record Costs {W A : Type 0} (count : W → ℕ) (n : ℕ) (m : Exec W A) : Type 0 where
  pub bound : (w : W) → count (m w).1 ≤ count w + n

module _ {W A : Type 0} (count : W → ℕ) where
  -- Whatever keeps every bound of the number does not raise it.
  pub Costs-Keeps :
      (n : ℕ) (m : Exec W A) → ((k : ℕ) → Keeps (λ w. count w ≤ k) m) → Costs count n m
  Costs-Keeps n m k = record { bound = λ w. omega (arith, (k (count w)).holds w (omega arith)) }

  pub Costs-try : (n : ℕ) (m : Exec W A) → Costs count n m → Costs count n (try m)
  unfolding try
  Costs-try n m c = record { bound = c.bound }

  pub Costs-if :
      (n : ℕ) (b : Bool) (m m' : Exec W A)
      → Costs count n m
      → Costs count n m'
      → Costs count n (if b then m else m')
  Costs-if n true m m' c c' = c
  Costs-if n false m m' c c' = c'

module _ {W A B : Type 0} (count : W → ℕ) (i j : ℕ) where
  resume-Costs :
      (r : Result Error A) (f : A → Exec W B) (w : W)
      → ((a : A) → Costs count j (f a))
      → count (resume r f w).1 ≤ count w + j
  resume-Costs (ok a) f w c = (c a).bound w
  resume-Costs (err e) f w c = omega arith

  pub Costs-bind :
      (m : Exec W A) (f : A → Exec W B)
      → Costs count i m
      → ((a : A) → Costs count j (f a))
      → Costs count (i + j) (m >>= f)
  unfolding ◌>>=◌
  Costs-bind m f c cf = record {
    bound = λ w. omega (arith, c.bound w, resume-Costs (m w).0 f (m w).1 cf);
  }

-- Where the action ends with an error, the property is kept.
pub record FailsKeeping {W A : Type 0} (P : W → Type 0) (m : Exec W A) : Type 0 where
  pub failed : (w : W) (e : Error) → P w → (m w).0 ≡ err e → P (m w).1

module _ {W A : Type 0} (P : W → Type 0) where
  pub FailsKeeping-Keeps : (m : Exec W A) → Keeps P m → FailsKeeping P m
  FailsKeeping-Keeps m k = record { failed = λ w e p h. k.holds w p }

  pub FailsKeeping-if :
      (b : Bool) (m n : Exec W A)
      → FailsKeeping P m
      → FailsKeeping P n
      → FailsKeeping P (if b then m else n)
  FailsKeeping-if true m n km kn = km
  FailsKeeping-if false m n km kn = kn

module _ {W A B : Type 0} (P : W → Type 0) where
  resume-FailsKeeping :
      (r : Result Error A) (f : A → Exec W B) (w : W) (e : Error)
      → ((a : A) → FailsKeeping P (f a))
      → P w
      → (resume r f w).0 ≡ err e
      → P (resume r f w).1
  resume-FailsKeeping (ok a) f w e k p h = (k a).failed w e p h
  resume-FailsKeeping (err e') f w e k p h = p

  pub FailsKeeping-bind :
      (m : Exec W A) (f : A → Exec W B)
      → Keeps P m
      → ((a : A) → FailsKeeping P (f a))
      → FailsKeeping P (m >>= f)
  unfolding ◌>>=◌
  FailsKeeping-bind m f k kf = record {
    failed = λ w e p h. resume-FailsKeeping (m w).0 f (m w).1 e kf (k.holds w p) h;
  }

  -- A call whose error is dropped never fails.
  pub FailsKeeping-dropped : (m : Exec W A) (b : B) → FailsKeeping P (try m >>= λ _. pure b)
  unfolding ◌>>=◌
  FailsKeeping-dropped m b = record { failed = λ w e p h. cc h }
