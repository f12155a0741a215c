-- ===== src/Exec/Frame.antt =====
-- Frames: a property of the state that an action keeps, whether it returns or fails. There is one
-- rule for each way to build an action, so a frame says which calls an action can make: it keeps
-- whatever those calls keep.
use illumio_k8s_utility_oper.Prelude.{◌≡◌, refl, Bool, true, false, if◌then◌else◌}
use illumio_k8s_utility_oper.Result.{Result, ok, err}
use illumio_k8s_utility_oper.Exec.Errors.{Error}
use illumio_k8s_utility_oper.Exec.Value.{Returns}
use illumio_k8s_utility_oper.Exec.{Exec, pure, raise, try, resume, ◌>>=◌}

pub record Keeps {W A : Type 0} (P : W → Type 0) (m : Exec W A) : Type 0 where
  pub holds : (w : W) → P w → P (m w).1

module _ {W A : Type 0} {P : W → Type 0} where
  pub Keeps-pure : (a : A) → Keeps P (pure a)
  unfolding pure
  Keeps-pure a = record { holds = λ w p. p }

  pub Keeps-raise : (e : Error) → Keeps P (raise {A = A} e)
  unfolding raise
  Keeps-raise e = record { holds = λ w p. p }

  pub Keeps-try : (m : Exec W A) → Keeps P m → Keeps P (try m)
  unfolding try
  Keeps-try m k = record { holds = k.holds }

  pub Keeps-if : (b : Bool) (m n : Exec W A) → Keeps P m → Keeps P n → Keeps P (if b then m else n)
  Keeps-if true m n km kn = km
  Keeps-if false m n km kn = kn

  pub Keeps-if_known :
      (b : Bool) (m n : Exec W A)
      → (b ≡ true → Keeps P m)
      → (b ≡ false → Keeps P n)
      → Keeps P (if b then m else n)
  Keeps-if_known true m n km kn = km refl
  Keeps-if_known false m n km kn = kn refl

module _ {W A B : Type 0} {P : W → Type 0} where
  resume-Keeps :
      (r : Result Error A) (f : A → Exec W B) (w : W)
      → ((a : A) → r ≡ ok a → Keeps P (f a))
      → P w
      → P (resume r f w).1
  resume-Keeps (ok a) f w kf p = (kf a refl).holds w p
  resume-Keeps (err e) f w kf p = p

  pub Keeps-bind :
      (m : Exec W A) (f : A → Exec W B) → Keeps P m → ((a : A) → Keeps P (f a)) → Keeps P (m >>= f)
  unfolding ◌>>=◌
  Keeps-bind m f km kf = record {
    holds = λ w p. let (r, w') = m w in resume-Keeps r f w' (λ a _. kf a) (km.holds w p);
  }

  -- The rest may use what is known of the first value.
  pub Keeps-bind_known :
      (Q : A → Type 0) (m : Exec W A) (f : A → Exec W B)
      → Keeps P m
      → Returns Q m
      → ((a : A) → Q a → Keeps P (f a))
      → Keeps P (m >>= f)
  unfolding ◌>>=◌
  Keeps-bind_known Q m f km known kf = record {
    holds = λ w p.
        let (r, w') = m w in resume-Keeps r f w' (λ a e. kf a (known.value w a e)) (km.holds w p);
  }

pub ruleset frame_rules = (Keeps-pure, Keeps-raise, Keeps-try, Keeps-if, Keeps-bind)
