-- ===== src/Exec/Triple.antt =====
-- Hoare triples: from a state with the precondition, an action that returns ends in a state that its
-- value fits, and an action that fails ends in a state of its own.
use illumio_k8s_utility_oper.Prelude.{◌≡◌, refl, Bool, true, false, if◌then◌else◌}
use illumio_k8s_utility_oper.Result.{Result, ok, err}
use illumio_k8s_utility_oper.Exec.Errors.{Error}
use illumio_k8s_utility_oper.Exec.Value.{Returns}
use illumio_k8s_utility_oper.Exec.{Exec, pure, raise, try, resume, ◌>>=◌}

-- Any state.
abbrev pub Any : {W : Type 0} → W → Type 0
Any w = Unit

abbrev pub Ends : {W A : Type 0} → (A → W → Type 0) → (W → Type 0) → Result Error A × W → Type 0
Ends Q E (ok a, w) = Q a w
Ends Q E (err e, w) = E w

pub record Triple {W A : Type 0} (P : W → Type 0) (Q : A → W → Type 0) (E : W → Type 0)
    (m : Exec W A) : Type 0 where
  pub run : (w : W) → P w → Ends Q E (m w)

module _ {W A : Type 0} (P : W → Type 0) (Q : A → W → Type 0) (E : W → Type 0) where
  pub Triple-pure : (a : A) → ((w : W) → P w → Q a w) → Triple P Q E (pure a)
  unfolding pure
  Triple-pure a f = record { run = f }

  pub Triple-raise : (e : Error) → ((w : W) → P w → E w) → Triple P Q E (raise e)
  unfolding raise
  Triple-raise e f = record { run = f }

  pub Triple-if :
      (b : Bool) (m n : Exec W A)
      → (b ≡ true → Triple P Q E m)
      → (b ≡ false → Triple P Q E n)
      → Triple P Q E (if b then m else n)
  Triple-if true m n km kn = km refl
  Triple-if false m n km kn = kn refl

  pub Triple-before :
      (P' : W → Type 0) (m : Exec W A) → ((w : W) → P w → P' w) → Triple P' Q E m → Triple P Q E m
  Triple-before P' m f k = record { run = λ w p. k.run w (f w p) }

  -- A call whose error is looked at.
  pub Triple-caught_value :
      (m : Exec W A)
      → Triple P Q E m
      → Triple P (λ (r : Result Error A) w. Ends Q E (r, w)) E (try m)
  unfolding try
  Triple-caught_value m k = record { run = k.run }

module _ {W A : Type 0} (P E : W → Type 0) where
  either : (t : Result Error A × W) → Ends (λ _. E) E t → E t.1
  either (ok a, w) h = h
  either (err e, w) h = h

  pub Triple-caught : (m : Exec W A) → Triple P (λ _. E) E m → Triple P (λ _. E) E (try m)
  unfolding try
  Triple-caught m k = record { run = λ w p. either (m w) (k.run w p) }

module _ {W A B : Type 0} (P : W → Type 0) (R : A → W → Type 0) (Q : B → W → Type 0)
    (E : W → Type 0) where
  resume-Ends :
      (t : Result Error A × W) (f : A → Exec W B)
      → Ends R E t
      → ((a : A) → Triple (R a) Q E (f a))
      → Ends Q E (resume t.0 f t.1)
  resume-Ends (ok a, w) f r kf = (kf a).run w r
  resume-Ends (err e, w) f r kf = r

  pub Triple-bind :
      (m : Exec W A) (f : A → Exec W B)
      → Triple P R E m
      → ((a : A) → Triple (R a) Q E (f a))
      → Triple P Q E (m >>= f)
  unfolding ◌>>=◌
  Triple-bind m f km kf = record { run = λ w p. resume-Ends (m w) f (km.run w p) kf }

module _ {W A : Type 0} (Q : A → Type 0) where
  returned :
      (t : Result Error A × W) → ((a : A) → t.0 ≡ ok a → Q a) → Ends (λ a w. Q a) (λ _. Unit {0}) t
  returned (ok a, w) f = f a refl
  returned (err e, w) f = tt

  -- What is known of a value that is returned from any state.
  pub Triple-Returns :
      (m : Exec W A) → Returns Q m → Triple (λ _. Unit {0}) (λ a w. Q a) (λ _. Unit {0}) m
  Triple-Returns m k = record { run = λ w _. returned (m w) (k.value w) }
