-- ===== src/Exec/Value.antt =====
-- Values: what holds of each value that an action returns, from any state.
use mathlib.Core.Path.{subst}
use illumio_k8s_utility_oper.Prelude.{◌≡◌, ◌≢◌, refl, ap, Bool, true, false, if◌then◌else◌}
use illumio_k8s_utility_oper.Result.{Result, ok, err}
use illumio_k8s_utility_oper.Exec.Errors.{Error}
use illumio_k8s_utility_oper.Exec.{Exec, pure, raise, try, resume, ◌>>=◌}

pub record Returns {W A : Type 0} (Q : A → Type 0) (m : Exec W A) : Type 0 where
  pub value : (w : W) (a : A) → (m w).0 ≡ ok a → Q a

pub ok_injective : {A : Type 0} {a b : A} → ◌≡◌ {A = Result Error A} (ok a) (ok b) → a ≡ b
ok_injective h = cc

module _ {W A : Type 0} (Q : A → Type 0) where
  pub Returns-pure : (a : A) → Q a → Returns {W = W} Q (pure a)
  unfolding pure
  Returns-pure a q = record { value = λ w b h. subst Q (ok_injective h) q }

  pub Returns-raise : (e : Error) → Returns {W = W} Q (raise e)
  unfolding raise
  Returns-raise e = record { value = λ w b h. cc }

  pub Returns-if :
      (b : Bool) (m n : Exec W A) → Returns Q m → Returns Q n → Returns Q (if b then m else n)
  Returns-if true m n km kn = km
  Returns-if false m n km kn = kn

  pub Returns-weaken :
      (R : A → Type 0) (m : Exec W A) → Returns R m → ((a : A) → R a → Q a) → Returns Q m
  Returns-weaken R m k f = record { value = λ w a h. f a (k.value w a h) }

module _ {W A B : Type 0} (Q : A → Type 0) (R : B → Type 0) where
  resume-Returns :
      (r : Result Error A) (f : A → Exec W B) (w : W) (b : B)
      → ((a : A) → r ≡ ok a → Q a)
      → ((a : A) → Q a → Returns R (f a))
      → (resume r f w).0 ≡ ok b
      → R b
  resume-Returns (ok a) f w b kr kf h = (kf a (kr a refl)).value w b h
  resume-Returns (err e) f w b kr kf h = cc

  pub Returns-bind :
      (m : Exec W A) (f : A → Exec W B)
      → Returns Q m
      → ((a : A) → Q a → Returns R (f a))
      → Returns R (m >>= f)
  unfolding ◌>>=◌
  Returns-bind m f km kf = record {
    value = λ w b h. let (r, w') = m w in resume-Returns r f w' b (km.value w) kf h;
  }

module _ {W A B : Type 0} (R : B → Type 0) where
  -- Where nothing is known of the first value.
  pub Returns-after :
      (m : Exec W A) (f : A → Exec W B) → ((a : A) → Returns R (f a)) → Returns R (m >>= f)
  Returns-after m f kf =
      Returns-bind (λ _. Unit {0}) R m f (record { value = λ w a h. tt }) (λ a _. kf a)

abbrev pub OnOk : {A : Type 0} → (A → Type 0) → Result Error A → Type 0
OnOk Q (ok a) = Q a
OnOk Q (err e) = Unit

on_result :
    {A : Type 0} (Q : A → Type 0) (r : Result Error A) → ((a : A) → r ≡ ok a → Q a) → OnOk Q r
on_result Q (ok a) f = f a refl
on_result Q (err e) f = tt

pub Returns-try :
    {W A : Type 0} (Q : A → Type 0) (m : Exec W A) → Returns Q m → Returns (OnOk Q) (try m)
unfolding try
Returns-try Q m k = record {
  value = λ w r h. subst (OnOk Q) (ok_injective h) (on_result Q (m w).0 (k.value w));
}

-- Inversion of a successful step.
resume-eq-ok :
    {W A B : Type 0} (r : Result Error A) (f : A → Exec W B) (w w' : W) (b : B)
    → resume r f w ≡ (ok b, w')
    → (a : A) × (r ≡ ok a) × (f a w ≡ (ok b, w'))
resume-eq-ok (ok a) f w w' b h = (a, refl, h)
resume-eq-ok (err e) f w w' b h = cc

pub >>=-eq-ok :
    {W A B : Type 0} (m : Exec W A) (f : A → Exec W B) (w w'' : W) (b : B)
    → (m >>= f) w ≡ (ok b, w'')
    → (a : A) × (w' : W) × (m w ≡ (ok a, w')) × (f a w' ≡ (ok b, w''))
unfolding ◌>>=◌
>>=-eq-ok m f w w'' b h =
    let (r, w') = m w in
    let (a, e, rest) = resume-eq-ok r f w' w'' b h in (a, w', ap (λ x. (x, w')) e, rest)

pub pure-eq-ok : {W A : Type 0} (a b : A) (w w' : W) → pure a w ≡ (ok b, w') → (a ≡ b) × (w ≡ w')
unfolding pure
pure-eq-ok a b w w' h = (ok_injective (ap (λ t. t.0) h), ap (λ t. t.1) h)

pub raise-ne-ok : {W A : Type 0} (e : Error) (b : A) (w w' : W) → raise e w ≢ (ok b, w')
unfolding raise
raise-ne-ok e b w w' h = cc (ap (λ t. t.0) h)
