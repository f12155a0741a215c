-- ===== src/Exec.antt =====
-- Effects: the cluster and the PCE change while the program runs and every call may fail. A function
-- that makes such calls is an action on the state `W` of both. The state comes back beside an error
-- too, since what was written before the error stays written.
pub mod Errors
pub mod Frame
pub mod Value
pub mod Yields
pub mod Costs
pub mod Triple
use illumio_k8s_utility_oper.Result.{Result, ok, err}
use Errors.{Error}

abbrev pub Exec : Type 0 → Type 0 → Type 0
Exec W A = W → Result Error A × W

module _ {W A : Type 0} where
  -- `return a, nil`
  unfoldable pub pure : A → Exec W A
  pure a w = (ok a, w)

  -- `return ..., err`
  unfoldable pub raise : Error → Exec W A
  raise e w = (err e, w)

  -- A call whose error the code looks at.
  unfoldable pub try : Exec W A → Exec W (Result Error A)
  try m w = let (r, w') = m w in (ok r, w')

module _ {W A B : Type 0} where
  abbrev pub resume : Result Error A → (A → Exec W B) → Exec W B
  resume (ok a) f w = f a w
  resume (err e) f w = (err e, w)

  infixl 5 ◌>>◌ ◌>>=◌
  -- Opening this opens `pure`, `raise` and `try` too.
  unfoldable pub ◌>>=◌ : Exec W A → (A → Exec W B) → Exec W B
  unfolding pure raise try
  ◌>>=◌ m f w = let (r, w') = m w in resume r f w'

  abbrev pub ◌>>◌ : Exec W A → Exec W B → Exec W B
  first >> second = first >>= λ _. second
