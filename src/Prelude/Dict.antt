-- ===== src/Prelude/Dict.antt =====
-- Go's maps with text keys, as association lists. The order of the entries is the order in which
-- `range` visits them, which Go leaves open: a theorem over all lists holds for every order.
use mathlib.Core.List.{List, [], ◌∷◌}
use mathlib.Core.Option.{Option, none, some}
use mathlib.Core.Path.{◌≡◌, refl}
use Prim.Native.String.{String}
use native.Mathlib.Omega.{arith}
use text.Mathlib.TextEquality.{eq_iff}
use illumio_k8s_utility_oper.Prelude.Tests.{◌==◌, string_eq, if◌then◌else◌}

abbrev pub Dict {ℓ} : Type ℓ → Type ℓ
Dict V = List (String × V)

-- `map[string]string`
abbrev pub Labels : Type 0
Labels = Dict String

module _ {ℓ} {V : Type ℓ} where
  -- `v, ok := m[k]`
  abbrev pub lookup : String → Dict V → Option V
  lookup wanted [] = none
  lookup wanted ((key, v) ∷ rest) = if key == wanted then some v else lookup wanted rest

  -- `m[k] = v`
  abbrev pub insert : String → V → Dict V → Dict V
  insert key new [] = (key, new) ∷ []
  insert key new ((other, old) ∷ rest) =
      if other == key then (key, new) ∷ rest else (other, old) ∷ insert key new rest

  pub lookup-insert :
      (key wanted : String) (new : V) (d : Dict V)
      → lookup wanted (insert key new d) ≡ (if key == wanted then some new else lookup wanted d)
  lookup-insert key wanted new [] = refl
  lookup-insert key wanted new ((other, old) ∷ rest) = ground (
    arith,
    lookup-insert key wanted new rest,
    eq_iff other key,
    eq_iff other wanted,
    eq_iff key wanted,
  )

-- `m[k]`, which is the empty text where the key is missing
abbrev pub get : Labels → String → String
get m k = elim (lookup k m) [ none ↦ "" | some v ↦ v ]

-- A Go map lists each key once.
abbrev pub NodupKeys {ℓ} : {V : Type ℓ} → Dict V → Type ℓ
NodupKeys [] = Unit
NodupKeys ((k, v) ∷ m) = (lookup k m ≡ none) × NodupKeys m
