-- ===== src/Prelude/Text.antt =====
-- Numbers as decimal text, and what follows the last slash of a path.
use Prim.Native.Char.{code}
use Prim.Native.Nat.{ℕ, zero, suc, ◌/◌, ◌%◌}
use Prim.Native.String.{String, ◌++◌ as ◌<>◌}
use Prim.Native.String.append
use mathlib.Core.Path.{◌≡◌, refl}
use mathlib.Core.Option.{Option, none, some}
use illumio_k8s_utility_oper.Prelude.Tests.{ltb, ◌==◌, nat_eq, if◌then◌else◌}

digit : ℕ → String
digit n =
    if n == 0
    then "0"
    else if n == 1
    then "1"
    else if n == 2
    then "2"
    else if n == 3
    then "3"
    else if n == 4
    then "4"
    else if n == 5
    then "5"
    else if n == 6
    then "6"
    else if n == 7
    then "7"
    else if n == 8
    then "8"
    else "9"

-- On fuel: a number has at most as many digits as its value, and one more.
decimal_from : ℕ → ℕ → String
decimal_from zero n = digit n
decimal_from (suc fuel) n =
    let rest = decimal_from fuel (n / 10) in if ltb n 10 then digit n else rest <> digit (n % 10)

-- `fmt.Sprintf("%d", n)`
unfoldable pub decimal : ℕ → String
unfolding digit decimal_from
decimal n = decimal_from n n

-- `s[strings.LastIndex(s, "/")+1:]`, where there is a slash.
unfoldable pub after_last_slash : String → Option String
after_last_slash String.[] = none
after_last_slash (String.◌∷◌ c s) = elim (after_last_slash s) [
  | some rest ↦ some rest
  | none ↦ if code c == 47 then some s else none
]

abbrev pub or_else : String → Option String → String
or_else s none = s
or_else s (some rest) = rest

pub after_last_slash_append :
    (p s : String) → after_last_slash s ≡ none → after_last_slash (p <> ("/" <> s)) ≡ some s
unfolding after_last_slash
after_last_slash_append String.[] s h =
    rw (append.nil ("/" <> s), append.cons, append.nil s, h) refl
after_last_slash_append (String.◌∷◌ c p) s h =
    rw (append.cons c p ("/" <> s)) (rw (after_last_slash, after_last_slash_append p s h) refl)
