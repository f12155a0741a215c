-- ===== src/Namespaces/Glob/Fuel.antt =====
-- How much fuel the pattern parsers need.
use mathlib.Core.Path.{subst}
use illumio_k8s_utility_oper.Prelude.{
  ℕ, zero, suc, ◌≤◌, ◌<◌, ◌≡◌, refl, ap, Bool, true, false, not, ◌&&◌, ◌||◌, Bool-cases, inl, inr,
  ◌⊎◌, Option, none, List, [], ◌∷◌, length, arith, ◌==◌, nat_eq,
}
use mathlib.Core.Path.{subst}
use illumio_k8s_utility_oper.Namespaces.Glob.{
  Token, Taken, malformed, took, took_before, get_esc, Class, bad_class, ranges_then, class_with,
  is_range_dash, after_first, parse_class, class_start, negated, cons_token, parse_tokens,
}

abbrev Shorter : List ℕ → Taken → Type 0
Shorter cs malformed = Unit
Shorter cs (took c rest) = length rest < length cs

took_before-Shorter :
    (c : ℕ) (rest cs : List ℕ) → length rest < length cs → Shorter cs (took_before c rest)
took_before-Shorter c [] cs h = tt
took_before-Shorter c (d ∷ rest) cs h = h

get_esc-Shorter : (cs : List ℕ) → Shorter cs (get_esc cs)
unfolding get_esc
get_esc-Shorter [] = tt
get_esc-Shorter (c ∷ []) = tt
get_esc-Shorter (c ∷ d ∷ rest) = elim (Bool-cases (c == b'-' || c == b']')) [
  | inl bad ↦ rw bad tt
  | inr fine ↦ rw fine (elim (Bool-cases (c == b'\\')) [
    | inl esc ↦ rw esc (took_before-Shorter d rest (c ∷ d ∷ rest) (omega arith))
    | inr plain ↦ rw plain (omega arith)
  ])
]

abbrev Left : List ℕ → Class → Type 0
Left cs bad_class = Unit
Left cs (ranges_then rs rest) = length rest < length cs

class_with-Left :
    (r : ℕ × ℕ) (k : Class) (cs ds : List ℕ)
    → length ds ≤ length cs
    → Left ds k
    → Left cs (class_with r k)
unfolding class_with
class_with-Left r bad_class cs ds le h = tt
class_with-Left r (ranges_then rs rest) cs ds le h = omega arith

Taken-cases : (t : Taken) → (t ≡ malformed) ⊎ ((c : ℕ) × (rest : List ℕ) × (t ≡ took c rest))
Taken-cases malformed = inl refl
Taken-cases (took c rest) = inr (c, rest, refl)

Class-cases :
    (k : Class)
    → (k ≡ bad_class) ⊎ ((rs : List (ℕ × ℕ)) × (rest : List ℕ) × (k ≡ ranges_then rs rest))
Class-cases bad_class = inl refl
Class-cases (ranges_then rs rest) = inr (rs, rest, refl)

taken_shorter : (cs rest : List ℕ) (c : ℕ) → get_esc cs ≡ took c rest → length rest < length cs
taken_shorter cs rest c e = subst (Shorter cs) e (get_esc-Shorter cs)

after_first_le : (cs : List ℕ) → length (after_first cs) ≤ length cs
after_first_le [] = omega arith
after_first_le (c ∷ cs) = omega arith

-- What is left behind a class is shorter than what the parser was given.
parse_class-Left : (fuel : ℕ) (first : Bool) (cs : List ℕ) → Left cs (parse_class fuel first cs)
unfolding parse_class
parse_class-Left zero first cs = tt
parse_class-Left (suc fuel) first [] = tt
parse_class-Left (suc fuel) first (c ∷ cs) = elim (Bool-cases (not first && (c == b']'))) [
  | inl closed ↦ rw (parse_class, closed) (omega arith)
  | inr unclosed ↦
      rw (parse_class, unclosed)
        (elim (Taken-cases (get_esc (c ∷ cs))) [
          | inl bad ↦ rw bad tt
          | inr (lo, rest, e) ↦ rw e (elim (Bool-cases (is_range_dash rest)) [
            | inl dash ↦ rw dash (elim (Taken-cases (get_esc (after_first rest))) [
              | inl bad ↦ rw bad tt
              | inr (hi, rest', e') ↦ rw e' (
                  class_with-Left (lo, hi) (parse_class fuel false rest') (c ∷ cs) rest'
                    (omega (
                      arith,
                      taken_shorter (c ∷ cs) rest lo e,
                      taken_shorter (after_first rest) rest' hi e',
                      after_first_le rest,
                    ))
                    (parse_class-Left fuel false rest'))
            ])
            | inr single ↦ rw single (
                class_with-Left (lo, lo) (parse_class fuel false rest) (c ∷ cs) rest
                  (omega (arith, taken_shorter (c ∷ cs) rest lo e))
                  (parse_class-Left fuel false rest))
          ])
        ])
]

-- As many characters as there are left are fuel enough for a class.
parse_class_more :
    (fuel : ℕ) (first : Bool) (cs : List ℕ)
    → length cs ≤ fuel
    → parse_class (suc fuel) first cs ≡ parse_class fuel first cs
unfolding parse_class
parse_class_more zero first [] le = refl
parse_class_more zero first (c ∷ cs) le = absurd (omega (arith, le))
parse_class_more (suc fuel) first [] le = refl
parse_class_more (suc fuel) first (c ∷ cs) le = elim (Bool-cases (not first && (c == b']'))) [
  | inl closed ↦ rw (parse_class, closed) refl
  | inr unclosed ↦
      rw (parse_class, unclosed)
        (elim (Taken-cases (get_esc (c ∷ cs))) [
          | inl bad ↦ rw bad refl
          | inr (lo, rest, e) ↦ rw e (elim (Bool-cases (is_range_dash rest)) [
            | inl dash ↦ rw dash (elim (Taken-cases (get_esc (after_first rest))) [
              | inl bad ↦ rw bad refl
              | inr (hi, rest', e') ↦ rw e' (
                  ap (class_with (lo, hi)) (
                    parse_class_more fuel false rest' (
                      omega (
                        arith,
                        le,
                        taken_shorter (c ∷ cs) rest lo e,
                        taken_shorter (after_first rest) rest' hi e',
                        after_first_le rest,
                      ))))
            ])
            | inr single ↦ rw single (
                ap (class_with (lo, lo)) (
                  parse_class_more fuel false rest
                    (omega (arith, le, taken_shorter (c ∷ cs) rest lo e))))
          ])
        ])
]

Left-weaken : (cs ds : List ℕ) (k : Class) → length cs ≤ length ds → Left cs k → Left ds k
Left-weaken cs ds bad_class le h = tt
Left-weaken cs ds (ranges_then rs rest) le h = omega arith

class_start-Left : (fuel : ℕ) (cs : List ℕ) → Left (zero ∷ cs) (class_start fuel cs)
unfolding class_start
class_start-Left fuel [] = tt
class_start-Left fuel (c ∷ cs) = elim (Bool-cases (c == b'^')) [
  | inl caret ↦ rw caret (
      Left-weaken cs (zero ∷ c ∷ cs) (parse_class fuel true cs) (omega arith)
        (parse_class-Left fuel true cs))
  | inr plain ↦ rw plain (
      Left-weaken (c ∷ cs) (zero ∷ c ∷ cs) (parse_class fuel true (c ∷ cs)) (omega arith)
        (parse_class-Left fuel true (c ∷ cs)))
]

class_left :
    (cs rest : List ℕ) (rs : List (ℕ × ℕ))
    → class_start (suc (length cs)) cs ≡ ranges_then rs rest
    → length rest ≤ length cs
class_left cs rest rs k =
    omega (arith, subst (Left (zero ∷ cs)) k (class_start-Left (suc (length cs)) cs))

abbrev after_escape : ℕ → List ℕ → Option (List Token)
after_escape fuel cs = elim cs [
  | [] ↦ none
  | d ∷ rest ↦ cons_token (Token.literal d) (parse_tokens fuel rest)
]

escaped :
    (fuel : ℕ) (cs : List ℕ)
    → ((rest : List ℕ) → length rest ≤ fuel → parse_tokens (suc fuel) rest ≡ parse_tokens fuel rest)
    → length cs ≤ fuel
    → after_escape (suc fuel) cs ≡ after_escape fuel cs
escaped fuel [] more le = refl
escaped fuel (d ∷ rest) more le = ap (cons_token (Token.literal d)) (more rest (omega (arith, le)))

-- A pattern's characters are fuel enough to parse it: more fuel gives the same tokens, so that a pattern
-- is refused for its form alone.
parse_tokens_more :
    (fuel : ℕ) (cs : List ℕ) → length cs ≤ fuel → parse_tokens (suc fuel) cs ≡ parse_tokens fuel cs
unfolding parse_tokens
parse_tokens_more zero [] le = refl
parse_tokens_more zero (c ∷ cs) le = absurd (omega (arith, le))
parse_tokens_more (suc fuel) [] le = refl
parse_tokens_more (suc fuel) (c ∷ cs) le = elim (Bool-cases (c == b'*')) [
  | inl e ↦
      rw (parse_tokens, e)
        (ap (cons_token Token.star) (parse_tokens_more fuel cs (omega (arith, le))))
  | inr e ↦
      rw (parse_tokens, e)
        (elim (Bool-cases (c == b'?')) [
          | inl e ↦
              rw e (ap (cons_token Token.any_char) (parse_tokens_more fuel cs (omega (arith, le))))
          | inr e ↦ rw e (elim (Bool-cases (c == b'[')) [
            | inl e ↦ rw e (elim (Class-cases (class_start (suc (length cs)) cs)) [
              | inl bad ↦ rw bad refl
              | inr (rs, rest, k) ↦ rw k (
                  ap (cons_token (Token.class (negated cs) rs))
                    (parse_tokens_more fuel rest (omega (arith, le, class_left cs rest rs k))))
            ])
            | inr e ↦ rw e (elim (Bool-cases (c == b'\\')) [
              | inl e ↦ rw e (escaped fuel cs (parse_tokens_more fuel) (omega (arith, le)))
              | inr e ↦ rw e (
                  ap (cons_token (Token.literal c)) (parse_tokens_more fuel cs (omega (arith, le))))
            ])
          ])
        ])
]
