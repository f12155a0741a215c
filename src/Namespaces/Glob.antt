-- ===== src/Namespaces/Glob.antt =====
-- Go's `path.Match`, of which the program uses the Boolean alone: a malformed pattern matches nothing.
-- Texts are lists of code points. A pattern is cut into chunks at its stars, and each chunk is put at
-- the first place where it fits, as the library does.
mod Fuel
use Prim.Native.Char.{code}
use illumio_k8s_utility_oper.Prelude.{
  ℕ, zero, suc, String, Bool, true, false, not, ◌&&◌, ◌||◌, Option, none, some, List, [], ◌∷◌, ◌==◌,
  ◌≡◌, refl, nat_eq, leb, is_empty, length, if◌then◌else◌,
}

abbrev pub codes : String → List ℕ
codes String.[] = []
codes (String.◌∷◌ c s) = code c ∷ codes s

abbrev pub slash : ℕ
slash = b'/'

pub data Token : Type 0 where
  star any_char : Token
  literal : ℕ → Token
  -- `[lo-hi...]`, the flag for `[^...]`
  class : Bool → List (ℕ × ℕ) → Token

-- `getEsc`: one end of a range, which may be escaped and has something behind it.
pub data Taken : Type 0 where
  malformed : Taken
  took : ℕ → List ℕ → Taken

abbrev took_before : ℕ → List ℕ → Taken
took_before c [] = malformed
took_before c (d ∷ rest) = took c (d ∷ rest)

get_esc : List ℕ → Taken
get_esc [] = malformed
get_esc (c ∷ []) = malformed
get_esc (c ∷ d ∷ rest) =
    if c == b'-' || c == b']'
    then malformed
    else if c == b'\\'
    then took_before d rest
    else took c (d ∷ rest)

-- The ranges of a class up to its `]`, on fuel: each range takes a character.
pub data Class : Type 0 where
  bad_class : Class
  ranges_then : List (ℕ × ℕ) → List ℕ → Class

class_with : ℕ × ℕ → Class → Class
class_with r bad_class = bad_class
class_with r (ranges_then rs rest) = ranges_then (r ∷ rs) rest

is_range_dash : List ℕ → Bool
is_range_dash [] = false
is_range_dash (c ∷ rest) = c == b'-'

abbrev after_first : List ℕ → List ℕ
after_first [] = []
after_first (c ∷ rest) = rest

parse_class : ℕ → Bool → List ℕ → Class
parse_class zero first cs = bad_class
parse_class (suc fuel) first [] = bad_class
parse_class (suc fuel) first (c ∷ cs) = elim (not first && (c == b']')) [
  | true ↦ ranges_then [] cs
  | false ↦ elim (get_esc (c ∷ cs)) [
    | malformed ↦ bad_class
    | took lo rest ↦ elim (is_range_dash rest) [
      | true ↦ elim (get_esc (after_first rest)) [
        | malformed ↦ bad_class
        | took hi rest' ↦ class_with (lo, hi) (parse_class fuel false rest')
      ]
      | false ↦ class_with (lo, lo) (parse_class fuel false rest)
    ]
  ]
]

class_start : ℕ → List ℕ → Class
class_start fuel [] = bad_class
class_start fuel (c ∷ cs) =
    if c == b'^' then parse_class fuel true cs else parse_class fuel true (c ∷ cs)

negated : List ℕ → Bool
negated [] = false
negated (c ∷ cs) = c == b'^'

cons_token : Token → Option (List Token) → Option (List Token)
cons_token t none = none
cons_token t (some ts) = some (t ∷ ts)

-- The whole pattern, on fuel: each token takes a character.
parse_tokens : ℕ → List ℕ → Option (List Token)
parse_tokens fuel [] = some []
parse_tokens zero (c ∷ cs) = none
parse_tokens (suc fuel) (c ∷ cs) = elim (c == b'*') [
  | true ↦ cons_token star (parse_tokens fuel cs)
  | false ↦ elim (c == b'?') [
    | true ↦ cons_token any_char (parse_tokens fuel cs)
    | false ↦ elim (c == b'[') [
      | true ↦ elim (class_start (suc (length cs)) cs) [
        | bad_class ↦ none
        | ranges_then rs rest ↦ cons_token (class (negated cs) rs) (parse_tokens fuel rest)
      ]
      | false ↦ elim (c == b'\\') [
        | true ↦ elim cs [ [] ↦ none | d ∷ rest ↦ cons_token (literal d) (parse_tokens fuel rest) ]
        | false ↦ cons_token (literal c) (parse_tokens fuel cs)
      ]
    ]
  ]
]

-- A chunk: whether a star stands before it, and its tokens up to the next star.
abbrev pub Chunk : Type 0
Chunk = Bool × List Token

abbrev cut_step : Token → List Chunk → List Chunk
cut_step star [] = (true, []) ∷ []
-- `scanChunk` passes over adjacent stars.
cut_step star ((true, ts) ∷ rest) = (true, ts) ∷ rest
cut_step star ((false, ts) ∷ rest) = (true, ts) ∷ rest
cut_step t [] = (false, t ∷ []) ∷ []
cut_step t ((true, ts) ∷ rest) = (false, t ∷ []) ∷ (true, ts) ∷ rest
cut_step t ((false, ts) ∷ rest) = (false, t ∷ ts) ∷ rest

cut : List Token → List Chunk
cut [] = []
cut (t ∷ ts) = cut_step t (cut ts)

in_ranges : ℕ → List (ℕ × ℕ) → Bool
in_ranges c [] = false
in_ranges c ((lo, hi) ∷ rs) = (leb lo c && leb c hi) || in_ranges c rs

token_matches : Token → ℕ → Bool
token_matches star c = false
token_matches any_char c = not (c == slash)
token_matches (literal d) c = c == d
token_matches (class neg rs) c = if neg then not (in_ranges c rs) else in_ranges c rs

-- `matchChunk`: what is left of the name behind the chunk.
match_chunk : List Token → List ℕ → Option (List ℕ)
match_chunk [] name = some name
match_chunk (t ∷ ts) [] = none
match_chunk (t ∷ ts) (c ∷ name) = if token_matches t c then match_chunk ts name else none

-- A place is good if the chunk fits and, for the last chunk, nothing is left.
fits : Bool → Option (List ℕ) → Option (List ℕ)
fits last none = none
fits last (some rest) = if last && not (is_empty rest) then none else some rest

-- The loop `for i := 0; i < len(name) && name[i] != '/'; i++` behind a star.
skip : Bool → List Token → List ℕ → Option (List ℕ)
skip last ts [] = none
skip last ts (c ∷ name) =
    let later = skip last ts name in
    if c == slash
    then none
    else elim (fits last (match_chunk ts name)) [ none ↦ later | some rest ↦ some rest ]

place : Bool → Chunk → List ℕ → Option (List ℕ)
place last (starred, ts) name = elim (fits last (match_chunk ts name)) [
  | none ↦ if starred then skip last ts name else none
  | some rest ↦ some rest
]

no_slash : List ℕ → Bool
no_slash [] = true
no_slash (c ∷ name) = not (c == slash) && no_slash name

match_chunks : List Chunk → List ℕ → Bool
match_chunks [] name = is_empty name
match_chunks ((true, []) ∷ rest) name = no_slash name
match_chunks (chunk ∷ rest) name = elim (place (is_empty rest) chunk name) [
  | none ↦ false
  | some left ↦ match_chunks rest left
]

-- `ok, _ := path.Match(pattern, name)`
unfoldable pub path_match : String → String → Bool
unfolding get_esc class_with is_range_dash parse_class class_start negated cons_token parse_tokens
    cut in_ranges token_matches match_chunk fits skip place no_slash match_chunks
path_match pattern name = elim (parse_tokens (length (codes pattern)) (codes pattern)) [
  | none ↦ false
  | some tokens ↦ match_chunks (cut tokens) (codes name)
]

system_names :
    (path_match "kube-*" "kube-system" ≡ true)
    × (path_match "kube-*" "kube" ≡ false)
    × (path_match "default" "default" ≡ true)
    × (path_match "*-[a-c]?*" "team-b7-x" ≡ true)
    × (path_match "*-[^a-c]*" "team-b7" ≡ false)
    × (path_match "[a-" "a" ≡ false)
    × (path_match "*" "a/b" ≡ false)
    × (path_match "a**b" "axxb" ≡ true)
    × (path_match "a\\*b" "a*b" ≡ true)
unfolding path_match
system_names = (refl, refl, refl, refl, refl, refl, refl, refl, refl)
