-- ===== src/Models/Requirement.antt =====
-- `_parse_gpu_requirement` of backend/app/services/model_service.py: texts like `2x A100`.
use Prim.Native.Char.{Char, code}
use Prim.Native.String.{String}
use my_frist_reop.Prelude.{
  ℕ, ◌+◌, ◌-◌, ◌*◌, Bool, true, false, ◌&&◌, ◌||◌, Option, none, some, max, leb, ◌==◌,
  if◌then◌else◌, ◌≡◌, refl,
}

abbrev pub is_empty : String → Bool
is_empty String.[] = true
is_empty (String.◌∷◌ c s) = false

-- `str.strip() or None`, once the text is stripped.
abbrev text_or_none : String → Option String
text_or_none s = if is_empty s then none else some s

abbrev is_newline : Char → Bool
is_newline c = code c == 10

-- `x?`
abbrev skip_x : String → String
skip_x String.[] = String.[]
skip_x (String.◌∷◌ c s) = if code c == 120 then s else String.◌∷◌ c s

-- `.*`, with what follows it.
abbrev line_and_rest : String → String × String
line_and_rest String.[] = (String.[], String.[])
line_and_rest (String.◌∷◌ c s) =
    let r = line_and_rest s in
    if is_newline c then (String.[], String.◌∷◌ c s) else (String.◌∷◌ c r.0, r.1)

-- `\s` of Python's table of characters.
module _ (is_space : Char → Bool) where
  -- `\s*`
  abbrev pub skip_spaces : String → String
  skip_spaces String.[] = String.[]
  skip_spaces (String.◌∷◌ c s) =
      let rest = skip_spaces s in if is_space c then rest else String.◌∷◌ c s

  abbrev all_spaces : String → Bool
  all_spaces String.[] = true
  all_spaces (String.◌∷◌ c s) = is_space c && all_spaces s

  -- `str.rstrip`
  abbrev pub rstrip : String → String
  rstrip String.[] = String.[]
  rstrip (String.◌∷◌ c s) =
      let rest = rstrip s in if is_empty rest && is_space c then String.[] else String.◌∷◌ c rest

-- `\d` as well; `digit` is a digit's value.
module _ (is_space : Char → Bool) (digit : Char → Option ℕ) where
  -- `int` of the longest run of digits, on top of the value so far, with what follows.
  abbrev more_digits : ℕ → String → ℕ × String
  more_digits n String.[] = (n, String.[])
  more_digits n (String.◌∷◌ c s) = elim (digit c) [
    | none ↦ (n, String.◌∷◌ c s)
    | some d ↦ more_digits (n * 10 + d) s
  ]

  -- `(\d+)`
  abbrev number : String → Option (ℕ × String)
  number String.[] = none
  number (String.◌∷◌ c s) = elim (digit c) [ none ↦ none | some d ↦ some (more_digits d s) ]

  -- `\s*x?\s*(.*)\s*$` after the number: group 2, stripped. No shorter match of a part lets the rest
  -- match, since the only character that `.` does not take is a newline.
  unfoldable pub match_model : String → Option (Option String)
  match_model s =
      let r = line_and_rest (skip_spaces is_space (skip_x (skip_spaces is_space s))) in
      if all_spaces is_space r.1 then some (text_or_none (rstrip is_space r.0)) else none

  -- The match as a whole: the number and the model.
  unfoldable pub match_requirement : String → Option (ℕ × Option String)
  unfolding match_model
  match_requirement s = elim (number (skip_spaces is_space s)) [
    | none ↦ none
    | some (n, rest) ↦ elim (match_model rest) [ none ↦ none | some m ↦ some (n, m) ]
  ]

  -- `_parse_gpu_requirement`
  unfoldable pub parse_gpu_requirement : Option String → ℕ × Option String
  unfolding match_requirement
  parse_gpu_requirement none = (1, none)
  parse_gpu_requirement (some s) =
      if is_empty s
      then (1, none)
      else elim (match_requirement s) [ none ↦ (1, some s) | some (n, m) ↦ (max n 1, m) ]

abbrev pub ascii_digit : Char → Option ℕ
ascii_digit c = if leb 48 (code c) && leb (code c) 57 then some (code c - 48) else none

abbrev pub ascii_space : Char → Bool
ascii_space c = code c == 32 || is_newline c

parse_count : parse_gpu_requirement ascii_space ascii_digit (some " 24 x A100 ") ≡ (24, some "A100")
unfolding parse_gpu_requirement match_requirement match_model
parse_count = refl

parse_model : parse_gpu_requirement ascii_space ascii_digit (some "A100") ≡ (1, some "A100")
unfolding parse_gpu_requirement match_requirement match_model
parse_model = refl
