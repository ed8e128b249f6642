-- ===== src/Base/Text.antt =====
-- Python's `str` as a list of code points, with the methods that the scripts use.
use Prim.Native.Char.{code}
use Prim.Native.Nat.{ℕ}
use Prim.Native.String.{String}
use mathlib.Core.Path.{◌≡◌}
use mathlib.Core.Logic.{◌↔◌}
use mathlib.Core.Bool.{Bool, true, false, not, ◌&&◌, ◌||◌}
use mathlib.Core.Option.{Option, none, some}
use mathlib.Core.List.{List, [], ◌∷◌}
use native.Mathlib.Omega.{arith}
use bowerbird.Base.Tests.{leb, ◌==◌, if◌then◌else◌}

abbrev pub Text : Type 0
Text = List ℕ

-- The code points of a literal.
abbrev pub codes : String → Text
codes String.[] = []
codes (String.◌∷◌ c s) = code c ∷ codes s

abbrev pub within : ℕ → ℕ → ℕ → Bool
within lo hi c = leb lo c && leb c hi

-- `c.isspace()`, and `\s`
unfoldable pub is_space : ℕ → Bool
is_space c =
    within 9 13 c
    || within 28 32 c
    || c == 133
    || c == 160
    || c == 5760
    || within 8192 8202 c
    || within 8232 8233 c
    || c == 8239
    || c == 8287
    || c == 12288

-- The line boundaries of `splitlines`.
unfoldable pub is_break : ℕ → Bool
is_break c = within 10 13 c || within 28 30 c || c == 133 || within 8232 8233 c

unfoldable pub text_eq : Text → Text → Bool
text_eq [] [] = true
text_eq (x ∷ xs) (y ∷ ys) = x == y && text_eq xs ys
text_eq _ _ = false

pub text_eq_iff : (s t : Text) → (text_eq s t ≡ true) ↔ (s ≡ t)
unfolding text_eq
text_eq_iff (x ∷ s) (y ∷ t) = ground (arith, text_eq_iff s t)
text_eq_iff _ _ = ground arith

-- `s.startswith(t)`, with what follows.
unfoldable pub after_prefix : Text → Text → Option Text
after_prefix [] s = some s
after_prefix (c ∷ t) [] = none
after_prefix (c ∷ t) (d ∷ s) = if c == d then after_prefix t s else none

-- `s.lstrip(chars)`, for a test of characters.
unfoldable pub drop_while : (ℕ → Bool) → Text → Text
drop_while test [] = []
drop_while test (c ∷ s) = if test c then drop_while test s else c ∷ s

unfoldable pub take_while : (ℕ → Bool) → Text → Text
take_while test [] = []
take_while test (c ∷ s) = if test c then c ∷ take_while test s else []

abbrev pub trimmed : Bool → ℕ → Text → Text
trimmed true c [] = []
trimmed false c [] = c ∷ []
trimmed _ c (d ∷ r) = c ∷ d ∷ r

-- `s.rstrip(chars)`: what follows the last other character goes.
unfoldable pub rstrip : (ℕ → Bool) → Text → Text
rstrip test [] = []
rstrip test (c ∷ s) = trimmed (test c) c (rstrip test s)

unfoldable pub strip : (ℕ → Bool) → Text → Text
strip test s = rstrip test (drop_while test s)

-- The first of `s.split()`, or nothing.
unfoldable pub first_word : Text → Text
first_word s = take_while (λ c. not (is_space c)) (drop_while is_space s)

-- The text before the first occurrence of `sep` and the text behind it.
unfoldable pub cut_at : Text → Text → Option (Text × Text)
cut_at sep [] = none
cut_at sep (c ∷ s) = elim (after_prefix sep (c ∷ s)) [
  | some rest ↦ some ([], rest)
  | none ↦ elim (cut_at sep s) [ none ↦ none | some (before, rest) ↦ some (c ∷ before, rest) ]
]

-- A character in front of the first line.
abbrev pub in_front : ℕ → List Text → List Text
in_front c [] = (c ∷ []) ∷ []
in_front c (line ∷ lines) = (c ∷ line) ∷ lines

abbrev pub starts_newline : Text → Bool
starts_newline [] = false
starts_newline (c ∷ s) = c == 10

-- `s.splitlines()`; a carriage return and a newline are one boundary, the newline's.
unfoldable pub splitlines : Text → List Text
splitlines [] = []
splitlines (c ∷ s) =
    let rest = splitlines s in
    if c == 13 && starts_newline s then rest else if is_break c then [] ∷ rest else in_front c rest

-- `text.split(separator)`, for a separator of one character.
unfoldable pub split_on : ℕ → Text → List Text
split_on separator [] = [] ∷ []
split_on separator (c ∷ s) =
    let parts = split_on separator s in if c == separator then [] ∷ parts else in_front c parts
