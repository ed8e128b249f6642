-- ===== src/Automator/Range.antt =====
-- `parse_story_range` of
-- .agents/skills/bmad-story-automator/src/story_automator/core/epic_parser.py.
pub mod Indices
use bowerbird.Base.{
  ℕ, zero, suc, ◌-◌, Bool, true, false, not, ◌&&◌, ◌||◌, ◌==◌, ltb, leb, Option, none, some, List,
  [], ◌∷◌, length, get_elem?, every, exists, if◌then◌else◌, Result, ok, err, ◌>>=◌, foldl,
  value_error,
}
use bowerbird.Base.Int.{ℤ, pos, negsuc}
use bowerbird.Base.Text.{Text, codes, is_space, text_eq, strip, cut_at, split_on, in_front}

-- A `set` of numbers, as a list without duplicates.
abbrev pub elem : ℕ → List ℕ → Bool
elem i [] = false
elem i (x ∷ xs) = x == i || elem i xs

unfoldable pub add : ℕ → List ℕ → List ℕ
add x s = if elem x s then s else x ∷ s

-- `selected.update(range(low, low + n))`
unfoldable pub add_range : ℕ → ℕ → List ℕ → List ℕ
add_range low zero s = s
add_range low (suc n) s = add_range (suc low) n (add low s)

-- `text.replace(" ", "")`
unfoldable pub without_blanks : Text → Text
without_blanks [] = []
without_blanks (c ∷ s) = let rest = without_blanks s in if c == 32 then rest else c ∷ rest

-- The numbers of a set between 1 and the total.
unfoldable pub between : ℕ → List ℕ → List ℕ
between total [] = []
between total (x ∷ s) =
    let rest = between total s in if leb 1 x && leb x total then x ∷ rest else rest

unfoldable pub insert : ℕ → List ℕ → List ℕ
insert x [] = x ∷ []
insert x (y ∷ ys) = let later = insert x ys in if ltb y x then y ∷ later else x ∷ y ∷ ys

unfoldable pub sorted : List ℕ → List ℕ
sorted [] = []
sorted (x ∷ xs) = insert x (sorted xs)

-- `ids[index - 1]` for the indices that have one.
unfoldable pub ids_at : List Text → List ℕ → List Text
ids_at ids [] = []
ids_at ids (index ∷ rest) = elim (get_elem? ids (index - 1)) [
  | none ↦ ids_at ids rest
  | some id ↦ id ∷ ids_at ids rest
]

abbrev pub stripped : List Text → List Text
stripped [] = []
stripped (part ∷ parts) = strip is_space part ∷ stripped parts

abbrev pub ids_of : Text → List Text
ids_of [] = []
ids_of (c ∷ s) = stripped (split_on b',' (c ∷ s))

pub record Selection : Type 0 where
  pub indices : List ℕ
  pub story_ids : List Text
  pub count : ℕ

abbrev pub low_of : ℕ → ℕ → ℕ
low_of m n = if ltb n m then n else m

abbrev pub high_of : ℕ → ℕ → ℕ
high_of m n = if ltb n m then m else n

-- `str.lower`, `str.isdigit` on one character, and `int` on a text of such characters: it raises
-- a ValueError on those that are no decimal digits.
module _ (lower : Text → Text) (is_digit : ℕ → Bool) (int : Text → Option ℕ) where
  abbrev pub isdigit : Text → Bool
  isdigit [] = false
  isdigit (c ∷ s) = every is_digit (c ∷ s)

  abbrev pub to_int : Text → Result ℕ
  to_int s = elim (int s) [ none ↦ err value_error | some n ↦ ok n ]

  -- The body of the loop, for a part that is not empty and what it is cut into at a dash.
  abbrev pub select_from : List ℕ → Text → Option (Text × Text) → Result (List ℕ)
  select_from selected part none =
      if isdigit part then (to_int part >>= λ n. ok (add n selected)) else ok selected
  select_from selected part (some (start_raw, end_raw)) =
      if isdigit start_raw && isdigit end_raw
      then (to_int start_raw >>= λ start. to_int end_raw >>= λ end.
          let low = low_of start end in ok (add_range low (suc (high_of start end) - low) selected))
      else ok selected

  unfoldable pub select_part : List ℕ → Text → Result (List ℕ)
  select_part selected [] = ok selected
  select_part selected (c ∷ part) = select_from selected (c ∷ part) (cut_at (codes "-") (c ∷ part))

  unfoldable pub select : Text → ℕ → Result (List ℕ)
  select normalized total =
      if text_eq normalized (codes "all")
      then ok (add_range 1 total [])
      else foldl select_part [] (split_on b',' normalized)

  abbrev pub selection : ℕ → List Text → List ℕ → Selection
  selection total ids selected =
      let indices = sorted (between total selected) in
      record { indices = indices; story_ids = ids_at ids indices; count = length indices }

  abbrev pub in_range : Text → ℕ → Text → Result Selection
  in_range user_input total ids_csv =
      select (without_blanks (lower user_input)) total >>= λ selected.
      ok (selection total (ids_of ids_csv) selected)

  unfoldable pub parse_story_range : Text → ℤ → Text → Result Selection
  parse_story_range [] total ids_csv = err value_error
  parse_story_range (c ∷ s) (pos (suc total)) ids_csv = in_range (c ∷ s) (suc total) ids_csv
  parse_story_range (c ∷ s) _ ids_csv = err value_error
