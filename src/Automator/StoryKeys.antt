-- ===== src/Automator/StoryKeys.antt =====
-- The names of a story and its entry in the sprint status: `normalize_story_key` of
-- .agents/skills/bmad-story-automator/src/story_automator/core/story_keys.py, and
-- `sprint_status_get` of core/sprint.py. The regular expressions are functions by clauses.
pub mod Digits
pub mod Normal
use bowerbird.Base.{
  ℕ, Bool, true, false, not, ◌&&◌, ◌||◌, ◌==◌, Option, none, some, is_some, or_else, List, [], ◌∷◌,
  ◌++◌, map, every, if◌then◌else◌,
}
use bowerbird.Base.Text.{
  Text, codes, is_space, text_eq, after_prefix, drop_while, take_while, cut_at,
}

pub record StoryKey : Type 0 where
  pub id : Text
  pub prefix : Text
  pub key : Text

abbrev pub is_empty : Text → Bool
is_empty [] = true
is_empty (c ∷ s) = false

abbrev pub joined : Text × Text → Text
joined (first, second) = first ++ (45 ∷ second)

-- `s.replace(c, d)`, for single characters
unfoldable pub replace : ℕ → ℕ → Text → Text
replace c d [] = []
replace c d (e ∷ s) = (if e == c then d else e) ∷ replace c d s

-- The first match of a pattern that begins with `^`, in the multiline mode: at the start, or behind
-- a newline.
unfoldable pub search_lines : (Text → Option (Text × Text)) → Bool → Text → Option (Text × Text)
search_lines match_at starts [] = if starts then match_at [] else none
search_lines match_at starts (c ∷ s) =
    let rest = search_lines match_at (c == 10) s in
    if starts then or_else (match_at (c ∷ s)) rest else rest

-- `\s*(\S+)`, with the name that the match is for.
abbrev pub status_behind : Text → Text → Option (Text × Text)
status_behind name s =
    let status = take_while (λ c. not (is_space c)) (drop_while is_space s) in
    if is_empty status then none else some (name, status)

-- What stands behind `:`, if that comes next.
abbrev pub behind_colon : Text → Option Text
behind_colon [] = none
behind_colon (c ∷ s) = if c == 58 then some s else none

-- `^\s*KEY:\s*(\S+)`, for a key that does not begin with a space.
unfoldable pub status_at : Text → Text → Option (Text × Text)
status_at key s = elim (after_prefix key (drop_while is_space s)) [
  | none ↦ none
  | some rest ↦ elim (behind_colon rest) [ none ↦ none | some tail ↦ status_behind key tail ]
]

abbrev pub is_name_char : ℕ → Bool
is_name_char c = not (c == 58) && not (is_space c)

-- `^\s*(PREFIX-[^:\s]+)\s*:`, with what follows.
unfoldable pub entry_at : Text → Text → Option (Text × Text)
entry_at prefix s = elim (after_prefix (prefix ++ codes "-") (drop_while is_space s)) [
  | none ↦ none
  | some rest ↦
      let name = take_while is_name_char rest in
      if is_empty name
      then none
      else elim (behind_colon (drop_while is_space (drop_while is_name_char rest))) [
        | none ↦ none
        | some tail ↦ some (prefix ++ (45 ∷ name), tail)
      ]
]

abbrev pub entry_status_at : Text → Text → Option (Text × Text)
entry_status_at prefix s = elim (entry_at prefix s) [
  | none ↦ none
  | some (name, tail) ↦ status_behind name tail
]

pub record SprintStatus : Type 0 where
  pub found : Bool
  pub story : Text
  pub status : Text
  pub done : Bool

abbrev pub found_status : Text × Text → SprintStatus
found_status (story, status) = record {
  found = true;
  story = story;
  status = status;
  done = text_eq status (codes "done");
}

abbrev pub missing_status : Text → Text → SprintStatus
missing_status story status = record { found = false; story = story; status = status; done = false }

-- `is_digit` is `\d`.
module _ (is_digit : ℕ → Bool) where
  -- The digits in front of a character, and what follows it.
  abbrev pub behind_digits : ℕ → Text → Text → Option (Text × Text)
  behind_digits separator number [] = none
  behind_digits separator number (c ∷ s) =
      if c == separator && not (is_empty number) then some (number, s) else none

  unfoldable pub number_before : ℕ → Text → Option (Text × Text)
  number_before separator s =
      behind_digits separator (take_while is_digit s) (drop_while is_digit s)

  abbrev pub is_number : Text → Bool
  is_number s = not (is_empty s) && every is_digit s

  abbrev pub both_numbers : Option (Text × Text) → Option (Text × Text)
  both_numbers none = none
  both_numbers (some (first, rest)) = if is_number rest then some (first, rest) else none

  -- `re.fullmatch(r"\d+S\d+", s)`, for a separator S: the two numbers.
  unfoldable pub two_numbers : ℕ → Text → Option (Text × Text)
  two_numbers separator s = both_numbers (number_before separator s)

  -- `.+`, which no newline matches.
  abbrev pub with_name : Text → Option (Text × Text) → Option (Text × Text)
  with_name first none = none
  with_name first (some (second, name)) =
      if not (is_empty name) && every (λ c. not (c == 10)) name then some (first, second) else none

  abbrev pub number_and_name : Option (Text × Text) → Option (Text × Text)
  number_and_name none = none
  number_and_name (some (first, rest)) = with_name first (number_before 45 rest)

  -- `re.fullmatch(r"\d+-\d+-.+", s)`: the two numbers, which are `s.split("-", 2)[:2]`.
  unfoldable pub numbers_of_key : Text → Option (Text × Text)
  numbers_of_key s = number_and_name (number_before 45 s)

  -- `prefix` for the second search.
  abbrev pub search_prefix : Text → Text
  search_prefix story_key =
      if is_some (cut_at (codes ".") story_key)
      then replace 46 45 story_key
      else elim (numbers_of_key story_key) [ none ↦ story_key | some numbers ↦ joined numbers ]

  abbrev pub prefix_status : Text → Text → Text → SprintStatus
  prefix_status content story_key prefix =
      if is_some (two_numbers 45 prefix)
      then elim (search_lines (entry_status_at prefix) true content) [
        | some entry ↦ found_status entry
        | none ↦ missing_status story_key (codes "not_found")
      ]
      else missing_status story_key (codes "not_found")

  -- `none` is a status file that does not exist.
  unfoldable pub sprint_status_get : Option Text → Text → SprintStatus
  sprint_status_get none story_key = missing_status story_key (codes "unknown")
  sprint_status_get (some content) story_key =
      elim (search_lines (status_at story_key) true content) [
        | some entry ↦ found_status entry
        | none ↦ prefix_status content story_key (search_prefix story_key)
      ]

  -- `artifact` is the stem of the first file of the artifacts with a prefix, if there is one.
  module _ (artifact : Text → Option Text) (status : Option Text) where
    abbrev pub key_in_status : Text → Option Text → Text
    key_in_status prefix none = prefix
    key_in_status prefix (some content) = elim (search_lines (entry_at prefix) true content) [
      | some (name, _) ↦ name
      | none ↦ prefix
    ]

    abbrev pub key_of_prefix : Text → Text
    key_of_prefix prefix = elim (artifact prefix) [
      | none ↦ key_in_status prefix status
      | some [] ↦ key_in_status prefix status
      | some (c ∷ s) ↦ c ∷ s
    ]

    -- The three patterns in their order.
    abbrev pub named_by :
        Text → Option (Text × Text) → Option (Text × Text) → Option (Text × Text) → Option StoryKey
    named_by value (some _) _ _ =
        let prefix = replace 46 45 value in
        some record { id = value; prefix = prefix; key = key_of_prefix prefix }
    named_by value none (some _) _ =
        some record { id = replace 45 46 value; prefix = value; key = key_of_prefix value }
    named_by value none none (some numbers) =
        some record { id = replace 45 46 (joined numbers); prefix = joined numbers; key = value }
    named_by value none none none = none

    unfoldable pub normalize_story_key : Text → Option StoryKey
    normalize_story_key value =
        named_by value (two_numbers 46 value) (two_numbers 45 value) (numbers_of_key value)
