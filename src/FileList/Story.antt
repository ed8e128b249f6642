-- ===== src/FileList/Story.antt =====
-- scripts/check-file-list.py, the story's side: `extract_file_list`, `first_path_token` and
-- `looks_like_path`. The section's parameter is `\w` of `re` on a code point.
pub mod Entries
use bowerbird.Base.{
  ℕ, zero, suc, ◌-◌, Bool, true, false, not, ◌&&◌, ◌||◌, ◌==◌, ltb, leb, Option, none, some, List,
  [], ◌∷◌, ◌++◌, length, every, exists, if◌then◌else◌, or_else,
}
use bowerbird.Base.Text.{
  Text, codes, within, is_space, text_eq, after_prefix, drop_while, take_while, rstrip, strip,
  first_word, cut_at, splitlines,
}

-- A letter as `re.IGNORECASE` compares it; İ and ı count as i, and ſ as s.
abbrev pub same_letter : ℕ → ℕ → Bool
same_letter letter c =
    c == letter
    || c == letter - 32
    || (letter == b'i' && within 304 305 c)
    || (letter == b's' && c == 383)

unfoldable pub after_letters : Text → Text → Option Text
after_letters [] s = some s
after_letters (l ∷ letters) [] = none
after_letters (l ∷ letters) (c ∷ s) = if same_letter l c then after_letters letters s else none

-- At most three white spaces in front: `^\s{0,3}`.
abbrev pub indented : ℕ → Text → Text
indented zero s = s
indented (suc n) [] = []
indented (suc n) (c ∷ s) = if is_space c then indented n s else c ∷ s

-- The run of `#` at the head of a text.
abbrev pub hashes : Text → ℕ
hashes [] = 0
hashes (c ∷ s) = if c == b'#' then suc (hashes s) else 0

abbrev pub behind_hashes : Text → Text
behind_hashes [] = []
behind_hashes (c ∷ s) = if c == b'#' then behind_hashes s else c ∷ s

-- `\s+` and what follows, for what follows that is no white space.
abbrev pub behind_spaces : Text → Option Text
behind_spaces [] = none
behind_spaces (c ∷ s) = if is_space c then some (drop_while is_space s) else none

-- The level of `^\s{0,3}(#{1,6})\s+` and the rest of the line.
unfoldable pub heading : Text → Option (ℕ × Text)
heading line =
    let marks = indented 3 line in
    let level = hashes marks in
    if leb 1 level && leb level 6
    then elim (behind_spaces (behind_hashes marks)) [ none ↦ none | some rest ↦ some (level, rest) ]
    else none

-- ANY_HEADING wants a character behind the white space.
abbrev pub any_heading_of : Option (ℕ × Text) → Option ℕ
any_heading_of none = none
any_heading_of (some (level, [])) = none
any_heading_of (some (level, c ∷ rest)) = some level

unfoldable pub any_heading : Text → Option ℕ
any_heading line = any_heading_of (heading line)

-- BULLET: the mark, white space, and the rest; of white space alone the last one is the rest.
abbrev last_char : ℕ → Text → ℕ
last_char c [] = c
last_char c (d ∷ s) = last_char d s

abbrev pub bullet_rest : Text → Option Text
bullet_rest [] = none
bullet_rest (c ∷ []) = none
bullet_rest (c ∷ d ∷ s) =
    if is_space c
    then elim (drop_while is_space (d ∷ s)) [
      | [] ↦ some (last_char d s ∷ [])
      | e ∷ r ↦ some (e ∷ r)
    ]
    else none

abbrev pub is_mark : ℕ → Bool
is_mark c = c == b'-' || c == b'*' || c == b'+'

abbrev pub bullet_of : Text → Option Text
bullet_of [] = none
bullet_of (c ∷ s) = if is_mark c then bullet_rest s else none

unfoldable pub bullet : Text → Option Text
bullet line = bullet_of (drop_while is_space line)

-- `re.sub(r"^\*\*(.*?)\*\*", r"\1", content)`
abbrev pub bold_of : Text → Option Text → Text
bold_of content none = content
bold_of content (some s) = elim (cut_at (codes "**") s) [
  | none ↦ content
  | some (inner, rest) ↦ inner ++ rest
]

unfoldable pub strip_bold : Text → Text
strip_bold content = bold_of content (after_prefix (codes "**") content)

-- The text between a first back quote, which is taken off already, and the next.
abbrev pub quoted_of : Text → Option (Text × Text) → Text
quoted_of s (some (c ∷ inner, rest)) = c ∷ inner
quoted_of s _ = first_word s

abbrev pub quoted : Text → Text
quoted s = quoted_of s (cut_at (codes "`") s)

unfoldable pub raw_token : Text → Text
raw_token content = elim (after_prefix (codes "`") content) [
  | some s ↦ quoted s
  | none ↦ first_word content
]

abbrev pub is_tick : ℕ → Bool
is_tick c = c == b'`'

abbrev pub is_trailing : ℕ → Bool
is_trailing c = c == b',' || c == b';' || c == b':'

-- `re.sub(r"^\./", "", token)`
abbrev pub strip_dot_slash : Text → Text
strip_dot_slash token = elim (after_prefix (codes "./") token) [ none ↦ token | some rest ↦ rest ]

-- `token[:-1]` if it ends in a full stop.
unfoldable pub strip_stop : Text → Text
strip_stop [] = []
strip_stop (c ∷ []) = if c == b'.' then [] else c ∷ []
strip_stop (c ∷ d ∷ s) = c ∷ strip_stop (d ∷ s)

-- From the cut token to the tidied one.
unfoldable pub tidy : Text → Text
tidy token =
    strip_stop (strip_dot_slash (rstrip is_trailing (strip is_tick (strip is_space token))))

abbrev pub has : List Text → Text → Bool
has paths token = exists (text_eq token) paths

module _ (is_word : ℕ → Bool) where
  unfoldable pub is_path_char : ℕ → Bool
  is_path_char c = is_word c || c == b'.' || c == b'/' || c == b'@' || c == b'+' || c == b'-'

  -- PATH_CHARS, and the token is not empty.
  abbrev pub accepted : Text → Option Text
  accepted [] = none
  accepted (c ∷ s) = if every is_path_char (c ∷ s) then some (c ∷ s) else none

  unfoldable pub first_path_token : Text → Option Text
  first_path_token content = accepted (tidy (raw_token (strip_bold (strip is_space content))))

  -- `\b` behind `list`.
  abbrev pub at_boundary : Text → Bool
  at_boundary [] = true
  at_boundary (c ∷ s) = not (is_word c)

  abbrev pub list_word : Option Text → Bool
  list_word none = false
  list_word (some s) = elim (after_letters (codes "list") s) [
    | none ↦ false
    | some rest ↦ at_boundary rest
  ]

  abbrev pub file_word : Option Text → Bool
  file_word none = false
  file_word (some s) = list_word (behind_spaces s)

  abbrev pub file_list_of : Option (ℕ × Text) → Option ℕ
  file_list_of none = none
  file_list_of (some (level, rest)) =
      if file_word (after_letters (codes "file") rest) then some level else none

  -- FILE_LIST_HEADING, with its level.
  unfoldable pub file_list_heading : Text → Option ℕ
  file_list_heading line = file_list_of (heading line)

  unfoldable pub find_section : List Text → Option (ℕ × List Text)
  find_section [] = none
  find_section (line ∷ lines) = elim (file_list_heading line) [
    | some level ↦ some (level, lines)
    | none ↦ find_section lines
  ]

  abbrev pub ends_section : ℕ → Option ℕ → Bool
  ends_section level none = false
  ends_section level (some n) = leb n level

  -- The lines up to a heading of the same or a higher level.
  unfoldable pub section_body : ℕ → List Text → List Text
  section_body level [] = []
  section_body level (line ∷ lines) =
      if ends_section level (any_heading line) then [] else line ∷ section_body level lines

  abbrev pub token_of : Option Text → Option Text
  token_of none = none
  token_of (some content) = first_path_token content

  -- The loop over the body; `paths` holds what `seen` does.
  unfoldable pub collect : List Text → List Text → List Text
  collect [] paths = paths
  collect (line ∷ lines) paths = collect lines (elim (token_of (bullet line)) [
    | none ↦ paths
    | some token ↦ if has paths token then paths else paths ++ (token ∷ [])
  ])

  unfoldable pub extract_file_list : Text → List Text × Bool
  extract_file_list story_text = elim (find_section (splitlines story_text)) [
    | none ↦ ([], false)
    | some (level, lines) ↦ (collect (section_body level lines) [], true)
  ]

abbrev pub has_char : ℕ → Text → Bool
has_char c = exists (λ d. d == c)

unfoldable pub looks_like_path : List Text → Text → Bool
looks_like_path tracked token =
    has_char b'/' token || has_char b'.' token || exists (text_eq token) tracked
