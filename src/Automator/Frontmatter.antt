-- ===== src/Automator/Frontmatter.antt =====
-- The frontmatter of a state file or a story: `extract_frontmatter` to `update_simple_frontmatter` of
-- .agents/skills/bmad-story-automator/src/story_automator/core/frontmatter.py, and `unquote_scalar`
-- and `parse_string_list_literal` of core/utils.py. A function on a file takes the file's text.
pub mod Lines
pub mod Change
pub mod Agree
pub mod Range
pub mod Written
pub mod Update
pub mod File
mod Tests
use bowerbird.Base.{
  ℕ, Bool, true, false, not, ◌&&◌, ◌||◌, ◌==◌, Option, none, some, is_some, List, [], ◌∷◌, ◌++◌,
  map, if◌then◌else◌, ok, err,
}
use bowerbird.Base.Text.{Text, codes, is_space, text_eq, after_prefix, drop_while, strip, cut_at}
use bowerbird.Config.Value.{scalar, array, table}
use bowerbird.Automator.Json.{Json}
use bowerbird.Automator.Policy.{texts_of}
use bowerbird.Automator.Sprint.{trim_lines, begins, is_comment}
use bowerbird.Automator.StoryKeys.{is_empty}

pub data FieldValue : Type 0 where
  quoted : Text → FieldValue
  listed : List Text → FieldValue

-- A `dict` of the fields, in insertion order.
abbrev pub FrontFields : Type 0
FrontFields = List (Text × FieldValue)

unfoldable pub field_of : Text → FrontFields → Option FieldValue
field_of key [] = none
field_of key ((j, v) ∷ fields) = if text_eq j key then some v else field_of key fields

unfoldable pub with_field : Text → FieldValue → FrontFields → FrontFields
with_field key v [] = (key, v) ∷ []
with_field key v ((j, w) ∷ fields) =
    if text_eq j key then (j, v) ∷ fields else (j, w) ∷ with_field key v fields

abbrev pub is_nil : List Text → Bool
is_nil [] = true
is_nil (s ∷ ss) = false

abbrev pub dashes : Text
dashes = codes "---"

abbrev pub is_newline : ℕ → Bool
is_newline c = c == 10

-- `split_frontmatter`: the frontmatter and the rest.
unfoldable pub split_frontmatter : Text → Text × Text
split_frontmatter text = elim (after_prefix dashes text) [
  | none ↦ ([], text)
  | some rest ↦ elim (cut_at dashes rest) [
    | none ↦ ([], text)
    | some (front, body) ↦ (drop_while is_newline front, drop_while is_newline body)
  ]
]

unfoldable pub extract_frontmatter : Text → Text
extract_frontmatter text = elim (after_prefix dashes text) [
  | none ↦ []
  | some rest ↦ elim (cut_at dashes rest) [
    | none ↦ []
    | some (front, _) ↦ drop_while is_newline front
  ]
]

abbrev pub ends_in : ℕ → Text → Bool
ends_in c [] = false
ends_in c (d ∷ []) = d == c
ends_in c (d ∷ e ∷ s) = ends_in c (e ∷ s)

abbrev pub all_but_last : Text → Text
all_but_last [] = []
all_but_last (c ∷ []) = []
all_but_last (c ∷ d ∷ s) = c ∷ all_but_last (d ∷ s)

-- The quotation marks that surround a text go.
abbrev pub unquoted : Text → Text
unquoted [] = []
unquoted (c ∷ s) = if (c == 34 || c == 39) && ends_in c s then all_but_last s else c ∷ s

unfoldable pub unquote_scalar : Text → Text
unquote_scalar value = unquoted (strip is_space value)

-- What a line of the frontmatter says: a key and the text behind its colon, or neither.
pub data FrontLine : Type 0 where
  comment : FrontLine
  entry : Text → Text → FrontLine
  other : Text → FrontLine

-- `^\S[^:]*:`
abbrev pub is_entry : Text → Bool
is_entry [] = false
is_entry (c ∷ s) = not (is_space c) && is_some (cut_at (codes ":") s)

-- `line.split(":", 1)`, of a line with a colon.
abbrev pub entry_parts : Text → Option (Text × Text) → FrontLine
entry_parts line none = other (strip is_space line)
entry_parts line (some (key, raw)) = entry (strip is_space key) (strip is_space raw)

unfoldable pub front_line : Text → FrontLine
front_line line =
    if is_comment (strip is_space line)
    then comment
    else if is_entry line
    then entry_parts line (cut_at (codes ":") line)
    else other (strip is_space line)

-- `fields` and `current_key` of the loop.
pub record Parsing : Type 0 where
  pub fields : FrontFields
  pub current_key : Text

-- An item behind `-` is appended. The current key always holds a list, which its line has put there,
-- or the `dict` would get a new list.
abbrev pub appended : Text → Option FieldValue → FieldValue
appended item none = listed (item ∷ [])
appended item (some (listed items)) = listed (items ++ (item ∷ []))
appended item (some (quoted s)) = quoted s

-- The fields after a line of the characters `c` and `s`, for a current key.
abbrev pub item_fields : Text → ℕ → Text → FrontFields → FrontFields
item_fields key c s fields =
    if c == 45 && not (is_empty key)
    then with_field key (appended (unquote_scalar (strip is_space s)) (field_of key fields)) fields
    else fields

abbrev pub add_item : Parsing → Text → Parsing
add_item m [] = m
add_item m (c ∷ s) = record m { fields = item_fields m.current_key c s m.fields }

-- `loads` is `json.loads`, nothing for a JSONDecodeError.
module _ {R : Type 0} (loads : Text → Option (Json R)) where
  abbrev pub strings_of : Option (Json R) → Option (List Text)
  strings_of (some (array vs)) = elim (texts_of vs) [
    | ok strings ↦ some (map codes strings)
    | err _ ↦ none
  ]
  strings_of _ = none

  unfoldable pub parse_string_list_literal : Text → Option (List Text)
  parse_string_list_literal raw =
      let s = strip is_space raw in if is_empty s then none else strings_of (loads s)

  unfoldable pub value_of : Text → FieldValue
  value_of raw = elim (parse_string_list_literal raw) [
    | some strings ↦ listed strings
    | none ↦ quoted (unquote_scalar raw)
  ]

  unfoldable pub parse_line : Parsing → FrontLine → Parsing
  parse_line m comment = m
  parse_line m (entry key raw) =
      if is_empty raw
      then record { fields = with_field key (listed []) m.fields; current_key = key }
      else record { fields = with_field key (value_of raw) m.fields; current_key = [] }
  parse_line m (other line) = add_item m line

  unfoldable pub parse_lines : List Text → Parsing → Parsing
  parse_lines [] m = m
  parse_lines (line ∷ lines) m = parse_lines lines (parse_line m (front_line line))

  -- The fields of the lines of a frontmatter.
  abbrev pub fields_of_lines : List Text → FrontFields
  fields_of_lines lines = (parse_lines lines (record { fields = []; current_key = [] })).fields

  unfoldable pub parse_simple_frontmatter : Text → FrontFields
  parse_simple_frontmatter text = fields_of_lines (trim_lines (extract_frontmatter text))

  unfoldable pub find_frontmatter_value : Text → Text → Text
  find_frontmatter_value text key = elim (field_of key (parse_simple_frontmatter text)) [
    | none ↦ []
    | some (listed _) ↦ []
    | some (quoted s) ↦ s
  ]

-- `find_frontmatter_value_case`, from the lines of the frontmatter; `lower` is `str.lower`.
module _ (lower : Text → Text) where
  unfoldable pub find_line_case : Text → List Text → Text
  find_line_case key [] = []
  find_line_case key (line ∷ lines) = elim (cut_at (codes ":") line) [
    | none ↦ find_line_case key lines
    | some (left, raw) ↦
        let rest = find_line_case key lines in
        if text_eq (lower (strip is_space left)) (lower key)
        then unquote_scalar (strip is_space raw)
        else rest
  ]

  unfoldable pub find_frontmatter_value_case : Text → Text → Text
  find_frontmatter_value_case text key = find_line_case key (trim_lines (extract_frontmatter text))

-- `updates` is a `dict` of texts.
abbrev pub Updates : Type 0
Updates = List (Text × Text)

-- The loop over the updates for a line, with `lines[idx]` and `updated`.
unfoldable pub update_line : Text → Updates → Text × List Text → Text × List Text
update_line line [] now = now
update_line line ((key, value) ∷ updates) (now, updated) = update_line line updates (
    if begins (key ++ codes ":") line
    then (key ++ codes ": " ++ value, updated ++ (key ∷ []))
    else (now, updated))

unfoldable pub update_lines : Updates → List Text → List Text → List Text × List Text
update_lines updates [] updated = ([], updated)
update_lines updates (line ∷ lines) updated =
    let now = update_line line updates (line, updated) in
    let later = update_lines updates lines now.1 in (now.0 ∷ later.0, later.1)

-- `"\n".join(lines)`
unfoldable pub join_lines : List Text → Text
join_lines [] = []
join_lines (line ∷ []) = line
join_lines (line ∷ next ∷ lines) = line ++ (10 ∷ join_lines (next ∷ lines))

-- What is written, if anything, and the keys that were updated.
unfoldable pub update_simple_frontmatter : Updates → Text → Option Text × List Text
update_simple_frontmatter updates text =
    let (lines, updated) = update_lines updates (trim_lines text) [] in
    (if is_nil updated then none else some (join_lines lines ++ codes "\n"), updated)
