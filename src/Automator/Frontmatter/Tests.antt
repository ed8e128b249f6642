-- ===== src/Automator/Frontmatter/Tests.antt =====
-- Witnesses of the frontmatter.
use bowerbird.Base.{ℕ, ◌≡◌, refl, Option, none, some, List, [], ◌∷◌}
use bowerbird.Base.Text.{
  Text, codes, is_space, is_break, text_eq, strip, rstrip, drop_while, after_prefix, cut_at,
  splitlines,
}
use bowerbird.Automator.Json.{Json}
use bowerbird.Automator.Sprint.{trim_lines}
use bowerbird.Automator.Frontmatter.{
  quoted, listed, field_of, with_field, extract_frontmatter, unquote_scalar, front_line, value_of,
  parse_string_list_literal, parse_line, parse_lines, fields_of_lines, parse_simple_frontmatter,
  update_line, update_lines, join_lines, update_simple_frontmatter,
}
use bowerbird.Automator.Frontmatter.Range.{
  range_of_lines, read_story_range_from_state, last_action, extract_last_action,
}
use bowerbird.Automator.Frontmatter.File.{fields_of_lines-update_simple_frontmatter}

abbrev loads : Text → Option (Json ℕ)
loads s = none

abbrev state_lines : List Text
state_lines =
    codes "# Run"
    ∷ codes "epic: 1"
    ∷ codes "epicName: 'Start'"
    ∷ codes "stories:"
    ∷ codes "  - 1.1"
    ∷ []

fields_run :
    fields_of_lines loads state_lines
    ≡ (codes "epic", quoted (codes "1"))
      ∷ (codes "epicName", quoted (codes "Start"))
      ∷ (codes "stories", listed (codes "1.1" ∷ []))
      ∷ []
unfolding parse_lines parse_line front_line value_of parse_string_list_literal unquote_scalar
    with_field field_of strip rstrip drop_while is_space text_eq cut_at after_prefix
fields_run = refl

abbrev state_text : Text
state_text = codes "# Run\nepic: 1\nepicName: 'Start'\nstories:\n  - 1.1\n"

abbrev new_text : Text
new_text = codes "# Run\nepic: 2\nepicName: 'Start'\nstories:\n  - 1.1\n"

fields_of_lines-update_simple_frontmatter_example :
    field_of (codes "epicName") (fields_of_lines loads (trim_lines new_text))
    ≡ field_of (codes "epicName") (
        with_field
          (codes "epic")
          (value_of loads (strip is_space (codes "2")))
          (fields_of_lines loads (trim_lines state_text)))
unfolding update_simple_frontmatter update_lines update_line join_lines trim_lines splitlines
    is_break front_line strip rstrip drop_while is_space text_eq cut_at after_prefix
fields_of_lines-update_simple_frontmatter_example =
    fields_of_lines-update_simple_frontmatter loads (codes "epic") (codes "2")
      (refl, refl, refl, refl) refl refl refl state_text new_text (codes "epic" ∷ []) refl refl
      (codes "epicName")

-- Three hyphens within a value end the frontmatter.
cut_run :
    parse_simple_frontmatter loads (codes "---\ntitle: a---b\nepic: 1\n---\n")
    ≡ (codes "title", quoted (codes "a")) ∷ []
unfolding parse_simple_frontmatter extract_frontmatter trim_lines splitlines is_break parse_lines
    parse_line front_line value_of parse_string_list_literal unquote_scalar with_field strip rstrip
    drop_while is_space text_eq cut_at after_prefix
cut_run = refl

-- A line behind the frontmatter is updated too.
body_run :
    update_simple_frontmatter
      ((codes "status", codes "done") ∷ [])
      (codes "---\nstatus: new\n---\nstatus: see above\n")
    ≡ (some (codes "---\nstatus: done\n---\nstatus: done\n"), codes "status" ∷ codes "status" ∷ [])
unfolding update_simple_frontmatter update_lines update_line join_lines trim_lines splitlines
    is_break rstrip after_prefix
body_run = refl

-- Without a range in the frontmatter, the body's is read; a list in brackets needs `loads`.
range_run :
    read_story_range_from_state loads
      (codes "---\nepic: 1\n---\nstoryRange:\n  - 1.1\n  - '1.2'\nend: x\n- no\n")
    ≡ codes "1.1" ∷ codes "1.2" ∷ []
unfolding read_story_range_from_state range_of_lines parse_string_list_literal extract_frontmatter
    unquote_scalar trim_lines splitlines is_break strip rstrip drop_while is_space cut_at
    after_prefix
range_run = refl

action_run :
    extract_last_action (codes "## Action Log\n\n* started\n* done\n## Action Log\n")
    ≡ codes "started"
unfolding extract_last_action last_action trim_lines splitlines is_break strip rstrip drop_while
    is_space after_prefix
action_run = refl
