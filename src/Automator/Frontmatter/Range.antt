-- ===== src/Automator/Frontmatter/Range.antt =====
-- The story range and the last action of a state file: `read_story_range_from_state` and
-- `extract_last_action` of
-- .agents/skills/bmad-story-automator/src/story_automator/core/frontmatter.py, on the file's text.
use bowerbird.Base.{
  ℕ, Bool, true, false, ◌&&◌, ◌||◌, ◌==◌, Option, none, some, List, [], ◌∷◌, ◌++◌, if◌then◌else◌,
}
use bowerbird.Base.Text.{Text, codes, is_space, after_prefix, drop_while, strip}
use bowerbird.Automator.Json.{Json}
use bowerbird.Automator.Sprint.{trim_lines, begins}
use bowerbird.Automator.StoryKeys.{is_empty}
use bowerbird.Automator.Frontmatter.{
  extract_frontmatter, unquote_scalar, is_entry, parse_string_list_literal,
}

-- What the loop over the lines of a block ends with: a list that is returned, or the items so far.
pub data RangeFound : Type 0 where
  returned : List Text → RangeFound
  collected : List Text → RangeFound

-- `stripped[1:]`, unquoted
abbrev pub item_text : Text → Text
item_text [] = []
item_text (c ∷ s) = unquote_scalar (strip is_space s)

module _ {R : Type 0} (loads : Text → Option (Json R)) where
  -- The first two arguments are `in_range` and `story_range`.
  unfoldable pub range_of_lines : Bool → List Text → List Text → RangeFound
  range_of_lines in_range found [] = collected found
  range_of_lines in_range found (line ∷ lines) =
      let stripped = strip is_space line in
      let begun = range_of_lines true found lines in
      let longer = range_of_lines in_range (found ++ (item_text stripped ∷ [])) lines in
      let rest = range_of_lines in_range found lines in
      elim (after_prefix (codes "storyRange:") stripped) [
        | some raw ↦ elim (parse_string_list_literal loads (strip is_space raw)) [
          | some strings ↦ returned strings
          | none ↦ begun
        ]
        | none ↦
            if in_range && begins (codes "-") stripped
            then longer
            else if in_range && is_entry line
            then collected found
            else rest
      ]

  -- A block that is blank, or without items, leaves the answer to the next.
  abbrev pub range_of_block : Text → List Text → List Text
  range_of_block block next =
      if is_empty (strip is_space block)
      then next
      else elim (range_of_lines false [] (trim_lines block)) [
        | returned strings ↦ strings
        | collected [] ↦ next
        | collected (s ∷ ss) ↦ s ∷ ss
      ]

  unfoldable pub read_story_range_from_state : Text → List Text
  read_story_range_from_state text =
      range_of_block (extract_frontmatter text) (range_of_block text [])

abbrev pub is_bullet : ℕ → Bool
is_bullet c = c == 42 || c == 32

-- The line after the next one, if there is one.
abbrev pub action_behind : List Text → Text → Text
action_behind (_ ∷ line ∷ _) rest = strip is_space (drop_while is_bullet (strip is_space line))
action_behind _ rest = rest

unfoldable pub last_action : List Text → Text
last_action [] = []
last_action (line ∷ lines) =
    let rest = last_action lines in
    if begins (codes "## Action Log") line then action_behind lines rest else rest

unfoldable pub extract_last_action : Text → Text
extract_last_action text = last_action (trim_lines text)
