-- ===== src/Automator/Sprint.antt =====
-- `sprint_status_epic` of
-- .agents/skills/bmad-story-automator/src/story_automator/core/sprint.py, and `trim_lines`.
pub mod Tally
use bowerbird.Base.{
  ℕ, zero, suc, Bool, true, false, not, ◌&&◌, ◌||◌, ◌==◌, Option, none, some, is_some, List, [],
  ◌∷◌, ◌++◌, if◌then◌else◌,
}
use bowerbird.Base.Text.{
  Text, codes, is_space, text_eq, strip, rstrip, after_prefix, cut_at, first_word, splitlines,
}
use bowerbird.FileList.Story.{has}

-- `line.rstrip("\r")` on each line.
abbrev pub trimmed_all : List Text → List Text
trimmed_all [] = []
trimmed_all (line ∷ lines) = rstrip (λ c. c == 13) line ∷ trimmed_all lines

unfoldable pub trim_lines : Text → List Text
trim_lines text = trimmed_all (splitlines text)

abbrev pub begins : Text → Text → Bool
begins prefix line = is_some (after_prefix prefix line)

abbrev pub is_comment : Text → Bool
is_comment [] = true
is_comment (c ∷ s) = c == b'#'

abbrev pub is_of_epic : Text → Text → Bool
is_of_epic epic line = begins (epic ++ codes ".") line || begins (epic ++ codes "-") line

-- The key, and whether the first word behind the colon is `done`.
abbrev pub key_and_done : Option (Text × Text) → Option (Text × Bool)
key_and_done none = none
key_and_done (some (before, rest)) =
    some (strip is_space before, text_eq (first_word (strip is_space rest)) (codes "done"))

-- What a line says, unless the loop continues with the next.
abbrev pub entry_of : Text → Text → Option (Text × Bool)
entry_of epic line =
    if is_comment line || not (is_of_epic epic line)
    then none
    else key_and_done (cut_at (codes ":") line)

-- `stories` holds what `seen` does.
pub record Counted : Type 0 where
  pub stories : List Text
  pub done_count : ℕ

abbrev pub tally : Counted → Option (Text × Bool) → Counted
tally m none = m
tally m (some (key, done)) = if has m.stories key then m else record {
  stories = m.stories ++ (key ∷ []);
  done_count = (if done then suc m.done_count else m.done_count);
}

unfoldable pub count_lines : Text → List Text → Counted → Counted
count_lines epic [] m = m
count_lines epic (line ∷ lines) m =
    count_lines epic lines (tally m (entry_of epic (strip is_space line)))

-- `none` is a status file that does not exist.
unfoldable pub sprint_status_epic : Option Text → Text → Counted
sprint_status_epic none epic = record { stories = []; done_count = 0 }
sprint_status_epic (some content) epic =
    count_lines epic (trim_lines content) (record { stories = []; done_count = 0 })
