-- ===== src/Automator/Tests.antt =====
-- Witnesses of the story automator.
use bowerbird.Base.{
  ℕ, ◌-◌, ◌+◌, ◌*◌, Bool, true, ◌&&◌, ◌≡◌, refl, Option, some, [], ◌∷◌, leb, ok, length,
}
use bowerbird.Base.Int.{pos}
use bowerbird.Base.Text.{
  split_on, Text, codes, within, text_eq, cut_at, after_prefix, is_space, strip, rstrip, drop_while,
}
use bowerbird.Automator.Range.{
  elem, add, add_range, without_blanks, between, insert, sorted, ids_at, Selection, select,
  select_part, parse_story_range, ids_of,
}
use bowerbird.Automator.Range.Indices.{ascends, wanted, parse_story_range_lem}
use bowerbird.FileList.Story.{has}
use bowerbird.Base.Text.{splitlines, is_break, first_word, take_while}
use bowerbird.Automator.Sprint.{count_lines, sprint_status_epic, trim_lines}
use bowerbird.Automator.Sprint.Tally.{
  distinct, has_entry, dones, entries_of, sprint_status_epic_lem,
}

abbrev same : Text → Text
same s = s

abbrev ascii_digit : ℕ → Bool
ascii_digit = within b'0' b'9'

abbrev value_of : ℕ → Text → ℕ
value_of n [] = n
value_of n (c ∷ s) = value_of (10 * n + (c - b'0')) s

abbrev decimal : Text → Option ℕ
decimal s = some (value_of 0 s)

abbrev chosen : Selection
chosen = record { indices = 1 ∷ 3 ∷ 4 ∷ []; story_ids = codes "a" ∷ codes "c" ∷ []; count = 3 }

parse_story_range_run :
    parse_story_range same ascii_digit decimal (codes "4-3, 1,x,9") (pos 5) (codes "a, b,c")
    ≡ ok chosen
unfolding parse_story_range select select_part split_on without_blanks add add_range between insert
    sorted ids_at text_eq cut_at after_prefix is_space strip rstrip drop_while
parse_story_range_run = refl

parse_story_range_lem_example :
    (ascends chosen.indices ≡ true)
    × ((i : ℕ)
        → elem i chosen.indices
          ≡ (leb 1 i && leb i 5)
            && wanted same ascii_digit decimal (without_blanks (codes "4-3, 1,x,9")) 5 i)
    × (chosen.count ≡ length chosen.indices)
    × (chosen.story_ids ≡ ids_at (ids_of (codes "a, b,c")) chosen.indices)
parse_story_range_lem_example =
    parse_story_range_lem same ascii_digit decimal (codes "4-3, 1,x,9") 5 (codes "a, b,c") chosen
      parse_story_range_run

abbrev sprint : Option Text
sprint = some (codes "1-1-a: done\n 1-2-b: review\n1-2-b: done\n2-1-c: done")

sprint_status_epic_run :
    sprint_status_epic sprint (codes "1")
    ≡ record { stories = codes "1-1-a" ∷ codes "1-2-b" ∷ []; done_count = 1 }
unfolding sprint_status_epic count_lines trim_lines splitlines is_break strip rstrip drop_while
    take_while first_word is_space after_prefix cut_at text_eq
sprint_status_epic_run = refl

sprint_status_epic_lem_example :
    (distinct (sprint_status_epic sprint (codes "1")).stories ≡ true)
    × ((key : Text)
        → has (sprint_status_epic sprint (codes "1")).stories key
          ≡ has_entry key (entries_of sprint (codes "1")))
    × ((sprint_status_epic sprint (codes "1")).done_count
        ≡ dones (sprint_status_epic sprint (codes "1")).stories (entries_of sprint (codes "1")))
sprint_status_epic_lem_example = sprint_status_epic_lem sprint (codes "1")
