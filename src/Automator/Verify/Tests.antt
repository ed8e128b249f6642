-- ===== src/Automator/Verify/Tests.antt =====
-- Witnesses of the story keys and of the success verifiers.
use bowerbird.Base.{
  ℕ, Bool, true, false, not, ◌&&◌, ◌≡◌, refl, Option, none, some, [], ◌∷◌, every, if◌then◌else◌, ok,
  err, value_error,
}
use bowerbird.Base.Text.{
  Text, codes, is_space, text_eq, strip, rstrip, drop_while, take_while, after_prefix, cut_at,
  within,
}
use bowerbird.Config.Value.{scalar, array, table, nil, cons, end, field, get, put}
use bowerbird.Automator.Json.{Object, text, text_or_empty}
use bowerbird.Automator.Sprint.{sprint_status_epic}
use bowerbird.Automator.Sprint.Tally.{first_done, entries_of}
use bowerbird.Automator.StoryKeys.{
  StoryKey, replace, number_before, two_numbers, numbers_of_key, normalize_story_key, search_lines,
  status_at, entry_at, sprint_status_get,
}
use bowerbird.Automator.StoryKeys.Normal.{story_of_prefix, normalize_story_key_names}
use bowerbird.Automator.Verify.{
  ReviewContract, Project, Verdict, is_none, is_verified, sanitize_string_list, check_lists,
  update_with, pick_keys, inline_review_contract, validate_review_contract, merge_review_contract,
  load_review_contract, or_nothing, review_completion, epic_identifier, epic_complete,
}
use bowerbird.Automator.Verify.Contract.{IsLayered, load_review_contract-IsLayered}
use bowerbird.Automator.Verify.Judged.{
  is_complete, is_verified-review_completion, is_verified-epic_complete,
}

abbrev digit : ℕ → Bool
digit c = within 48 57 c

abbrev story : StoryKey
story = record { id = codes "1.2"; prefix = codes "1-2"; key = codes "1-2-login" }

abbrev status_file : Option Text
status_file = some (codes "1-2-login: Done\n 1-3-logout: done\n")

normalize_run : normalize_story_key digit (λ p. none) status_file (codes "1-2-login") ≡ some story
unfolding normalize_story_key two_numbers numbers_of_key number_before take_while drop_while replace
normalize_run = refl

normalize_story_key_names_example :
    (normalize_story_key digit (λ p. none) status_file (codes "1.2")
      ≡ some (story_of_prefix digit (λ p. none) status_file (codes "1.2") (codes "1-2")))
    × (normalize_story_key digit (λ p. none) status_file (codes "1-2")
        ≡ some (story_of_prefix digit (λ p. none) status_file (codes "1.2") (codes "1-2")))
normalize_story_key_names_example =
    normalize_story_key_names digit (λ p. none) status_file (refl, refl) (codes "1-2-login") story
      normalize_run

-- The status is looked up by the prefix where no line has the id.
status_run :
    sprint_status_get digit status_file (codes "1.2")
    ≡ record { found = true; story = codes "1-2-login"; status = codes "Done"; done = false }
unfolding sprint_status_get search_lines status_at entry_at two_numbers numbers_of_key number_before
    take_while drop_while replace after_prefix is_space cut_at text_eq
status_run = refl

-- An empty status is read from the next line.
empty_status_run :
    (sprint_status_get digit (some (codes "1.2:\ndone: x\n")) (codes "1.2")).status ≡ codes "done:"
unfolding sprint_status_get search_lines status_at take_while drop_while after_prefix is_space
empty_status_run = refl

abbrev contract : Object ℕ
contract =
    field "config" (table (field "doneValues" (array (cons (scalar (text " done ")) nil)) end)) end

-- A project where `lower` knows one word.
abbrev project : Project ℕ
project = record {
  truthy = λ x. false;
  shown_as = λ v. "";
  lower = λ s. if text_eq s (codes "Done") then codes "done" else s;
  is_digit = digit;
  contract_json = λ path. err value_error;
  sprint_file = status_file;
  artifact_stem = λ p. none;
  story_file_status = λ p. none;
}

abbrev review : ReviewContract
review = record {
  blocking_severity = codes "critical" ∷ [];
  done_values = codes "done" ∷ [];
  in_progress_values = codes "in-progress" ∷ codes "in_progress" ∷ codes "review" ∷ codes "qa" ∷ [];
  source_order = codes "sprint-status.yaml" ∷ codes "story-file" ∷ [];
  sync_sprint_status = true;
}

load_run : load_review_contract project contract ≡ ok review
unfolding load_review_contract merge_review_contract validate_review_contract check_lists
    update_with inline_review_contract pick_keys sanitize_string_list get put text_or_empty strip
    rstrip drop_while is_space text_eq
load_run = refl

load_review_contract-IsLayered_example : IsLayered project contract review
load_review_contract-IsLayered_example =
    load_review_contract-IsLayered project (λ path d h. cc) contract review load_run

is_verified-review_completion_example :
    (verdict : Verdict) × (review_completion project (codes "1-2-login") contract ≡ ok verdict)
    × (is_verified verdict
        ≡ is_complete project review
            (sprint_status_get digit status_file (codes "1.2")).status
            (or_nothing project none))
unfolding normalize_story_key two_numbers numbers_of_key number_before take_while drop_while replace
is_verified-review_completion_example =
    is_verified-review_completion project (codes "1-2-login") contract story review normalize_run
      load_run

complete_run : is_complete project review (codes "Done") [] ≡ true
unfolding text_eq
complete_run = refl

is_verified-epic_complete_example : is_verified (epic_complete project (codes "1-3")) ≡ (
    let stories = (sprint_status_epic status_file (codes "1")).stories in
    not (is_none stories) && every (λ s. first_done s (entries_of status_file (codes "1"))) stories)
unfolding epic_identifier normalize_story_key two_numbers numbers_of_key number_before take_while
    drop_while replace search_lines entry_at after_prefix is_space
is_verified-epic_complete_example = is_verified-epic_complete project (codes "1-3") [] 49 refl
