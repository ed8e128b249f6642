-- ===== src/Automator/Verify.antt =====
-- The success verifiers: `review_completion`, `epic_complete` and the review contract of
-- .agents/skills/bmad-story-automator/src/story_automator/core/success_verifiers.py. A failed check is
-- `policy_error`.
pub mod Keys
pub mod Contract
pub mod Judged
mod Tests
use bowerbird.Base.{
  ℕ, String, str_eq, Bool, true, false, not, ◌&&◌, ◌||◌, ◌==◌, Option, none, some, List, [], ◌∷◌,
  exists, every, length, if◌then◌else◌, Result, ok, err, ◌>>=◌, value_error, policy_error,
}
use bowerbird.Base.Text.{Text, codes, is_space, strip, text_eq, cut_at, take_while}
use bowerbird.Config.Value.{scalar, array, table, nil, cons, end, field, get, put}
use bowerbird.FileList.Story.{has}
use bowerbird.Automator.Json.{Json, Object, boolean, text, text_or_empty}
use bowerbird.Automator.Policy.{check, has_only, texts_of}
use bowerbird.Automator.Sprint.{sprint_status_epic, Counted}
use bowerbird.Automator.StoryKeys.{
  StoryKey, SprintStatus, sprint_status_get, normalize_story_key, is_empty, is_number,
}

abbrev pub allowed_review_contract_keys : List String
allowed_review_contract_keys =
    "blockingSeverity" ∷ "doneValues" ∷ "inProgressValues" ∷ "sourceOrder" ∷ "syncSprintStatus" ∷ []

abbrev pub allowed_review_sources : List Text
allowed_review_sources = codes "sprint-status.yaml" ∷ codes "story-file" ∷ []

-- A sanitized review contract.
pub record ReviewContract : Type 0 where
  pub blocking_severity : List Text
  pub done_values : List Text
  pub in_progress_values : List Text
  pub source_order : List Text
  pub sync_sprint_status : Bool

abbrev pub is_none : List Text → Bool
is_none [] = true
is_none (s ∷ ss) = false

-- `[value.strip() for value in values if value.strip()]`
unfoldable pub sanitize_string_list : List String → List Text
sanitize_string_list [] = []
sanitize_string_list (value ∷ values) =
    let rest = sanitize_string_list values in
    let s = strip is_space (codes value) in if is_empty s then rest else s ∷ rest

-- The checks of the two lists that must not be empty.
unfoldable pub check_lists : List Text → List Text → Result {0} Unit
check_lists done_values source_order = check (not (is_none done_values)) >>= λ checked.
    check (not (is_none source_order)) >>= λ checked'.
    check (every (has allowed_review_sources) source_order)

module _ {R : Type 0} where
  abbrev pub word_list : List String → Json R
  word_list [] = array nil
  word_list (s ∷ ss) = elim (word_list ss) [ array vs ↦ array (cons (scalar (text s)) vs) | v ↦ v ]

  abbrev pub default_review_contract : Object R
  default_review_contract = field "blockingSeverity" (word_list ("critical" ∷ [])) (
      field "doneValues" (word_list ("done" ∷ [])) (
        field "inProgressValues" (word_list ("in-progress" ∷ "in_progress" ∷ "review" ∷ "qa" ∷ []))
          (field "sourceOrder" (word_list ("sprint-status.yaml" ∷ "story-file" ∷ []))
            (field "syncSprintStatus" (scalar (boolean true)) end))))

  -- `merged.update(d)`
  unfoldable pub update_with : Object R → Object R → Object R
  update_with end merged = merged
  update_with (field key v rest) merged = update_with rest (put key v merged)

  abbrev pub picked : String → Option (Json R) → Object R → Object R
  picked key none inline = inline
  picked key (some v) inline = put key v inline

  -- The loop over the allowed keys; they differ, so their order does not matter for the values.
  unfoldable pub pick_keys : List String → Object R → Object R → Object R
  pick_keys [] d inline = inline
  pick_keys (key ∷ keys) d inline = pick_keys keys d (picked key (get key d) inline)

  abbrev pub config_of : Option (Json R) → Object R
  config_of (some (table d)) = d
  config_of _ = end

  unfoldable pub inline_review_contract : Object R → Object R
  inline_review_contract contract =
      pick_keys allowed_review_contract_keys contract
        (pick_keys allowed_review_contract_keys (config_of (get "config" contract)) end)

  abbrev pub string_array : Option (Json R) → Result (List String)
  string_array (some (array vs)) = texts_of vs
  string_array _ = err policy_error

  abbrev pub as_bool : Option (Json R) → Result Bool
  as_bool (some (scalar (boolean b))) = ok b
  as_bool _ = err policy_error

  -- `_validate_review_contract`, with `_sanitize_review_contract` behind it.
  unfoldable pub validate_review_contract : Object R → Result ReviewContract
  validate_review_contract contract =
      check (has_only allowed_review_contract_keys contract) >>= λ checked.
      string_array (get "blockingSeverity" contract) >>= λ blocking.
      string_array (get "doneValues" contract) >>= λ done.
      string_array (get "inProgressValues" contract) >>= λ progress.
      string_array (get "sourceOrder" contract) >>= λ order.
      as_bool (get "syncSprintStatus" contract) >>= λ sync.
      check_lists (sanitize_string_list done) (sanitize_string_list order) >>= λ checked'.
      ok record {
        blocking_severity = sanitize_string_list blocking;
        done_values = sanitize_string_list done;
        in_progress_values = sanitize_string_list progress;
        source_order = sanitize_string_list order;
        sync_sprint_status = sync;
      }

-- The files of a project, as the verifiers see them: what `json.loads(read_text(path))` gives for the
-- path of a contract, a JSONDecodeError being `value_error`; the status file; and two searches of the
-- artifacts by the prefix of a story, the stem of the first file and its `Status`. `lower` is
-- `str.lower`, `is_digit` is `\d`.
pub record Project (R : Type 0) : Type 0 where
  pub truthy : R → Bool
  pub shown_as : Json R → String
  pub lower : Text → Text
  pub is_digit : ℕ → Bool
  pub contract_json : Text → Result (Json R)
  pub sprint_file : Option Text
  pub artifact_stem : Text → Option Text
  pub story_file_status : Text → Option Text

-- What a verifier returns, up to the names that it repeats.
pub data Verdict : Type 0 where
  bad_key : Text → Verdict
  review_done : StoryKey → Text → Text → Text → Bool → Verdict
  review_incomplete : StoryKey → Text → Text → Verdict
  no_stories : Text → Verdict
  epic_result : Bool → Text → ℕ → ℕ → Verdict

abbrev pub is_verified : Verdict → Bool
is_verified (review_done _ _ _ _ _) = true
is_verified (epic_result verified _ _ _) = verified
is_verified _ = false

module _ {R : Type 0} (project : Project R) where
  open project use {
    truthy, shown_as, lower, is_digit, contract_json, sprint_file, artifact_stem, story_file_status,
  }

  abbrev pub update_json : Object R → Json R → Result (Object R)
  update_json merged (table d) = ok (update_with d merged)
  update_json merged _ = err policy_error

  abbrev pub decoded : Result (Json R) → Result (Json R)
  decoded (err value_error) = err policy_error
  decoded r = r

  -- The default, and the file of the contract over it.
  abbrev pub from_file : Text → Result (Object R)
  from_file [] = ok default_review_contract
  from_file (c ∷ path) =
      decoded (contract_json (c ∷ path)) >>= λ payload. update_json default_review_contract payload

  unfoldable pub merge_review_contract : Object R → Result (Object R)
  merge_review_contract contract =
      from_file
        (strip is_space (codes (text_or_empty truthy shown_as (get "contractPath" contract))))
      >>= λ merged. ok (update_with (inline_review_contract contract) merged)

  unfoldable pub load_review_contract : Object R → Result ReviewContract
  load_review_contract contract =
      merge_review_contract contract >>= λ merged. validate_review_contract merged

  abbrev pub normalized : Text → Option StoryKey
  normalized = normalize_story_key is_digit artifact_stem sprint_file

  abbrev pub or_nothing : Option Text → Text
  or_nothing none = []
  or_nothing (some s) = s

  abbrev pub or_unknown : Text → Text
  or_unknown [] = codes "unknown"
  or_unknown (c ∷ s) = c ∷ s

  abbrev pub lower_all : List Text → List Text
  lower_all [] = []
  lower_all (s ∷ ss) = lower s ∷ lower_all ss

  abbrev pub is_done : ReviewContract → Text → Bool
  is_done contract status = has (lower_all contract.done_values) (lower status)

  -- The loop over the sources; the last value of `review_done` is whether there is a note.
  unfoldable pub judge_sources :
      ReviewContract → StoryKey → SprintStatus → Text → List Text → Verdict
  judge_sources contract story sprint file_status [] =
      review_incomplete story sprint.status (or_unknown file_status)
  judge_sources contract story sprint file_status (source ∷ sources) =
      let rest = judge_sources contract story sprint file_status sources in
      if text_eq source (codes "sprint-status.yaml") && is_done contract sprint.status
      then review_done story sprint.status (or_unknown file_status) source false
      else if text_eq source (codes "story-file") && is_done contract file_status
      then review_done story sprint.status file_status source
          (contract.sync_sprint_status && not sprint.done)
      else rest

  abbrev pub judge_story : Object R → StoryKey → Result Verdict
  judge_story contract story = load_review_contract contract >>= λ review. ok (
      judge_sources review story (sprint_status_get is_digit sprint_file story.id)
        (or_nothing (story_file_status story.prefix)) review.source_order)

  unfoldable pub review_completion : Text → Object R → Result Verdict
  review_completion story_key contract = elim (normalized story_key) [
    | none ↦ ok (bad_key story_key)
    | some story ↦ judge_story contract story
  ]

  -- `re.fullmatch(r"\d+", story_key)`, or the part of the id in front of the full stop.
  unfoldable pub epic_identifier : Text → Text
  epic_identifier story_key =
      if is_number is_digit story_key then story_key else elim (normalized story_key) [
        | none ↦ []
        | some story ↦ take_while (λ c. not (c == 46)) story.id
      ]

  abbrev pub counted_verdict : Text → Counted → Verdict
  counted_verdict epic counted = elim counted.stories [
    | [] ↦ no_stories epic
    | story ∷ stories ↦
        epic_result (counted.done_count == length (story ∷ stories)) epic (length (story ∷ stories))
          counted.done_count
  ]

  unfoldable pub epic_complete : Text → Verdict
  epic_complete story_key = elim (epic_identifier story_key) [
    | [] ↦ bad_key story_key
    | c ∷ epic ↦ counted_verdict (c ∷ epic) (sprint_status_epic sprint_file (c ∷ epic))
  ]
