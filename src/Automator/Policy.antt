-- ===== src/Automator/Policy.antt =====
-- The orchestration policy and its validation: `_validate_policy_shape`, `step_contract`,
-- `review_max_cycles`, `crash_max_retries` and `parser_runtime_config` of
-- .agents/skills/bmad-story-automator/src/story_automator/core/runtime_policy.py. A PolicyError is
-- `policy_error`, without its text.
pub mod Shape
pub mod Merge
pub mod Disk
pub mod Assets
pub mod Paths
pub mod Load
pub mod StateFile
mod Tests
use bowerbird.Base.{
  ℕ, String, str_eq, Bool, true, false, not, ◌||◌, Option, none, some, is_some, List, [], ◌∷◌,
  every, exists, if◌then◌else◌, Result, ok, err, ◌>>=◌, type_error, value_error, attribute_error,
  policy_error,
}
use bowerbird.Base.Int.{ℤ, pos, lt_ℤ}
use bowerbird.Config.Value.{Value, scalar, array, table, Items, nil, cons, Fields, end, field, get}
use bowerbird.Automator.Json.{
  Json, Object, Scalar, null, boolean, int, real, text, is_truthy, text_or_empty,
}

abbrev pub valid_top_level_keys : List String
valid_top_level_keys = "version" ∷ "snapshot" ∷ "runtime" ∷ "workflow" ∷ "steps" ∷ []

abbrev pub valid_step_names : List String
valid_step_names = "create" ∷ "dev" ∷ "auto" ∷ "review" ∷ "retro" ∷ []

abbrev pub valid_verifiers : List String
valid_verifiers =
    "create_story_artifact" ∷ "session_exit" ∷ "review_completion" ∷ "epic_complete" ∷ []

abbrev pub valid_asset_names : List String
valid_asset_names = "skill" ∷ "workflow" ∷ "instructions" ∷ "checklist" ∷ "template" ∷ []

abbrev pub valid_parser_providers : List String
valid_parser_providers = "claude" ∷ []

abbrev pub is_among : List String → String → Bool
is_among valid s = exists (λ t. str_eq t s) valid

-- Python's operations on texts and floats; `whole_text` is `int(s)`, or nothing for a ValueError.
pub record Python (R : Type 0) : Type 0 where
  pub truthy : R → Bool
  pub shown_as : Json R → String
  pub strip : String → String
  pub lower : String → String
  pub whole : R → Result ℤ
  pub whole_text : String → Option ℤ

-- A statement that raises a PolicyError unless the test holds.
abbrev pub check : Bool → Result {0} Unit
check ok_to_go = if ok_to_go then ok tt else err policy_error

module _ {R : Type 0} where
  abbrev pub optional_dict : Option (Json R) → Result (Object R)
  optional_dict none = ok end
  optional_dict (some (scalar null)) = ok end
  optional_dict (some (table d)) = ok d
  optional_dict (some _) = err policy_error

  abbrev pub expect_optional_dict : Object R → String → Result (Object R)
  expect_optional_dict payload key = optional_dict (get key payload)

  -- The same but for the text of the error.
  abbrev pub expect_optional_nested_dict : Object R → String → Result (Object R)
  expect_optional_nested_dict = expect_optional_dict

  abbrev pub expect_step_dict : Object R → String → Result (Object R)
  expect_step_dict = expect_optional_dict

  -- `not set(d) - valid`
  abbrev pub has_only : List String → Object R → Bool
  has_only valid end = true
  has_only valid (field key v fs) = if is_among valid key then has_only valid fs else false

  abbrev pub is_text_or_absent : Option (Json R) → Bool
  is_text_or_absent none = true
  is_text_or_absent (some (scalar (text s))) = true
  is_text_or_absent (some _) = false

  -- A Boolean is an `int`.
  abbrev pub is_int_or_absent : Option (Json R) → Bool
  is_int_or_absent none = true
  is_int_or_absent (some (scalar (boolean b))) = true
  is_int_or_absent (some (scalar (int n))) = true
  is_int_or_absent (some _) = false

  abbrev pub as_dict : Option (Json R) → Result (Object R)
  as_dict (some (table d)) = ok d
  as_dict _ = err policy_error

  abbrev pub texts_of : Items (Scalar R) → Result (List String)
  texts_of nil = ok []
  texts_of (cons (scalar (text s)) vs) = texts_of vs >>= λ ss. ok (s ∷ ss)
  texts_of (cons _ vs) = err policy_error

  -- `any(item not in VALID_ASSET_NAMES for item in required)`; an item must be hashable.
  abbrev pub check_assets : Items (Scalar R) → Result {0} Unit
  check_assets nil = ok tt
  check_assets (cons (scalar (text s)) vs) =
      let rest = check_assets vs in if is_among valid_asset_names s then rest else err policy_error
  check_assets (cons (scalar _) vs) = err policy_error
  check_assets (cons _ vs) = err type_error

-- The parts of `workflow` that the validation reads.
pub record Workflow (R : Type 0) : Type 0 where
  pub workflow : Object R
  pub review : Object R
  pub crash : Object R

-- What `parser_runtime_config` returns.
pub record ParserConfig : Type 0 where
  pub provider : String
  pub model : String
  pub timeout_seconds : ℤ

module _ {R : Type 0} (python : Python R) where
  open python use {truthy, shown_as, strip, lower, whole, whole_text}

  -- `(value or {})`, on which `get` is called next
  abbrev pub dict_or_empty : Option (Json R) → Result (Object R)
  dict_or_empty (some (table d)) = ok d
  dict_or_empty value = if is_truthy truthy shown_as value then err attribute_error else ok end

  -- `value or []`, which must be a list
  abbrev pub list_or_empty : Option (Json R) → Result (Items (Scalar R))
  list_or_empty (some (array vs)) = ok vs
  list_or_empty value = if is_truthy truthy shown_as value then err policy_error else ok nil

  -- `str(d.get(key) or "").strip()`
  abbrev pub stripped : String → Object R → String
  stripped key d = strip (text_or_empty truthy shown_as (get key d))

  -- `int(d.get(key, default))`
  abbrev pub to_int : ℤ → Option (Json R) → Result ℤ
  to_int default none = ok default
  to_int default (some (scalar (boolean b))) = ok (pos (if b then 1 else 0))
  to_int default (some (scalar (int n))) = ok n
  to_int default (some (scalar (real x))) = whole x
  to_int default (some (scalar (text s))) = elim (whole_text s) [
    | none ↦ err value_error
    | some n ↦ ok n
  ]
  to_int default (some _) = err type_error

  unfoldable pub step_contract : Object R → String → Result (Object R)
  step_contract policy step =
      dict_or_empty (get "steps" policy) >>= λ steps. as_dict (get step steps)

  unfoldable pub review_max_cycles : Object R → Result ℤ
  review_max_cycles policy = dict_or_empty (get "workflow" policy) >>= λ workflow.
      dict_or_empty (get "repeat" workflow) >>= λ repeat.
      dict_or_empty (get "review" repeat) >>= λ review. to_int (pos 5) (get "maxCycles" review)

  unfoldable pub crash_max_retries : Object R → Result ℤ
  crash_max_retries policy = dict_or_empty (get "workflow" policy) >>= λ workflow.
      dict_or_empty (get "crash" workflow) >>= λ crash. to_int (pos 2) (get "maxRetries" crash)

  abbrev pub with_timeout : String → String → Option (Json R) → Result ParserConfig
  with_timeout provider model (some (scalar (int n))) =
      if lt_ℤ (pos 0) n
      then ok (record { provider = provider; model = model; timeout_seconds = n })
      else err policy_error
  with_timeout provider model _ = err policy_error

  unfoldable pub parser_runtime_config : Object R → Result ParserConfig
  parser_runtime_config policy = expect_optional_dict policy "runtime" >>= λ runtime.
      expect_optional_nested_dict runtime "parser" >>= λ parser.
      let provider = stripped "provider" parser in
      let model = stripped "model" parser in
      if not (is_among valid_parser_providers provider)
      then err policy_error
      else if str_eq model ""
      then err policy_error
      else with_timeout provider model (get "timeoutSeconds" parser)

  -- `((contract.get("success") or {}).get("verifier")) or ""`
  abbrev pub verifier_of : Object R → Result String
  verifier_of contract = dict_or_empty (get "success" contract) >>= λ success.
      ok (text_or_empty truthy shown_as (get "verifier" success))

  -- The body of the loop over the steps.
  unfoldable pub validate_contract : Json R → Result {0} Unit
  validate_contract (table contract) = expect_step_dict contract "assets" >>= λ assets.
      expect_step_dict contract "prompt" >>= λ prompt.
      expect_step_dict contract "parse" >>= λ parse.
      expect_step_dict contract "success" >>= λ success. verifier_of contract >>= λ verifier.
      check (is_among valid_verifiers verifier) >>= λ checked.
      list_or_empty (get "required" assets) >>= λ required. check_assets required
  validate_contract _ = err policy_error

  unfoldable pub validate_contracts : Object R → Result {0} Unit
  validate_contracts end = ok tt
  validate_contracts (field name contract rest) =
      validate_contract contract >>= λ checked. validate_contracts rest

  abbrev pub sequence_of : Object R → Result (List String)
  sequence_of workflow = list_or_empty (get "sequence" workflow) >>= λ items. texts_of items

  -- The checks after the sequence is read.
  unfoldable pub validate_steps : Object R → Object R → Object R → List String → Result {0} Unit
  validate_steps review crash steps sequence =
      check (is_int_or_absent (get "maxCycles" review)) >>= λ checked.
      check (is_int_or_absent (get "maxRetries" crash)) >>= λ checked'.
      check (every (λ step. is_some (get step steps)) sequence) >>= λ checked''.
      validate_contracts steps

  -- The checks of the keys, of `snapshot` and of `runtime`.
  unfoldable pub validate_runtime : Object R → Result ParserConfig
  validate_runtime policy = check (has_only valid_top_level_keys policy) >>= λ checked.
      expect_optional_dict policy "snapshot" >>= λ snapshot.
      check (is_text_or_absent (get "relativeDir" snapshot)) >>= λ checked'.
      expect_optional_dict policy "runtime" >>= λ runtime.
      expect_optional_nested_dict runtime "merge" >>= λ merge. parser_runtime_config policy

  unfoldable pub read_workflow : Object R → Result (Workflow R)
  read_workflow policy = expect_optional_dict policy "workflow" >>= λ workflow.
      expect_optional_nested_dict workflow "repeat" >>= λ repeat.
      expect_optional_nested_dict repeat "review" >>= λ review.
      expect_optional_nested_dict workflow "crash" >>= λ crash.
      ok (record { workflow = workflow; review = review; crash = crash })

  unfoldable pub validate_policy_shape : Object R → Result {0} Unit
  validate_policy_shape policy = validate_runtime policy >>= λ config.
      read_workflow policy >>= λ parts. as_dict (get "steps" policy) >>= λ steps.
      check (has_only valid_step_names steps) >>= λ checked.
      sequence_of parts.workflow >>= λ sequence.
      validate_steps parts.review parts.crash steps sequence
