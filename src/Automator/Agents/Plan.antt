-- ===== src/Automator/Agents/Plan.antt =====
-- The agents plan: `build_agents_file`, `extract_json_block` and `resolve_agents` of
-- .agents/skills/bmad-story-automator/src/story_automator/core/agent_config.py.
pub mod Fence
pub mod Kept
use bowerbird.Base.{
  ℕ, suc, String, str_eq, Bool, true, false, not, ◌&&◌, ◌==◌, Option, none, some, is_some, or_else,
  List, [], ◌∷◌, ◌++◌, if◌then◌else◌, Result, ok, err, ◌>>=◌, type_error, value_error,
  attribute_error,
}
use bowerbird.Base.Text.{Text, codes, is_space, after_prefix, drop_while, rstrip, strip}
use bowerbird.Config.Value.{
  Value, scalar, array, table, Items, nil, cons, end, field, get, to_list, of_list,
}
use bowerbird.Automator.Json.{
  Json, Object, Scalar, null, boolean, text, is_text, is_truthy, text_or_empty,
}
use bowerbird.Automator.Agents.{
  Names, AgentConfigResolved, parse_agent_config, normalize_fallback_value, resolve_agent_for_task,
}

-- `json.dumps(value, indent=2)`, and `json.loads`, nothing for a ValueError.
pub record Codec (R : Type 0) : Type 0 where
  pub dumps : Json R → Text
  pub loads : Text → Option (Json R)

-- What the plan says besides the stories: the state file, two values of its frontmatter, the time.
pub record PlanInput : Type 0 where
  pub state_file : String
  pub epic : String
  pub epic_name : String
  pub created_at : String

abbrev pub backquotes : Text
backquotes = codes "```"

-- Behind an opening brace: `.*?\}\s*```` with as few characters as it takes.
unfoldable pub scan_block : Text → Option Text
scan_block [] = none
scan_block (c ∷ s) =
    if c == 125 && is_some (after_prefix backquotes (drop_while is_space s))
    then some (c ∷ [])
    else elim (scan_block s) [ none ↦ none | some rest ↦ some (c ∷ rest) ]

-- What follows ` ```json`: spaces and the block.
abbrev pub block_from : Text → Option Text
block_from [] = none
block_from (c ∷ s) =
    if c == 123 then elim (scan_block s) [ none ↦ none | some rest ↦ some (c ∷ rest) ] else none

abbrev pub block_here : Text → Option Text
block_here s = elim (after_prefix (codes "```json") s) [
  | none ↦ none
  | some rest ↦ block_from (drop_while is_space rest)
]

-- The group of the first match of the regular expression.
unfoldable pub search_block : Text → Option Text
search_block [] = none
search_block (c ∷ s) = or_else (block_here (c ∷ s)) (search_block s)

abbrev pub ends_with : ℕ → Text → Bool
ends_with c [] = false
ends_with c (d ∷ []) = d == c
ends_with c (d ∷ e ∷ s) = ends_with c (e ∷ s)

abbrev pub starts_with : ℕ → Text → Bool
starts_with c [] = false
starts_with c (d ∷ s) = d == c

abbrev pub whole_text : Text → Text
whole_text stripped = if starts_with 123 stripped && ends_with 125 stripped then stripped else []

unfoldable pub extract_json_block : Text → Text
extract_json_block s = elim (search_block s) [
  | some block ↦ block
  | none ↦ whole_text (strip is_space s)
]

-- What `resolve_agents` returns.
pub data Answer (R : Type 0) : Type 0 where
  failed : String → Answer R
  agents : Option (Json R) → String → Option (Json R) → Answer R

module _ {R : Type 0} where
  abbrev pub words : String → Json R
  words s = scalar (text s)

  -- `story.get(key)` in the payload; None is null there.
  abbrev pub or_null : Option (Json R) → Json R
  or_null none = scalar null
  or_null (some v) = v

module _ {R : Type 0} (names : Names R) (codec : Codec R) where
  open names use {truthy, shown_as, strip, lower}
  open codec use {dumps, loads}

  -- `json.loads` of a text
  abbrev pub loaded : Text → Result (Json R)
  loaded raw = elim (loads raw) [ some v ↦ ok v | none ↦ err value_error ]

  -- `for story in payload.get("stories", [])`, up to the first `story.get`.
  abbrev pub iterated : Option (Json R) → Result (Items (Scalar R))
  iterated none = ok nil
  iterated (some (array stories)) = ok stories
  iterated (some (table end)) = ok nil
  iterated (some (table _)) = err attribute_error
  iterated (some (scalar (text s))) = if str_eq s "" then ok nil else err attribute_error
  iterated (some (scalar _)) = err type_error

  abbrev pub stories_of : Json R → Result (Items (Scalar R))
  stories_of (table payload) = iterated (get "stories" payload)
  stories_of _ = err attribute_error

  -- `(value or {})` with a `get` to follow
  abbrev pub object_or_empty : Option (Json R) → Result (Object R)
  object_or_empty (some (table d)) = ok d
  object_or_empty value = if is_truthy truthy shown_as value then err attribute_error else ok end

  abbrev pub or_medium : String → String
  or_medium s = if str_eq s "" then "medium" else s

  abbrev pub level_of : Object R → Result String
  level_of story = object_or_empty (get "complexity" story) >>= λ complexity. ok (
      or_medium
        (lower (strip (or_medium (text_or_empty truthy shown_as (get "level" complexity))))))

  abbrev pub fallback_json : String → Json R
  fallback_json fallback =
      if str_eq fallback "false" then scalar (boolean false) else words fallback

  abbrev pub selection : String × String → Json R
  selection (primary, fallback) =
      table (field "primary" (words primary) (field "fallback" (fallback_json fallback) end))

  abbrev pub tasks_json : AgentConfigResolved R → String → Object R
  tasks_json config level =
      let chosen = resolve_agent_for_task names config level in
      field "create" (selection (chosen "create")) (
        field "dev" (selection (chosen "dev")) (
          field "auto" (selection (chosen "auto"))
            (field "review" (selection (chosen "review")) end)))

  abbrev pub story_fields : AgentConfigResolved R → Object R → String → Object R
  story_fields config story level = field "storyId" (or_null (get "storyId" story)) (
      field "title" (or_null (get "title" story))
        (field "complexity" (words level) (field "tasks" (table (tasks_json config level)) end)))

  abbrev pub story_json : AgentConfigResolved R → Object R → String → Json R
  story_json config story level = table (story_fields config story level)

  -- The loop over the stories.
  unfoldable pub build_stories :
      AgentConfigResolved R → Items (Scalar R) → Result (Items (Scalar R))
  build_stories config nil = ok nil
  build_stories config (cons (table story) rest) = level_of story >>= λ level.
      build_stories config rest >>= λ built. ok (cons (story_json config story level) built)
  build_stories config (cons _ rest) = err attribute_error

  abbrev pub payload_json : PlanInput → Items (Scalar R) → Json R
  payload_json input stories = table (
      field "version" (words "1.0.0") (
        field "stateFile" (words input.state_file) (
          field "epic" (words input.epic) (
            field "epicName" (words input.epic_name)
              (field "createdAt" (words input.created_at) (field "stories" (array stories) end))))))

  -- The text in front of the block.
  abbrev pub plan_front : PlanInput → Text
  plan_front input =
      codes "---\nstateFile: "
      ++ dumps (words input.state_file)
      ++ codes "\ncreatedAt: "
      ++ dumps (words input.created_at)
      ++ codes "\n---\n\n# Agents Plan: "
      ++ codes input.epic_name
      ++ codes "\n\n"

  abbrev pub plan_text : PlanInput → Json R → Text
  plan_text input payload =
      plan_front input ++ (codes "```json\n" ++ (dumps payload ++ codes "\n```\n"))

  -- `build_agents_file`: the text that it writes, for the texts of the configuration and of the
  -- complexity file.
  unfoldable pub build_agents_file : PlanInput → Text → Text → Result Text
  build_agents_file input config_json complexity_json = loaded config_json >>= λ raw.
      parse_agent_config names raw >>= λ config. loaded complexity_json >>= λ complexity.
      stories_of complexity >>= λ stories.
      build_stories config stories >>= λ built. ok (plan_text input (payload_json input built))

  abbrev pub answer_for : Object R → Option (Json R) → Result (Answer R)
  answer_for story (some (table chosen)) =
      if is_truthy truthy shown_as (some (table chosen))
      then ok (
          agents (get "primary" chosen) (normalize_fallback_value names (get "fallback" chosen))
            (get "complexity" story))
      else ok (failed "task_not_found")
  answer_for story value =
      if is_truthy truthy shown_as value then err attribute_error else ok (failed "task_not_found")

  -- The loop over the stories of the plan.
  unfoldable pub find_story : String → String → Items (Scalar R) → Result (Answer R)
  find_story story_id task nil = ok (failed "story_not_found")
  find_story story_id task (cons (table story) rest) =
      let later = find_story story_id task rest in
      if is_text story_id (get "storyId" story)
      then (object_or_empty (get "tasks" story) >>= λ tasks. answer_for story (get task tasks))
      else later
  find_story story_id task (cons _ rest) = err attribute_error

  -- The search in the block, if there is one.
  abbrev pub answer_in : String → String → Text → Result (Answer R)
  answer_in story_id task [] = ok (failed "agents_json_missing")
  answer_in story_id task (c ∷ s) = loaded (c ∷ s) >>= λ payload.
      stories_of payload >>= λ stories. find_story story_id task stories

  -- `resolve_agents`, for the text of the plan.
  unfoldable pub resolve_agents : Text → String → String → Result (Answer R)
  resolve_agents plan story_id task = answer_in story_id task (extract_json_block plan)
