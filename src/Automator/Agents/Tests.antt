-- ===== src/Automator/Agents/Tests.antt =====
-- Witnesses of the agents.
use bowerbird.Base.{ℕ, false, ◌≡◌, refl, none, some, [], ◌∷◌, if◌then◌else◌, ok}
use bowerbird.Base.Text.{codes, text_eq, after_prefix, drop_while, is_space}
use bowerbird.Config.Value.{scalar, array, table, Items, nil, cons, end, field, get}
use bowerbird.Automator.Json.{Object, Scalar, boolean, null, is_truthy, text_or_empty}
use bowerbird.Automator.Agents.{
  Names, AgentConfigResolved, is_one_of, lookup, normalize_fallback_value, parse_agent_config,
  resolve_fallback_agent, resolve_agent_for_task,
}
use bowerbird.Automator.Agents.Named.{placeholders, resolve_agent_for_task_named}
use bowerbird.Automator.Agents.Plan.{
  Codec, PlanInput, words, story_json, build_stories, payload_json, scan_block, search_block,
  extract_json_block,
}
use bowerbird.Automator.Agents.Plan.Kept.{IsPlanned, resolve_agents-build_agents_file}

abbrev names : Names ℕ
names = record {
  truthy = λ x. false;
  shown_as = λ v. "None";
  strip = λ s. s;
  lower = λ s. s;
  runtime_provider = "claude";
}

abbrev raw : Object ℕ
raw =
    field "perTask"
      (table (
        field "dev"
          (table (field "primary" (words "codex") (field "fallback" (words "claude") end))) end))
      (field "complexityOverrides"
        (table (
          field "high"
            (table (field "dev" (table (field "fallback" (scalar (boolean false)) end)) end)) end))
        end)

abbrev config : AgentConfigResolved ℕ
config = record {
  default_primary = words "auto";
  default_fallback = "false";
  per_task = ("dev", record { primary = "codex"; fallback = some (words "claude") }) ∷ [];
  complexity_overrides =
      ("high", ("dev", record { primary = ""; fallback = some (scalar (boolean false)) }) ∷ [])
      ∷ [];
}

resolve_agent_for_task_named_example :
    (is_one_of placeholders (resolve_agent_for_task names config "low" "dev").0 ≡ false)
    × (is_one_of
          ("" ∷ "auto" ∷ "none" ∷ "null" ∷ [])
          (resolve_agent_for_task names config "low" "dev").1
        ≡ false)
resolve_agent_for_task_named_example =
    resolve_agent_for_task_named names ((λ s. refl), refl) refl config "low" "dev"

-- The override for the level takes the fallback away, and leaves the task's primary agent.
resolved_run : resolve_agent_for_task names config "high" "dev" ≡ ("codex", "false")
unfolding resolve_agent_for_task lookup resolve_fallback_agent normalize_fallback_value
    text_or_empty is_truthy
resolved_run = refl

-- A primary agent that is null becomes an agent of the name `None`.
null_primary_run :
    parse_agent_config names (table (field "retro" (table (field "primary" (scalar null) end)) end))
    ≡ ok record {
      default_primary = words "auto";
      default_fallback = "false";
      per_task = ("retro", record { primary = "None"; fallback = none }) ∷ [];
      complexity_overrides = [];
    }
unfolding parse_agent_config get lookup normalize_fallback_value is_truthy
null_primary_run = refl

abbrev story : Object ℕ
story = field "storyId" (words "1.1") (
    field "title" (words "Start")
      (field "complexity" (table (field "level" (words "high") end)) end))

abbrev input : PlanInput
input = record {
  state_file = "state.md";
  epic = "1";
  epic_name = "First";
  created_at = "2026-01-01";
}

abbrev no_codec : Codec ℕ
no_codec = record { dumps = λ v. []; loads = λ s. none }

abbrev built : Items (Scalar ℕ)
built = cons (story_json names no_codec config story "high") nil

abbrev stories : Items (Scalar ℕ)
stories = cons (table story) nil

-- The three texts that are loaded.
abbrev codec : Codec ℕ
codec = record {
  dumps = λ v. codes "{ }";
  loads = λ s.
      if text_eq s (codes "config")
      then some (table raw)
      else if text_eq s (codes "levels")
      then some (table (field "stories" (array stories) end))
      else some (payload_json names no_codec input built);
}

resolve_agents-build_agents_file_example :
    IsPlanned names codec input (codes "config") (codes "levels") config story "1.1" "dev"
unfolding parse_agent_config build_stories get lookup normalize_fallback_value is_truthy
    text_or_empty text_eq
resolve_agents-build_agents_file_example =
    resolve_agents-build_agents_file names codec ((λ s. refl), refl) input (codes "config")
      (codes "levels") (table raw) (table (field "stories" (array stories) end)) config stories
      built story "1.1" "dev" refl refl refl refl refl (refl, codes " ", refl) refl refl refl refl

-- Three backquotes behind a brace in a title end the block too early.
cut_run :
    extract_json_block (codes "```json\n{\"title\": \"}``` \"}\n```\n") ≡ codes "{\"title\": \"}"
unfolding extract_json_block search_block scan_block after_prefix drop_while is_space
cut_run = refl
