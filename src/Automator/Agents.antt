-- ===== src/Automator/Agents.antt =====
-- The agents of a run: the configuration and its resolution for a task, `parse_agent_config_json` to
-- `_resolve_fallback_agent` of
-- .agents/skills/bmad-story-automator/src/story_automator/core/agent_config.py.
pub mod Named
pub mod Plan
mod Tests
use bowerbird.Base.{
  String, str_eq, Bool, true, false, not, Option, none, some, is_some, or_else, List, [], ◌∷◌, ◌++◌,
  exists, if◌then◌else◌, Result, ok, err, ◌>>=◌, attribute_error,
}
use bowerbird.Config.Value.{scalar, array, table, end, field, get}
use bowerbird.Automator.Json.{Json, Object, null, boolean, text, is_truthy, text_or_empty}

-- Python's operations on texts and floats, and `runtime_provider` of core/runtime_layout.py.
pub record Names (R : Type 0) : Type 0 where
  pub truthy : R → Bool
  pub shown_as : Json R → String
  pub strip : String → String
  pub lower : String → String
  pub runtime_provider : String

pub record AgentTaskConfig (R : Type 0) : Type 0 where
  pub primary : String
  pub fallback : Option (Json R)

abbrev pub Tasks : Type 0 → Type 0
Tasks R = List (String × AgentTaskConfig R)

pub record AgentConfigResolved (R : Type 0) : Type 0 where
  pub default_primary : Json R
  pub default_fallback : String
  pub per_task : Tasks R
  pub complexity_overrides : List (String × Tasks R)

abbrev pub is_one_of : List String → String → Bool
is_one_of valid s = exists (λ t. str_eq t s) valid

-- `d.get(key)`, of a `dict` that is a list of its entries.
unfoldable pub lookup {ℓ} : {A : Type ℓ} → String → List (String × A) → Option A
lookup key [] = none
lookup key ((j, a) ∷ d) = if str_eq j key then some a else lookup key d

module _ {R : Type 0} where
  -- A JSON null is None, as an absent key is for `get`.
  abbrev pub present : Option (Json R) → Option (Json R)
  present none = none
  present (some (scalar null)) = none
  present (some v) = some v

module _ {R : Type 0} (names : Names R) where
  open names use {truthy, shown_as, strip, lower, runtime_provider}

  -- `str(value)`
  abbrev pub str_of : Json R → String
  str_of (scalar (text s)) = s
  str_of v = shown_as v

  abbrev pub primary_text : Option (Json R) → String
  primary_text none = ""
  primary_text (some v) = str_of v

  unfoldable pub normalize_fallback_value : Option (Json R) → String
  normalize_fallback_value (some (scalar (text s))) =
      let value = lower (strip s) in
      if is_one_of ("false" ∷ "none" ∷ "null" ∷ []) value then "false" else value
  normalize_fallback_value (some (scalar (boolean b))) = if b then "true" else "false"
  normalize_fallback_value _ = ""

  abbrev pub parse_task_entry : Option (Json R) → Option (AgentTaskConfig R)
  parse_task_entry (some (table d)) =
      some
        record { primary = primary_text (get "primary" d); fallback = present (get "fallback" d) }
  parse_task_entry _ = none

  abbrev pub with_task : String → Option (AgentTaskConfig R) → Tasks R → Tasks R
  with_task task none rest = rest
  with_task task (some entry) rest = (task, entry) ∷ rest

  -- The entries of an object; its keys differ.
  abbrev pub parse_tasks : Object R → Tasks R
  parse_tasks end = []
  parse_tasks (field task entry rest) =
      with_task task (parse_task_entry (some entry)) (parse_tasks rest)

  abbrev pub parse_task_map : Option (Json R) → Tasks R
  parse_task_map (some (table d)) = parse_tasks d
  parse_task_map _ = []

  abbrev pub parse_levels : Object R → List (String × Tasks R)
  parse_levels end = []
  parse_levels (field level value rest) = (level, parse_task_map (some value)) ∷ parse_levels rest

  -- `(data.get("complexityOverrides") or {}).items()`
  abbrev pub parse_overrides : Option (Json R) → Result (List (String × Tasks R))
  parse_overrides (some (table d)) = ok (parse_levels d)
  parse_overrides value = if is_truthy truthy shown_as value then err attribute_error else ok []

  -- A level at the top of the object counts where the overrides do not have it.
  abbrev pub add_level : Object R → String → List (String × Tasks R) → List (String × Tasks R)
  add_level root level overrides = elim (lookup level overrides) [
    | some tasks ↦ overrides
    | none ↦ elim (parse_task_map (get level root)) [
      | [] ↦ overrides
      | entry ∷ tasks ↦ overrides ++ ((level, entry ∷ tasks) ∷ [])
    ]
  ]

  abbrev pub set_default : String → Option (AgentTaskConfig R) → Tasks R → Tasks R
  set_default task none tasks = tasks
  set_default task (some entry) tasks =
      if is_some (lookup task tasks) then tasks else tasks ++ ((task, entry) ∷ [])

  -- `value or "auto"`
  abbrev pub or_auto : Option (Json R) → Json R
  or_auto none = scalar (text "auto")
  or_auto (some v) = if is_truthy truthy shown_as (some v) then v else scalar (text "auto")

  -- The first of the two values that is true, or `"auto"`.
  abbrev pub first_primary : Option (Json R) → Option (Json R) → Json R
  first_primary (some v) other = if is_truthy truthy shown_as (some v) then v else or_auto other
  first_primary none other = or_auto other

  abbrev pub fallback_of : Object R → Option (Json R)
  fallback_of root = elim (get "defaultFallback" root) [
    | some v ↦ some v
    | none ↦ elim (get "fallback" root) [ some v ↦ some v | none ↦ some (scalar (boolean false)) ]
  ]

  abbrev pub or_text : String → String → String
  or_text s default = if str_eq s "" then default else s

  -- `parse_agent_config_json`, for what `json.loads` returns.
  unfoldable pub parse_agent_config : Json R → Result (AgentConfigResolved R)
  parse_agent_config (table root) =
      parse_overrides (get "complexityOverrides" root) >>= λ overrides. ok record {
        default_primary = first_primary (get "defaultPrimary" root) (get "primary" root);
        default_fallback = or_text (normalize_fallback_value (fallback_of root)) "false";
        per_task =
            set_default "retro" (parse_task_entry (get "retro" root))
              (parse_task_map (get "perTask" root));
        complexity_overrides =
            add_level root "high" (add_level root "medium" (add_level root "low" overrides));
      }
  parse_agent_config _ = err attribute_error

  abbrev pub resolve_primary_agent : Json R → String
  resolve_primary_agent raw =
      let value = lower (strip (text_or_empty truthy shown_as (some raw))) in
      if is_one_of ("" ∷ "auto" ∷ "runtime" ∷ []) value then runtime_provider else value

  unfoldable pub resolve_fallback_agent : String → String
  resolve_fallback_agent raw =
      let normalized = lower (strip (normalize_fallback_value (some (scalar (text raw))))) in
      if is_one_of ("" ∷ "auto" ∷ "runtime" ∷ []) normalized then "false" else normalized

  -- What an entry for the task changes.
  abbrev pub with_primary : Option (AgentTaskConfig R) → Json R → Json R
  with_primary none primary = primary
  with_primary (some entry) primary =
      if str_eq entry.primary "" then primary else scalar (text entry.primary)

  abbrev pub with_fallback : Option (AgentTaskConfig R) → String → String
  with_fallback none fallback = fallback
  with_fallback (some entry) fallback = elim entry.fallback [
    | none ↦ fallback
    | some v ↦ normalize_fallback_value (some v)
  ]

  abbrev pub override_for : AgentConfigResolved R → String → String → Option (AgentTaskConfig R)
  override_for config complexity task = elim (lookup complexity config.complexity_overrides) [
    | none ↦ none
    | some tasks ↦ lookup task tasks
  ]

  unfoldable pub resolve_agent_for_task : AgentConfigResolved R → String → String → String × String
  resolve_agent_for_task config complexity task =
      let per_task = lookup task config.per_task in
      let override = override_for config complexity task in
      let primary = or_auto (some config.default_primary) in
      let fallback = or_text config.default_fallback "false" in
      (
        resolve_primary_agent (with_primary override (with_primary per_task primary)),
        resolve_fallback_agent (with_fallback override (with_fallback per_task fallback)),
      )
