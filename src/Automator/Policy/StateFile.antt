-- ===== src/Automator/Policy/StateFile.antt =====
-- Which state file a run has, and the policy that goes with it: `resolve_policy_state_file` and
-- `load_runtime_policy` of
-- .agents/skills/bmad-story-automator/src/story_automator/core/runtime_policy.py.
pub mod Chosen
use bowerbird.Base.{
  String, str_eq, Bool, true, false, not, ◌&&◌, Option, none, some, if◌then◌else◌, Result, ok, err,
  ◌>>=◌, policy_error,
}
use bowerbird.Config.Value.{get}
use bowerbird.Automator.Json.{Object}
use bowerbird.Automator.Policy.{Python, stripped}
use bowerbird.Automator.Policy.Disk.{Disk, ensure_within}
use bowerbird.Automator.Policy.Load.{
  Sources, read_json, load_effective_policy, load_policy_for_state,
}

-- Where the name of the state file comes from.
pub data Source : Type 0 where
  explicit env marker : Source

-- The environment and the paths of the state file: `expanduser` on a text, whether a path is
-- absolute, a path behind the project's root, and core/runtime_layout.py's `active_marker_path`.
pub record Surroundings (P : Type 0) : Type 0 where
  pub state_file_variable : String
  pub max_review_cycles : Option String
  pub max_crash_retries : Option String
  pub expanduser : String → P
  pub is_absolute_path : P → Bool
  pub in_project : P → P
  pub active_marker_path : P

module _ {R P : Type 0} (python : Python R) (disk : Disk P) (sources : Sources R P)
    (around : Surroundings P) where
  open python use {strip}
  open disk use {project_root, resolve, is_file}
  open around use {
    state_file_variable, max_review_cycles, max_crash_retries, expanduser, is_absolute_path,
    in_project, active_marker_path,
  }

  abbrev pub candidate : String → P
  candidate name =
      let path = expanduser name in if is_absolute_path path then path else in_project path

  -- `_resolve_state_path` with `allow_outside`, and without.
  abbrev pub resolve_anywhere : String → P
  resolve_anywhere name = resolve (candidate name)

  abbrev pub resolve_within : Source → String → Result (Option (Source × P))
  resolve_within source name =
      ensure_within disk (candidate name) (resolve project_root) >>= λ path.
      ok (some (source, path))

  abbrev pub named_by_marker : String → Result (Option (Source × P))
  named_by_marker name = if str_eq name "" then err policy_error else resolve_within marker name

  abbrev pub from_marker : Result (Option (Source × P))
  from_marker =
      if is_file active_marker_path
      then (read_json python disk sources active_marker_path >>= λ payload.
          named_by_marker (stripped python "stateFile" payload))
      else ok none

  -- An empty text stands for no state file.
  unfoldable pub resolve_policy_state_file : String → Result (Option (Source × P))
  resolve_policy_state_file state_file =
      if not (str_eq state_file "")
      then ok (some (explicit, resolve_anywhere state_file))
      else if not (str_eq (strip state_file_variable) "")
      then resolve_within env (strip state_file_variable)
      else from_marker

  abbrev pub effective : Bool → Result (Object R)
  effective resolve_assets =
      load_effective_policy python disk sources max_review_cycles max_crash_retries resolve_assets

  -- The policy for what `resolve_policy_state_file` found.
  abbrev pub load_found : Bool → Option (Source × P) → Result (Object R)
  load_found resolve_assets none = effective resolve_assets
  load_found resolve_assets (some (explicit, path)) =
      load_policy_for_state python disk sources path resolve_assets
  load_found resolve_assets (some (source, path)) =
      if is_file path
      then load_policy_for_state python disk sources path resolve_assets
      else err policy_error

  unfoldable pub load_runtime_policy : String → Bool → Result (Object R)
  load_runtime_policy state_file resolve_assets =
      resolve_policy_state_file state_file >>= λ found. load_found resolve_assets found
