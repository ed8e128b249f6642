-- ===== src/Automator/Policy/Load.antt =====
-- Which policy is loaded: `load_policy_for_state`, `load_policy_snapshot`, `load_bundled_policy`,
-- `load_effective_policy` and what they call, of
-- .agents/skills/bmad-story-automator/src/story_automator/core/runtime_policy.py.
pub mod Pinned
pub mod Effective
use bowerbird.Base.{
  String, str_eq, Bool, true, false, not, ◌&&◌, ◌||◌, Option, none, some, every, if◌then◌else◌,
  Exception, Result, ok, err, ◌>>=◌, type_error, attribute_error, policy_error, os_error,
}
use bowerbird.Config.Value.{scalar, array, table, end, get}
use bowerbird.Automator.Json.{Json, Object, null, boolean, int, real, text}
use bowerbird.Automator.Policy.{
  Python, valid_top_level_keys, is_among, texts_of, stripped, validate_policy_shape,
}
use bowerbird.Automator.Policy.Merge.{merge_fields, apply_legacy_env, clear_resolved_fields}
use bowerbird.Automator.Policy.Disk.{Disk, ensure_within}
use bowerbird.Automator.Policy.Paths.{resolve_paths}

-- What `_state_policy_mode` returns: the bundled policy, or a snapshot's file and hash.
pub data Mode : Type 0 where
  legacy : Mode
  pinned : String → String → Mode

-- What the loading calls besides: `json.loads`, nothing for a JSONDecodeError, and the parts of
-- other modules: the frontmatter of a state file and `bundled_story_skill_root`, nothing for a
-- FileNotFoundError.
pub record Sources (R P : Type 0) : Type 0 where
  pub loads : String → Option (Json R)
  pub parse_simple_frontmatter : String → Object R
  pub bundled_story_skill_root : Option P

-- `except OSError` with a PolicyError
abbrev pub as_policy_error : {V : Type 0} → Result V → Result V
as_policy_error (ok v) = ok v
as_policy_error (err os_error) = err policy_error
as_policy_error (err e) = err e

module _ {R P : Type 0} (python : Python R) (disk : Disk P) (sources : Sources R P) where
  open python use {lower}
  open disk use {project_root, join, path_of, is_absolute, is_file, read_text, md5_hex8}
  open sources use {loads, parse_simple_frontmatter, bundled_story_skill_root}

  abbrev pub bundled_skill_root : Result P
  bundled_skill_root = elim bundled_story_skill_root [
    | some root ↦ ok root
    | none ↦ err policy_error
  ]

  abbrev pub loaded : String → Result (Json R)
  loaded raw = elim (loads raw) [ some v ↦ ok v | none ↦ err policy_error ]

  abbrev pub object_of : Json R → Result (Object R)
  object_of (table d) = ok d
  object_of _ = err policy_error

  -- `_read_json`
  unfoldable pub read_json : P → Result (Object R)
  read_json path = read_text path >>= λ raw. loaded raw >>= λ v. object_of v

  -- What `set(policy)`, the `join` of the unknown keys or `policy.get` raises on a value that is not
  -- an object.
  abbrev pub not_object : Json R → Exception
  not_object (scalar (text s)) = if str_eq s "" then attribute_error else policy_error
  not_object (array vs) = elim (texts_of vs) [
    | ok keys ↦ if every (is_among valid_top_level_keys) keys then attribute_error else policy_error
    | err e ↦ type_error
  ]
  not_object _ = type_error

  abbrev pub validated : Json R → Result (Object R)
  validated (table d) = validate_policy_shape python d >>= λ checked. ok d
  validated v = err (not_object v)

  -- The end of each of the loading functions.
  abbrev pub resolved : Bool → Object R → Result (Object R)
  resolved resolve_assets policy = bundled_skill_root >>= λ bundle_root.
      resolve_paths disk python resolve_assets bundle_root policy

  unfoldable pub load_bundled_policy : Bool → Result (Object R)
  load_bundled_policy resolve_assets = bundled_skill_root >>= λ bundle_root.
      read_json (join (join bundle_root "data") "orchestration-policy.json") >>= λ policy.
      validated (table policy) >>= λ valid.
      resolve_paths disk python resolve_assets bundle_root valid

  abbrev pub override_path : P
  override_path = join (join (join project_root "_bmad") "bmm") "story-automator.policy.json"

  -- The two texts are MAX_REVIEW_CYCLES and MAX_CRASH_RETRIES.
  unfoldable pub load_effective_policy : Option String → Option String → Bool → Result (Object R)
  load_effective_policy review_cycles crash_retries resolve_assets =
      load_bundled_policy false >>= λ bundled.
      (if is_file override_path then read_json override_path else ok end) >>= λ override.
      apply_legacy_env python review_cycles crash_retries (merge_fields bundled override)
      >>= λ policy. validate_policy_shape python policy >>= λ checked.
          clear_resolved_fields python policy >>= λ cleared. resolved resolve_assets cleared

  abbrev pub snapshot_path : String → P
  snapshot_path file = if is_absolute file then path_of file else join project_root file

  -- The steps after the file is found; the JSON is read only when the hash fits.
  abbrev pub check_hash : String → String → Result {0} Unit
  check_hash expected raw =
      if not (str_eq expected "") && not (str_eq (md5_hex8 raw) expected)
      then err policy_error
      else ok tt

  unfoldable pub load_policy_snapshot : String → String → Bool → Result (Object R)
  load_policy_snapshot snapshot_file expected_hash resolve_assets =
      ensure_within disk (snapshot_path snapshot_file) project_root >>= λ path.
      (if is_file path then as_policy_error (read_text path) else err policy_error) >>= λ raw.
      check_hash expected_hash raw >>= λ checked.
      loaded raw >>= λ v. validated v >>= λ policy. resolved resolve_assets policy

  -- `_state_policy_mode`
  unfoldable pub state_policy_mode : Object R → Result Mode
  state_policy_mode fields =
      let file = stripped python "policySnapshotFile" fields in
      let hash = stripped python "policySnapshotHash" fields in
      let version = stripped python "policyVersion" fields in
      let legacy_policy = lower (stripped python "legacyPolicy" fields) in
      if not (str_eq file "") || not (str_eq hash "")
      then (if str_eq file "" || str_eq hash "" || str_eq legacy_policy "true"
          then err policy_error
          else ok (pinned file hash))
      else if str_eq legacy_policy "false" || not (str_eq version "")
      then err policy_error
      else ok legacy

  abbrev pub load_in_mode : Bool → Mode → Result (Object R)
  load_in_mode resolve_assets legacy = load_bundled_policy resolve_assets
  load_in_mode resolve_assets (pinned file hash) = load_policy_snapshot file hash resolve_assets

  unfoldable pub load_policy_for_state : P → Bool → Result (Object R)
  load_policy_for_state state_file resolve_assets =
      as_policy_error (read_text state_file) >>= λ raw.
      state_policy_mode (parse_simple_frontmatter raw) >>= λ mode. load_in_mode resolve_assets mode
