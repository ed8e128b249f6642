-- ===== src/Automator/Policy/Disk.antt =====
-- The files of the orchestration policy: paths, and how they are shown and kept within a root, in
-- .agents/skills/bmad-story-automator/src/story_automator/core/runtime_policy.py.
use bowerbird.Base.{String, Bool, Option, if◌then◌else◌, Result, ok, err, policy_error}

-- Paths and files. `is_inside` is `relative_to` without a ValueError, `relative` is what it
-- returns, and `resolve_skill_dir` is nothing for a ValueError; the last two functions are those of
-- core/runtime_layout.py.
pub record Disk (P : Type 0) : Type 0 where
  pub project_root : P
  pub join : P → String → P
  pub path_of : String → P
  pub is_absolute : String → Bool
  pub resolve : P → P
  pub is_inside : P → P → Bool
  pub relative : P → P → String
  pub shown : P → String
  pub is_file : P → Bool
  pub read_text : P → Result String
  pub md5_hex8 : String → String
  pub resolve_skill_dir : String → Option P
  pub resolve_portable_path : String → Option P

module _ {P : Type 0} (disk : Disk P) where
  open disk use {project_root, resolve, is_inside, relative, shown, is_file}

  abbrev pub is_within : P → P → Bool
  is_within path root = is_inside (resolve path) (resolve root)

  unfoldable pub ensure_within : P → P → Result P
  ensure_within path root = if is_within path root then ok (resolve path) else err policy_error

  abbrev pub display_path : P → String
  display_path path =
      if is_within path project_root
      then relative (resolve path) (resolve project_root)
      else shown (resolve path)

  abbrev pub existing : P → Result String
  existing path = if is_file path then ok (shown path) else err policy_error
