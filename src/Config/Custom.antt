-- ===== src/Config/Custom.antt =====
-- _bmad/scripts/resolve_customization.py: the three layers of a skill's customization.
use bowerbird.Base.{
  value_error, String, ◌<>◌, Bool, true, false, ◌||◌, Option, none, some, List, [], ◌∷◌,
  if◌then◌else◌, or_else, Result, ◌>>=◌,
}
use bowerbird.Base.Script.{done, exited, raised, Script, after, lift}
use bowerbird.Config.Value.{Value, table, Fields, end}
use bowerbird.Config.Merge.{deep_merge}
use bowerbird.Config.Files.{Files, Reading, missing, parsed, malformed, unreadable, undecodable}
use bowerbird.Config.Central.{Lines, complain, give_up, answer, print}

module _ {S : Type 0} (F : Files S) where
  open F use {FilePath, join, show, name, present, lineage, read}

  -- The loop from a path to the root: `current` runs over the path and its parents.
  unfoldable pub nearest_root : List FilePath → Option FilePath
  nearest_root [] = none
  nearest_root (current ∷ parents) =
      if present (join current "_bmad") || present (join current ".git")
      then some current
      else nearest_root parents

  abbrev pub find_project_root : FilePath → Option FilePath
  find_project_root start = nearest_root (lineage start)

  abbrev pub loaded : FilePath → Bool → Reading S → Script Lines (Fields S)
  loaded path required missing w =
      if required
      then exited 1
          (complain ("error: required customization file not found: " <> show path <> "\n") w)
      else done end w
  loaded path required (parsed (table fs)) w = done fs w
  loaded path required (parsed _) w =
      if required
      then exited 1 (complain ("error: " <> show path <> " did not parse to a table\n") w)
      else done end w
  loaded path required (malformed error) w =
      give_up F required (": failed to parse " <> show path <> ": " <> error <> "\n") w
  loaded path required (unreadable error) w =
      give_up F required (": failed to read " <> show path <> ": " <> error <> "\n") w
  loaded path required undecodable w = raised value_error w

  unfoldable pub load_toml : FilePath → Bool → Script Lines (Fields S)
  load_toml path required = loaded path required (read path)

  -- The two override files, where there is a project.
  abbrev pub load_overrides : Option FilePath → String → Script Lines (Fields S × Fields S)
  load_overrides none skill_name w = done (end, end) w
  load_overrides (some project_root) skill_name w =
      let custom_dir = join (join project_root "_bmad") "custom" in
      after (load_toml (join custom_dir (skill_name <> ".toml")) false w) λ team w1.
        after (load_toml (join custom_dir (skill_name <> ".user.toml")) false w1)
          λ user w2. done (team, user) w2

module _ {S : Type 0} (same : S → S → Bool) where
  -- The two merges of `main`.
  unfoldable pub merge_three : Fields S → Fields S → Fields S → Result (Value S)
  merge_three defaults team user = deep_merge same (table defaults) (table team) >>= λ merged.
      deep_merge same merged (table user)

module _ {S : Type 0} (same : S → S → Bool) (F : Files S) where
  open F use {FilePath, join, name}

  -- `main`, after the arguments are parsed and the skill's directory is resolved.
  unfoldable pub main : FilePath → FilePath → List String → Script Lines (Unit {0})
  main skill_dir cwd keys w =
      after (load_toml F (join skill_dir "customize.toml") true w) λ defaults w1.
        let project_root = or_else (find_project_root F skill_dir) (find_project_root F cwd) in
        after (load_overrides F project_root (name skill_dir) w1) λ overrides w2.
          after (lift (merge_three same defaults overrides.0 overrides.1) w2)
            λ merged w3. print F (answer F merged keys) w3
