-- ===== src/Config/Central.antt =====
-- _bmad/scripts/resolve_config.py: the four layers of the central configuration.
use bowerbird.Base.{
  value_error, String, ◌<>◌, Bool, true, false, none, some, List, [], ◌∷◌, ◌++◌, if◌then◌else◌,
  Result, ◌>>=◌,
}
use bowerbird.Base.Script.{done, exited, raised, Script, after, lift, Line, out, note}
use bowerbird.Config.Value.{Value, table, Fields, end, put}
use bowerbird.Config.Merge.{deep_merge, extract_key}
use bowerbird.Config.Files.{Files, Reading, missing, parsed, malformed, unreadable, undecodable}

abbrev pub Lines : Type 0
Lines = List Line

-- `sys.stderr.write(text)`
abbrev pub complain : String → Lines → Lines
complain text w = w ++ (note text ∷ [])

abbrev pub level : Bool → String
level required = if required then "error" else "warning"

module _ {S : Type 0} (F : Files S) where
  open F use {FilePath, join, show, read, dumps}

  -- The end of both handlers of `load_toml`.
  abbrev pub give_up : Bool → String → Script Lines (Fields S)
  give_up required text w =
      let w' = complain (level required <> text) w in if required then exited 1 w' else done end w'

  abbrev pub loaded : FilePath → Bool → Reading S → Script Lines (Fields S)
  loaded path required missing w =
      if required
      then exited 1 (complain ("error: required config file not found: " <> show path <> "\n") w)
      else done end w
  loaded path required (parsed (table fs)) w = done fs w
  loaded path required (parsed _) w = done end w
  loaded path required (malformed error) w =
      give_up required (": failed to parse " <> show path <> ": " <> error <> "\n") w
  loaded path required (unreadable error) w =
      give_up required (": failed to read " <> show path <> ": " <> error <> "\n") w
  loaded path required undecodable w = raised value_error w

  unfoldable pub load_toml : FilePath → Bool → Script Lines (Fields S)
  load_toml path required = loaded path required (read path)

  -- `output[key] = value` for the keys that are found.
  pub select : Value S → List String → Fields S → Fields S
  select merged [] output = output
  select merged (key ∷ keys) output =
      select merged keys
        (elim (extract_key merged key) [ none ↦ output | some v ↦ put key v output ])

  abbrev pub answer : Value S → List String → Value S
  answer merged [] = merged
  answer merged (key ∷ keys) = table (select merged (key ∷ keys) end)

  abbrev pub print : Value S → Script Lines (Unit {0})
  print output w =
      after (lift (dumps output) w) λ text w'. done tt (w' ++ (out (text <> "\n") ∷ []))

module _ {S : Type 0} (same : S → S → Bool) where
  -- The three merges of `main`.
  unfoldable pub merge_four : Fields S → Fields S → Fields S → Fields S → Result (Value S)
  merge_four base_team base_user custom_team custom_user = do
    merged ← deep_merge same (table base_team) (table base_user)
    merged' ← deep_merge same merged (table custom_team)
    deep_merge same merged' (table custom_user)

module _ {S : Type 0} (same : S → S → Bool) (F : Files S) where
  open F use {FilePath, join, read, dumps}

  -- `main`, after the arguments are parsed and the project root is resolved.
  unfoldable pub main : FilePath → List String → Script Lines (Unit {0})
  main project_root keys w =
      let bmad_dir = join project_root "_bmad" in
      after (load_toml F (join bmad_dir "config.toml") true w) λ base_team w1.
        after (load_toml F (join bmad_dir "config.user.toml") false w1) λ base_user w2.
          after (load_toml F (join (join bmad_dir "custom") "config.toml") false w2)
            λ custom_team w3.
              after (load_toml F (join (join bmad_dir "custom") "config.user.toml") false w3)
                λ custom_user w4.
                  after (lift (merge_four same base_team base_user custom_team custom_user) w4)
                    λ merged w5. print F (answer F merged keys) w5
