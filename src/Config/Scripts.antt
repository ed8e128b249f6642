-- ===== src/Config/Scripts.antt =====
-- The two scripts from end to end: which files they need, what they print, and how they exit.
use bowerbird.Base.{
  String, ◌<>◌, ◌≡◌, refl, Bool, true, false, List, [], ◌∷◌, ◌++◌, append-nil, append_assoc, ok,
}
use bowerbird.Base.Script.{done, exited, out, note}
use bowerbird.Config.Value.{Value, scalar, array, table, Fields, end}
use bowerbird.Config.Files.{Files, Reading, missing, parsed, malformed, unreadable, undecodable}
use bowerbird.Config.Merge.{deep_merge}
use bowerbird.Config.Central
use bowerbird.Config.Central.{Lines, complain, give_up, answer, print, merge_four}
use bowerbird.Config.Custom
use bowerbird.Config.Custom.{merge_three, nearest_root, load_overrides}

module _ {S : Type 0} where
  -- The table that a file gives, and none of its entries where it gives no table.
  abbrev pub layer : Reading S → Fields S
  layer (parsed (table fs)) = fs
  layer _ = end

  abbrev pub warnings : String → Reading S → Lines
  warnings path (malformed error) =
      note ("warning" <> (": failed to parse " <> path <> ": " <> error <> "\n")) ∷ []
  warnings path (unreadable error) =
      note ("warning" <> (": failed to read " <> path <> ": " <> error <> "\n")) ∷ []
  warnings path _ = []

  -- A file that the required layer cannot do without.
  abbrev pub IsBroken : Reading S → Type 0
  IsBroken missing = Unit
  IsBroken (malformed error) = Unit
  IsBroken (unreadable error) = Unit
  IsBroken (parsed v) = ⊥
  IsBroken undecodable = ⊥

  -- The file is UTF-8, if it can be read.
  abbrev pub IsUtf8 : Reading S → Type 0
  IsUtf8 undecodable = ⊥
  IsUtf8 _ = Unit

module _ {S : Type 0} (F : Files S) where
  open F use {FilePath, join, show, name, present, read, dumps}

  pub loaded_optional :
      (path : FilePath) (r : Reading S) (w : Lines)
      → IsUtf8 r
      → Central.loaded F path false r w ≡ done (layer r) (w ++ warnings (show path) r)
  loaded_optional path missing w h = rw append-nil
  loaded_optional path (parsed (table fs)) w h = rw append-nil
  loaded_optional path (parsed (scalar s)) w h = rw append-nil
  loaded_optional path (parsed (array vs)) w h = rw append-nil
  loaded_optional path (malformed error) w h = refl
  loaded_optional path (unreadable error) w h = refl
  loaded_optional path undecodable w h = absurd h

  pub custom_loaded_optional :
      (path : FilePath) (r : Reading S) (w : Lines)
      → IsUtf8 r
      → Custom.loaded F path false r w ≡ done (layer r) (w ++ warnings (show path) r)
  custom_loaded_optional path missing w h = rw append-nil
  custom_loaded_optional path (parsed (table fs)) w h = rw append-nil
  custom_loaded_optional path (parsed (scalar s)) w h = rw append-nil
  custom_loaded_optional path (parsed (array vs)) w h = rw append-nil
  custom_loaded_optional path (malformed error) w h = refl
  custom_loaded_optional path (unreadable error) w h = refl
  custom_loaded_optional path undecodable w h = absurd h

  -- A broken required file ends the script with 1 and one line on standard error.
  loaded_broken :
      (path : FilePath) (r : Reading S) (w : Lines)
      → IsBroken r
      → (text : String) × (Central.loaded F path true r w ≡ exited 1 (w ++ (note text ∷ [])))
  loaded_broken path missing w h = (_, refl)
  loaded_broken path (malformed error) w h = (_, refl)
  loaded_broken path (unreadable error) w h = (_, refl)
  loaded_broken path (parsed v) w h = absurd h
  loaded_broken path undecodable w h = absurd h

module _ {S : Type 0} (same : S → S → Bool) (F : Files S) (root : F.FilePath) where
  open F use {FilePath, join, show, name, present, read, dumps}

  abbrev pub config : String → FilePath
  config file = join (join root "_bmad") file

  abbrev pub custom : String → FilePath
  custom file = join (join (join root "_bmad") "custom") file

  -- With the required file missing, unreadable or malformed, resolve_config exits with 1 and
  -- says so in one line on standard error, whatever the other files hold.
  main-config_broken :
      (keys : List String) (w : Lines)
      → IsBroken (read (config "config.toml"))
      → (text : String) × (Central.main same F root keys w ≡ exited 1 (w ++ (note text ∷ [])))
  unfolding Central.main Central.load_toml
  main-config_broken keys w h =
      let (text, e) = loaded_broken F (config "config.toml") (read (config "config.toml")) w h in
      (text, rw e)

  abbrev pub all_warnings : Lines
  all_warnings =
      warnings (show (config "config.user.toml")) (read (config "config.user.toml"))
      ++ (warnings (show (custom "config.toml")) (read (custom "config.toml"))
          ++ warnings (show (custom "config.user.toml")) (read (custom "config.user.toml")))

  -- With the required file a table and no other that is not UTF-8, resolve_config prints the answer
  -- from the merge of the four layers in their order: the user's file over the team's, the custom
  -- team's over both, and the custom user's over all. A file that gives no table counts as an empty
  -- one, and a warning for each broken file comes first.
  pub main-merge_four :
      (keys : List String) (w : Lines) (base : Fields S) (first second merged : Value S)
      (text : String)
      → read (config "config.toml") ≡ parsed (table base)
      → IsUtf8 (read (config "config.user.toml"))
      → IsUtf8 (read (custom "config.toml"))
      → IsUtf8 (read (custom "config.user.toml"))
      → deep_merge same (table base) (table (layer (read (config "config.user.toml")))) ≡ ok first
      → deep_merge same first (table (layer (read (custom "config.toml")))) ≡ ok second
      → deep_merge same second (table (layer (read (custom "config.user.toml")))) ≡ ok merged
      → dumps (answer F merged keys) ≡ ok text
      → Central.main same F root keys w ≡ done tt (w ++ (all_warnings ++ (out (text <> "\n") ∷ [])))
  unfolding Central.main Central.load_toml merge_four
  main-merge_four keys w base first second merged text p u1 u2 u3 m1 m2 m3 d = rw p (
      rw (loaded_optional F _ _ _ u1) (
        rw (loaded_optional F _ _ _ u2)
          (rw (loaded_optional F _ _ _ u3) (rw m1 (rw m2 (rw m3 (rw d (simp append_assoc))))))))
