-- ===== src/Config/Roots.antt =====
-- The project root and the end of resolve_customization.
use bowerbird.Base.{
  String, ◌<>◌, ◌≡◌, refl, ap, inl, inr, ◌||◌, Bool, true, false, Option, none, some, List, [], ◌∷◌,
  ◌++◌, append_assoc, ok, or_else, All, Bool-cases,
}
use bowerbird.Base.Script.{done, out}
use bowerbird.Config.Value.{Value, table, Fields}
use bowerbird.Config.Files.{Files, parsed}
use bowerbird.Config.Central.{Lines, answer}
use bowerbird.Config.Merge.{deep_merge}
use bowerbird.Config.Custom
use bowerbird.Config.Custom.{merge_three, nearest_root, find_project_root, load_overrides}
use bowerbird.Config.Scripts.{layer, warnings, IsUtf8, custom_loaded_optional}

module _ {S : Type 0} (F : Files S) where
  open F use {FilePath, join, show, name, present, lineage, read, dumps}

  abbrev pub is_root : FilePath → Bool
  is_root path = present (join path "_bmad") || present (join path ".git")

  -- What the search returns, in terms of the path and its parents.
  abbrev pub IsNearest : List FilePath → Option FilePath → Type 0
  IsNearest chain none = All (λ p. is_root p ≡ false) chain
  IsNearest chain (some root) =
      (below : List FilePath) × (above : List FilePath) × (chain ≡ below ++ (root ∷ above))
      × All (λ p. is_root p ≡ false) below
      × (is_root root ≡ true)

  IsNearest-cons :
      (p : FilePath) (chain : List FilePath) (r : Option FilePath)
      → is_root p ≡ false
      → IsNearest chain r
      → IsNearest (p ∷ chain) r
  IsNearest-cons p chain none e h = (e, h)
  IsNearest-cons p chain (some root) e (below, above, s, h, t) =
      (p ∷ below, above, ap (λ c. p ∷ c) s, (e, h), t)

  -- The search stops at the nearest directory that holds `_bmad` or `.git`, and finds none only
  -- where neither the path nor a parent holds one.
  pub nearest_root-IsNearest : (chain : List FilePath) → IsNearest chain (nearest_root F chain)
  unfolding nearest_root
  nearest_root-IsNearest [] = tt
  nearest_root-IsNearest (p ∷ chain) = elim (Bool-cases (is_root p)) [
    | inl e ↦ rw e ([], chain, refl, tt, e)
    | inr e ↦ rw e (IsNearest-cons p chain (nearest_root F chain) e (nearest_root-IsNearest chain))
  ]

module _ {S : Type 0} (same : S → S → Bool) (F : Files S) (skill_dir cwd : F.FilePath) where
  open F use {FilePath, join, show, name, present, lineage, read, dumps}

  abbrev pub override : FilePath → String → FilePath
  override root suffix = join (join (join root "_bmad") "custom") (name skill_dir <> suffix)

  -- Inside a project, found from the skill's directory or else from the working directory, and with
  -- no override file that is not UTF-8, resolve_customization prints the answer from the defaults with
  -- the team's file merged over them, and then the user's over both. A file that gives no table counts
  -- as an empty one, and the warnings come first.
  pub main-merge_three :
      (keys : List String) (w : Lines) (root : FilePath) (defaults : Fields S)
      (first merged : Value S) (text : String)
      → or_else (find_project_root F skill_dir) (find_project_root F cwd) ≡ some root
      → read (join skill_dir "customize.toml") ≡ parsed (table defaults)
      → IsUtf8 (read (override root ".toml"))
      → IsUtf8 (read (override root ".user.toml"))
      → deep_merge same (table defaults) (table (layer (read (override root ".toml")))) ≡ ok first
      → deep_merge same first (table (layer (read (override root ".user.toml")))) ≡ ok merged
      → dumps (answer F merged keys) ≡ ok text
      → Custom.main same F skill_dir cwd keys w
        ≡ done tt (
            w
            ++ (warnings (show (override root ".toml")) (read (override root ".toml"))
                ++ (warnings (show (override root ".user.toml")) (read (override root ".user.toml"))
                    ++ (out (text <> "\n") ∷ []))))
  unfolding Custom.main Custom.load_toml merge_three
  main-merge_three keys w root defaults first merged text f p u1 u2 m1 m2 d = rw p (
      rw f (
        rw (custom_loaded_optional F _ _ _ u1)
          (rw (custom_loaded_optional F _ _ _ u2) (rw m1 (rw m2 (rw d (simp append_assoc)))))))
