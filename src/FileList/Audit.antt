-- ===== src/FileList/Audit.antt =====
-- scripts/check-file-list.py: `audit` and the exit status of `main`.
pub mod Clean
pub mod Exit
use bowerbird.Base.{
  ℕ, zero, suc, Bool, true, false, not, ◌&&◌, ◌||◌, ◌==◌, ltb, Option, none, some, is_some, List,
  [], ◌∷◌, ◌++◌, length, exists, if◌then◌else◌,
}
use bowerbird.Base.Int.{ℤ, pos}
use bowerbird.Base.Text.{Text, text_eq, after_prefix, splitlines}
use bowerbird.FileList.Story.{extract_file_list, looks_like_path}
use bowerbird.FileList.Changes.{
  Label, Changes, lookup, Git, Note, Audited, value, tooling, crash, ◌>>>◌, answered,
  collect_git_changes, apply_ignores, dropped_paths,
}

-- `path.startswith(prefix)`
abbrev pub starts : Text → Text → Bool
starts path prefix = is_some (after_prefix prefix path)

-- `entry.endswith("/")`
unfoldable pub is_dir : Text → Bool
is_dir [] = false
is_dir (c ∷ []) = c == b'/'
is_dir (c ∷ d ∷ s) = is_dir (d ∷ s)

unfoldable pub keep {ℓ} : {A : Type ℓ} → (A → Bool) → List A → List A
keep test [] = []
keep test (x ∷ xs) = if test x then x ∷ keep test xs else keep test xs

unfoldable pub is_declared : List Text → Text → Bool
is_declared declared path =
    exists (text_eq path) declared || exists (starts path) (keep is_dir declared)

unfoldable pub is_satisfied : Changes → Text → Bool
is_satisfied changed entry =
    if is_dir entry
    then exists (λ e. starts e.0 entry) changed
    else exists (λ e. text_eq entry e.0) changed

-- The order of two texts by code points.
unfoldable pub text_lt : Text → Text → Bool
text_lt [] [] = false
text_lt [] (y ∷ t) = true
text_lt (x ∷ s) [] = false
text_lt (x ∷ s) (y ∷ t) = ltb x y || (x == y && text_lt s t)

unfoldable pub insert : Text → Label → Changes → Changes
insert path label [] = (path, label) ∷ []
insert path label ((p, l) ∷ d) =
    let later = insert path label d in
    if text_lt p path then (p, l) ∷ later else (path, label) ∷ (p, l) ∷ d

-- `sorted(changed.items())`; the paths of a `dict` differ.
unfoldable pub sorted : Changes → Changes
sorted [] = []
sorted ((path, label) ∷ d) = insert path label (sorted d)

pub record Report : Type 0 where
  pub section_found : Bool
  pub note : Note
  pub declared_count : ℕ
  pub changed_count : ℕ
  pub missing_from_file_list : Changes
  pub declared_but_unchanged : List Text
  pub ignored : List Text
  pub clean : Bool

abbrev pub is_empty {ℓ} : {A : Type ℓ} → List A → Bool
is_empty [] = true
is_empty (_ ∷ _) = false

-- The comparison of the two sides.
unfoldable pub compare_sides : List Text → Bool → Changes → Note → List Text → Report
compare_sides declared section_found changed note ignored =
    let missing = keep (λ e. not (is_declared declared e.0)) (sorted changed) in
    let unchanged = keep (λ entry. not (is_satisfied changed entry)) declared in
    record {
      section_found = section_found;
      note = note;
      declared_count = length declared;
      changed_count = length changed;
      missing_from_file_list = missing;
      declared_but_unchanged = unchanged;
      ignored = ignored;
      clean = is_empty missing && is_empty unchanged && section_found;
    }

-- Python ends with 1 on an exception that nothing catches.
abbrev pub exit_status : Audited Report → ℕ
exit_status (value report) = if report.clean then 0 else 1
exit_status tooling = 2
exit_status crash = 1

module _ (is_word : ℕ → Bool) (json_loads : Text → Option Text) (matches : Text → Text → Bool)
    (git : Git) where
  open git use {ls_files}

  -- `story` is what reading the story file came to.
  unfoldable pub audit : Audited Text → Text → List Text → Audited Report
  audit story base ignores = story >>> λ story_text. answered ls_files >>> λ listing.
      collect_git_changes json_loads git base >>> λ changes.
      let tracked = splitlines listing in
      let declared_raw = extract_file_list is_word story_text in
      value (
        compare_sides (keep (looks_like_path tracked) declared_raw.0) declared_raw.1
          (apply_ignores matches changes.0 ignores) changes.1
          (dropped_paths matches changes.0 ignores))

  -- `main`, after the arguments are parsed; `root` is the answer of `repo_root`.
  unfoldable pub main : Option Text → Audited Text → Text → List Text → ℕ
  main root story base ignores = exit_status (answered root >>> λ _. audit story base ignores)
