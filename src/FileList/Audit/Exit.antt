-- ===== src/FileList/Audit/Exit.antt =====
-- The exit status of scripts/check-file-list.py.
use bowerbird.Base.{ℕ, Bool, true, ◌≡◌, Option, some, List, All}
use bowerbird.Base.Text.{Text, splitlines}
use bowerbird.FileList.Story.{extract_file_list, looks_like_path}
use bowerbird.FileList.Changes.{
  Changes, Git, Note, Audited, value, ◌>>>◌, answered, apply_ignores, dropped_paths,
}
use bowerbird.FileList.Audit.{keep, compare_sides, exit_status}
use bowerbird.FileList.Audit.Clean.{AnyOf, Covers}

module _ (is_word : ℕ → Bool) (json_loads : Text → Option Text) (matches : Text → Text → Bool)
    (git : Git) where
  open git use {ls_files}

  -- The File List of a story.
  abbrev pub declared_in : Text → Text → List Text
  declared_in story_text listing =
      keep (looks_like_path (splitlines listing)) (extract_file_list is_word story_text).0

  -- What the audit looks for.
  abbrev pub Agrees : Text → Text → Changes → Type 0
  Agrees story_text listing changed =
      ((extract_file_list is_word story_text).1 ≡ true)
      × All (λ e. AnyOf (λ entry. Covers entry e.0) (declared_in story_text listing)) changed
      × All (λ entry. AnyOf (λ e. Covers entry e.0) changed) (declared_in story_text listing)

  -- What a run that finds the two sides in agreement has got.
  abbrev pub IsAgreed :
      Option Text → Audited Text → Option Text → Audited (Changes × Note) → List Text → Type 0
  IsAgreed root story listed collected ignores =
      (dir : Text) × ((root ≡ some dir)
        × ((text : Text) × ((story ≡ value text)
              × ((listing : Text) × ((listed ≡ some listing)
                    × ((changes : Changes × Note) × ((collected ≡ value changes)
                          × Agrees text listing (apply_ignores matches changes.0 ignores))))))))

  abbrev status_of :
      Option Text → Audited Text → Option Text → Audited (Changes × Note) → List Text → ℕ
  status_of root story listed collected ignores = exit_status (
      answered root >>> λ _.
      (story >>> λ text. answered listed >>> λ listing. collected >>> λ changes. value (
        compare_sides (declared_in text listing) (extract_file_list is_word text).1
          (apply_ignores matches changes.0 ignores) changes.1
          (dropped_paths matches changes.0 ignores))))
