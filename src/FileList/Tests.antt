-- ===== src/FileList/Tests.antt =====
-- Witnesses of the File List audit.
use bowerbird.Base.{
  ℕ, Bool, true, ◌&&◌, ◌||◌, ◌≡◌, ◌↔◌, refl, ◌==◌, Option, none, some, is_some, List, [], ◌∷◌,
  exists, All, if◌then◌else◌,
}
use bowerbird.Base.Text.{
  Text, codes, within, is_break, after_prefix, cut_at, first_word, take_while, drop_while, rstrip,
  strip, is_space, splitlines, text_eq,
}
use bowerbird.FileList.Story.{
  after_letters, any_heading, bullet, collect, extract_file_list, file_list_heading, find_section,
  first_path_token, heading, is_path_char, raw_token, section_body, strip_bold, strip_stop, tidy,
}
use bowerbird.FileList.Story.Entries.{IsDistinct, IsEntry, extract_file_list-IsEntry}
use bowerbird.FileList.Changes.{
  Changes, Git, value, no_note, modified, untracked, lookup, is_ignored, apply_ignores,
  dropped_paths, collect_git_changes, parse_porcelain, porcelain_step, describe_status,
  add_worktree, assign, unquote,
}
use bowerbird.FileList.Changes.Status.{lookup-apply_ignores}
use bowerbird.FileList.Audit.{compare_sides}
use bowerbird.FileList.Audit.Clean.{AnyOf, Covers, clean-compare_sides}

-- `\w` on ASCII.
abbrev ascii_word : ℕ → Bool
ascii_word c = within b'a' b'z' c || within b'A' b'Z' c || within b'0' b'9' c || c == b'_'

abbrev no_json : Text → Option Text
no_json s = none

abbrev story : Text
story = codes "# File List\n- `a.py`\n- d/\n# X"

abbrev listing : Text
listing = codes "a.py\n"

abbrev porcelain : Text
porcelain = codes " M a.py\n?? d/x\n"

abbrev repository : Git
repository = record {
  merge_base = λ base. none;
  head = some (codes "1a2b\n");
  diff = λ base. none;
  status = some porcelain;
  ls_files = some listing;
}

extract_file_list_run : extract_file_list ascii_word story ≡ (codes "a.py" ∷ codes "d/" ∷ [], true)
unfolding after_letters any_heading bullet collect extract_file_list file_list_heading find_section
    first_path_token heading is_path_char raw_token section_body strip_bold strip_stop tidy is_break
    after_prefix cut_at first_word take_while drop_while rstrip strip is_space splitlines text_eq
extract_file_list_run = refl

collect_git_changes_run :
    collect_git_changes no_json repository []
    ≡ value ((codes "a.py", modified) ∷ (codes "d/x", untracked) ∷ [], no_note)
unfolding collect_git_changes parse_porcelain porcelain_step describe_status add_worktree assign
    unquote is_break after_prefix cut_at first_word take_while drop_while rstrip strip is_space
    splitlines text_eq
collect_git_changes_run = refl

abbrev changes : Changes
changes = (codes "a.py", modified) ∷ (codes "d/x", untracked) ∷ []

abbrev declared : List Text
declared = codes "a.py" ∷ codes "d/" ∷ []

clean-compare_sides_example : ((compare_sides declared true changes no_note []).clean ≡ true) ↔ (
    (true ≡ true)
    × All (λ e. AnyOf (λ entry. Covers entry e.0) declared) changes
    × All (λ entry. AnyOf (λ e. Covers entry e.0) changes) declared)
clean-compare_sides_example = clean-compare_sides declared true changes no_note []

extract_file_list-IsEntry_example :
    IsDistinct (extract_file_list ascii_word story).0
    × All (IsEntry ascii_word) (extract_file_list ascii_word story).0
extract_file_list-IsEntry_example = extract_file_list-IsEntry ascii_word story

lookup-apply_ignores_example :
    (lookup (codes "d/x") (apply_ignores text_eq changes (codes "d/x" ∷ [])) ≡ (
      if is_ignored text_eq (codes "d/x" ∷ []) (codes "d/x")
      then none
      else lookup (codes "d/x") changes))
    × (exists (text_eq (codes "d/x")) (dropped_paths text_eq changes (codes "d/x" ∷ []))
        ≡ is_ignored text_eq (codes "d/x" ∷ []) (codes "d/x")
          && is_some (lookup (codes "d/x") changes))
lookup-apply_ignores_example = lookup-apply_ignores text_eq changes (codes "d/x" ∷ []) (codes "d/x")
