-- ===== src/FileList/Changes.antt =====
-- scripts/check-file-list.py, the repository's side: `parse_porcelain`, `describe_status`,
-- `unquote`, `collect_git_changes` and `apply_ignores`.
pub mod Status
use bowerbird.Base.{
  ℕ, zero, suc, Bool, true, false, not, ◌&&◌, ◌||◌, ◌==◌, Option, none, some, List, [], ◌∷◌, ◌++◌,
  ◌≡◌, refl, arith, exists, if◌then◌else◌, Result, ok, err, index_error, ◌>>=◌, foldl,
}
use bowerbird.Base.Text.{
  Text, codes, is_space, text_eq, text_eq_iff, after_prefix, strip, cut_at, splitlines,
}
use bowerbird.FileList.Story.{has_char}

-- The labels of changed paths.
pub data Label : Type 0 where
  untracked deleted added modified committed : Label
  renamed_old renamed_new copied_old copied_new : Label
  changed : Text → Label

-- A `dict` from paths to labels, in insertion order.
abbrev pub Changes : Type 0
Changes = List (Text × Label)

unfoldable pub lookup : Text → Changes → Option Label
lookup path [] = none
lookup path ((p, l) ∷ d) = if text_eq p path then some l else lookup path d

-- `changes[path] = label`
unfoldable pub assign : Text → Label → Changes → Changes
assign path label [] = (path, label) ∷ []
assign path label ((p, l) ∷ d) =
    if text_eq p path then (p, label) ∷ d else (p, l) ∷ assign path label d

pub lookup-assign :
    (q path : Text) (label : Label) (d : Changes)
    → lookup q (assign path label d) ≡ (if text_eq path q then some label else lookup q d)
unfolding lookup assign
lookup-assign q path label [] = refl
lookup-assign q path label ((p, l) ∷ d) =
    ground
      (arith, text_eq_iff path q, text_eq_iff p path, text_eq_iff p q, lookup-assign q path label d)

-- The entries of the working tree, over those of the branch.
unfoldable pub add_worktree : Changes → Changes → Changes
add_worktree [] changes = changes
add_worktree ((path, label) ∷ entries) changes = add_worktree entries (assign path label changes)

abbrev pub either : ℕ → ℕ → ℕ → Bool
either c x y = x == c || y == c

-- `code[0], code[1]`
unfoldable pub describe_status : Text → Result Label
describe_status [] = err index_error
describe_status (x ∷ []) = err index_error
describe_status (x ∷ y ∷ rest) = ok (
    if either b'D' x y
    then deleted
    else if either b'A' x y
    then added
    else if either b'M' x y
    then modified
    else if either b'?' x y
    then untracked
    else changed (strip is_space (x ∷ y ∷ rest)))

-- `json.loads` of a quoted text; `none` is a ValueError.
module _ (json_loads : Text → Option Text) where
  abbrev pub inner_of : Text → Text
  inner_of [] = []
  inner_of (c ∷ []) = []
  inner_of (c ∷ d ∷ s) = c ∷ inner_of (d ∷ s)

  abbrev pub ends_quoted : Text → Bool
  ends_quoted [] = false
  ends_quoted (c ∷ []) = c == b'"'
  ends_quoted (c ∷ d ∷ s) = ends_quoted (d ∷ s)

  -- `path[1:-1]` where the text cannot be decoded.
  abbrev pub decoded : Text → Option Text → Text
  decoded body none = inner_of body
  decoded body (some s) = s

  abbrev pub unquoted : Text → Text
  unquoted [] = []
  unquoted (c ∷ body) =
      if c == b'"' && ends_quoted body then decoded body (json_loads (c ∷ body)) else c ∷ body

  unfoldable pub unquote : Text → Text
  unquote path = unquoted (strip is_space path)

  abbrev pub take_two : Text → Text
  take_two [] = []
  take_two (x ∷ []) = x ∷ []
  take_two (x ∷ y ∷ s) = x ∷ y ∷ []

  abbrev pub drop_three : Text → Text
  drop_three (x ∷ y ∷ z ∷ s) = s
  drop_three _ = []

  abbrev pub is_blank : Text → Bool
  is_blank raw = elim (strip is_space raw) [ [] ↦ true | _ ∷ _ ↦ false ]

  -- The last two lines of the loop's body.
  abbrev pub plain_status : Text → Text → Changes → Result Changes
  plain_status code rest changes =
      describe_status code >>= λ label. ok (assign (unquote rest) label changes)

  abbrev pub moved : Bool → Option (Text × Text) → Text → Text → Changes → Result Changes
  moved renamed none code rest changes = plain_status code rest changes
  moved true (some (old, new)) code rest changes =
      ok (assign (unquote new) renamed_new (assign (unquote old) renamed_old changes))
  moved false (some (old, new)) code rest changes =
      ok (assign (unquote new) copied_new (assign (unquote old) copied_old changes))

  -- The body of the loop, for a line that is not blank.
  abbrev pub status_line : Text → Text → Changes → Result Changes
  status_line code rest changes =
      if text_eq code (codes "??")
      then ok (assign (unquote rest) untracked changes)
      else if has_char b'R' code || has_char b'C' code
      then moved (has_char b'R' code) (cut_at (codes " -> ") rest) code rest changes
      else plain_status code rest changes

  unfoldable pub porcelain_step : Changes → Text → Result Changes
  porcelain_step changes raw =
      if is_blank raw then ok changes else status_line (take_two raw) (drop_three raw) changes

  unfoldable pub parse_porcelain : Text → Result Changes
  parse_porcelain output = foldl porcelain_step [] (splitlines output)

  -- The committed paths, each under one label.
  unfoldable pub add_committed : List Text → Changes → Changes
  add_committed [] changes = changes
  add_committed (line ∷ lines) changes =
      add_committed lines
        (elim (unquote line) [ [] ↦ changes | c ∷ path ↦ assign (c ∷ path) committed changes ])

-- What `run_git` answers; `none` is a ToolingError.
pub record Git : Type 0 where
  pub merge_base : Text → Option Text
  pub head : Option Text
  pub diff : Text → Option Text
  pub status : Option Text
  pub ls_files : Option Text

-- Why the branch contributes nothing.
pub data Note : Type 0 where
  no_note no_base not_diverged : Note

-- A run that a ToolingError ends, or another exception.
pub data Audited (A : Type 0) : Type 0 where
  value : A → Audited A
  tooling : Audited A
  crash : Audited A

infixl 5 ◌>>>◌
abbrev pub ◌>>>◌ : {A B : Type 0} → Audited A → (A → Audited B) → Audited B
value a >>> f = f a
tooling >>> f = tooling
crash >>> f = crash

abbrev pub answered : {A : Type 0} → Option A → Audited A
answered none = tooling
answered (some a) = value a

abbrev pub returned : {A : Type 0} → Result A → Audited A
returned (ok a) = value a
returned (err e) = crash

module _ (json_loads : Text → Option Text) (git : Git) where
  open git use {merge_base, head, diff, status}

  -- An empty base or an unknown one gives no merge base.
  abbrev pub find_merge_base : Text → Text × Note
  find_merge_base [] = ([], no_note)
  find_merge_base (c ∷ base) = elim (merge_base (c ∷ base)) [
    | none ↦ ([], no_base)
    | some out ↦ (strip is_space out, no_note)
  ]

  abbrev pub branch_changes : Text × Note → Audited (Changes × Note)
  branch_changes ([], note) = value ([], note)
  branch_changes (c ∷ base, note) = answered head >>> λ out.
      if text_eq (c ∷ base) (strip is_space out)
      then value ([], not_diverged)
      else (answered (diff (c ∷ base)) >>> λ names.
          value (add_committed json_loads (splitlines names) [], note))

  unfoldable pub collect_git_changes : Text → Audited (Changes × Note)
  collect_git_changes base = branch_changes (find_merge_base base) >>> λ branch.
      answered status >>> λ porcelain.
      returned (parse_porcelain json_loads porcelain) >>> λ entries.
      value (add_worktree entries branch.0, branch.1)

-- `fnmatch.fnmatch(path, pattern)` is the parameter.
module _ (matches : Text → Text → Bool) where
  abbrev pub is_ignored : List Text → Text → Bool
  is_ignored patterns path = exists (matches path) patterns

  -- The kept entries; those dropped are `dropped_paths`.
  unfoldable pub apply_ignores : Changes → List Text → Changes
  apply_ignores [] patterns = []
  apply_ignores ((path, label) ∷ d) patterns =
      let rest = apply_ignores d patterns in
      if is_ignored patterns path then rest else (path, label) ∷ rest

  unfoldable pub dropped_paths : Changes → List Text → List Text
  dropped_paths [] patterns = []
  dropped_paths ((path, label) ∷ d) patterns =
      let rest = dropped_paths d patterns in if is_ignored patterns path then path ∷ rest else rest
