-- ===== src/FileList/Changes/Status.antt =====
-- `parse_porcelain` and `apply_ignores` of scripts/check-file-list.py.
use bowerbird.Base.{
  ℕ, Bool, true, false, ◌&&◌, ◌||◌, ◌≡◌, refl, ap, ◌⊎◌, Option, none, some, is_some, List, [], ◌∷◌,
  arith, exists, All, if◌then◌else◌, Bool-cases, inl, inr, Result, ok, foldl_total,
}
use bowerbird.Base.Text.{
  Text, codes, text_eq, text_eq_iff, is_space, strip, rstrip, trimmed, drop_while, cut_at,
  splitlines,
}
use bowerbird.FileList.Story.{has_char}
use bowerbird.FileList.Changes.{
  renamed_old, renamed_new, untracked, Changes, lookup, assign, lookup-assign, is_blank,
  status_line, moved, unquote, describe_status, plain_status, porcelain_step, parse_porcelain,
  is_ignored, apply_ignores, dropped_paths, drop_three,
}

-- The ignored paths are the dropped ones, and every other path keeps its label.
pub lookup-apply_ignores :
    (matches : Text → Text → Bool) (changes : Changes) (patterns : List Text) (path : Text)
    → (lookup path (apply_ignores matches changes patterns)
        ≡ (if is_ignored matches patterns path then none else lookup path changes))
      × (exists (text_eq path) (dropped_paths matches changes patterns)
          ≡ is_ignored matches patterns path && is_some (lookup path changes))
unfolding lookup apply_ignores dropped_paths
lookup-apply_ignores matches [] patterns path = (ground arith, ground arith)
lookup-apply_ignores matches ((p, l) ∷ changes) patterns path =
    let (kept, gone) = lookup-apply_ignores matches changes patterns path in
    let same : text_eq p path ≡ true
        → is_ignored matches patterns p ≡ is_ignored matches patterns path =
      (λ e. ap (is_ignored matches patterns) ((text_eq_iff p path).0 e)) in
    elim (Bool-cases (text_eq p path)) [
      | inl e ↦ (
        ground (arith, e, same e, kept),
        ground (arith, e, same e, gone, text_eq_iff p path, text_eq_iff path p),
      )
      | inr e ↦
          (ground (arith, e, kept), ground (arith, e, gone, text_eq_iff p path, text_eq_iff path p))
    ]

-- A line of the porcelain format: blank, or a code of two characters and what follows it.
abbrev pub IsStatusLine : (Text → Option Text) → Text → Type 0
IsStatusLine json_loads raw =
    (is_blank json_loads raw ≡ true)
    ⊎ ((x : ℕ) × ((y : ℕ) × ((rest : Text) × (raw ≡ x ∷ y ∷ rest))))

shown :
    (c : ℕ) (r : Text)
    → ◌≡◌ {A = Bool} (elim (trimmed false c r) [ [] ↦ true | _ ∷ _ ↦ false ]) false
shown c [] = refl
shown c (d ∷ r) = refl

module _ (json_loads : Text → Option Text) where
  -- A line that starts with an R is not blank.
  is_blank-renamed : (s : Text) → is_blank json_loads (b'R' ∷ s) ≡ false
  unfolding strip rstrip drop_while is_space
  is_blank-renamed s = shown b'R' (rstrip is_space s)

  -- A line `R. old -> new` succeeds and lists both paths, whatever was listed before: the new one
  -- as `renamed_new`, the old one, if it differs, as `renamed_old`, and no other path changes.
  lookup-porcelain_step :
      (y z : ℕ) (rest old new : Text) (changes : Changes)
      → cut_at (codes " -> ") rest ≡ some (old, new)
      → (next : Changes) × ((porcelain_step json_loads changes (b'R' ∷ y ∷ z ∷ rest) ≡ ok next)
          × ((path : Text)
              → lookup path next ≡ (
                  if text_eq (unquote json_loads new) path
                  then some renamed_new
                  else if text_eq (unquote json_loads old) path
                  then some renamed_old
                  else lookup path changes)))
  unfolding porcelain_step text_eq
  lookup-porcelain_step y z rest old new changes h =
      let first = assign (unquote json_loads old) renamed_old changes in
      (
        assign (unquote json_loads new) renamed_new first,
        (
          rw (is_blank-renamed (y ∷ z ∷ rest)) (rw h refl),
          λ path. ground (
            arith,
            lookup-assign path (unquote json_loads new) renamed_new first,
            lookup-assign path (unquote json_loads old) renamed_old changes,
          ),
        ),
      )

  abbrev Succeeds : Result Changes → Type 0
  Succeeds r = (next : Changes) × (r ≡ ok next)

  plain_status-ok :
      (x y : ℕ) (rest : Text) (changes : Changes)
      → Succeeds (plain_status json_loads (x ∷ y ∷ []) rest changes)
  unfolding describe_status
  plain_status-ok x y rest changes = (_, refl)

  moved-ok :
      (renamed : Bool) (cut : Option (Text × Text)) (x y : ℕ) (rest : Text) (changes : Changes)
      → Succeeds (moved json_loads renamed cut (x ∷ y ∷ []) rest changes)
  moved-ok renamed none x y rest changes = plain_status-ok x y rest changes
  moved-ok true (some (old, new)) x y rest changes = (_, refl)
  moved-ok false (some (old, new)) x y rest changes = (_, refl)

  choice_ok :
      (b : Bool) (r s : Result Changes) → Succeeds r → Succeeds s → Succeeds (if b then r else s)
  choice_ok true r s h k = h
  choice_ok false r s h k = k

  status_line-ok :
      (x y : ℕ) (rest : Text) (changes : Changes)
      → Succeeds (status_line json_loads (x ∷ y ∷ []) rest changes)
  status_line-ok x y rest changes =
      let code : Text = x ∷ y ∷ [] in
      let seen = assign (unquote json_loads rest) untracked changes in
      let plain = plain_status json_loads code rest changes in
      let renamed = has_char b'R' code in
      let cut = cut_at (codes " -> ") rest in
      let both = moved json_loads renamed cut code rest changes in
      choice_ok (text_eq code (codes "??")) (ok seen)
        (if renamed || has_char b'C' code then both else plain) (seen, refl)
        (choice_ok (renamed || has_char b'C' code) both plain
          (moved-ok renamed cut x y rest changes) (plain_status-ok x y rest changes))

  step_ok :
      (changes : Changes) (raw : Text)
      → IsStatusLine json_loads raw
      → Succeeds (porcelain_step json_loads changes raw)
  unfolding porcelain_step
  step_ok changes raw (inl blank) = rw blank (changes, refl)
  step_ok changes raw (inr (x, (y, (rest, e)))) =
      let line =
        status_line json_loads (x ∷ y ∷ []) (drop_three json_loads (x ∷ y ∷ rest)) changes in
      rw e (
        choice_ok (is_blank json_loads (x ∷ y ∷ rest)) (ok changes) line (changes, refl)
          (status_line-ok x y (drop_three json_loads (x ∷ y ∷ rest)) changes))

  -- The parse raises nothing on a listing whose lines are each blank or have two characters or more.
  parse_porcelain-ok :
      (output : Text)
      → All (IsStatusLine json_loads) (splitlines output)
      → Succeeds (parse_porcelain json_loads output)
  unfolding parse_porcelain
  parse_porcelain-ok output h =
      let (next, e, _) =
        foldl_total {0, 0, 0, 0} (λ _. Unit) (IsStatusLine json_loads) (porcelain_step json_loads)
          (λ changes raw _ q. let (n, e) = step_ok changes raw q in (n, e, tt)) (splitlines output)
          [] h tt in
      (next, e)
