-- ===== src/Automator/Hooks/Passes.antt =====
-- What the loops over the Stop hooks leave, and what a second pass over it does.
use bowerbird.Base.{
  String, Bool, true, false, ◌||◌, ◌≡◌, refl, sym, ap, Option, none, some, List, [], ◌∷◌, All,
  exists, Bool-cases, inl, inr, arith,
}
use bowerbird.Base.Int.{ℤ}
use bowerbird.Config.Value.{
  scalar, array, table, get, put, get-put, to_list, of_list, to_list-of_list,
}
use bowerbird.Automator.Json.{Json, Object, put_same}
use bowerbird.Automator.Hooks.{
  Scan, Python, is_own, normalize, scan_list, scan_hook, scan_handlers, scan_entry,
}
use bowerbird.Automator.Hooks.Calm.{
  IsSettled, normalize_settled, normalize-IsSettled, of_list-to_list,
}

-- The flags after a pass over something that needs no update.
abbrev pub noted : Scan → Bool → Scan
noted scan found = record scan { exists_ = scan.exists_ || found }

noted-false : (scan : Scan) → noted scan false ≡ scan
noted-false scan = ground arith

module _ {A : Type 0} (step : A → Scan → A × Scan) (Stable : A → Type 0) (has : A → Bool) where
  -- A step leaves a stable element, which a second one only looks at, and sees what it leaves.
  pub record Settles : Type 0 where
    pub leaves : (x : A) (scan : Scan) → Stable (step x scan).0
    pub again : (x : A) (scan : Scan) → Stable x → step x scan ≡ (x, noted scan (has x))
    pub sees : (x : A) (scan : Scan) → (step x scan).1.exists_ ≡ scan.exists_ || has (step x scan).0

  module _ (settles : Settles) where
    open settles use {leaves, again, sees}

    pub leaves_list : (xs : List A) (scan : Scan) → All Stable (scan_list step xs scan).0
    unfolding scan_list
    leaves_list [] scan = tt
    leaves_list (x ∷ xs) scan = (leaves x scan, leaves_list xs (step x scan).1)

    pub again_list :
        (xs : List A) (scan : Scan)
        → All Stable xs
        → scan_list step xs scan ≡ (xs, noted scan (exists has xs))
    unfolding scan_list
    again_list [] scan h = ap (λ s. ([], s)) (sym (noted-false scan))
    again_list (x ∷ xs) scan h =
        rw (again x scan h.0) (rw (again_list xs (noted scan (has x)) h.1) (ground arith))

    pub sees_list :
        (xs : List A) (scan : Scan)
        → (scan_list step xs scan).1.exists_ ≡ scan.exists_ || exists has (scan_list step xs scan).0
    unfolding scan_list
    sees_list [] scan = ground arith
    sees_list (x ∷ xs) scan = ground (arith, sees x scan, sees_list xs (step x scan).1)

-- The hooks of an entry.
abbrev pub handlers : {R : Type 0} → Option (Json R) → List (Json R)
handlers (some (array hooks)) = to_list hooks
handlers _ = []

module _ {R F : Type 0} (python : Python R F) (command : String) (timeout : ℤ)
    (status : Option String) where
  -- A hook of the story automator.
  abbrev pub is_ours : Json R → Bool
  is_ours (table hook) = is_own python command (get "command" hook)
  is_ours _ = false

  -- A hook that is not ours, or has what the command writes.
  abbrev pub IsSound : Json R → Type 0
  IsSound (table hook) =
      is_own python command (get "command" hook) ≡ true
      → IsSettled python command timeout status hook
  IsSound _ = Unit

  pub is_own-settled :
      (hook : Object R)
      → IsSettled python command timeout status hook
      → is_own python command (get "command" hook) ≡ true
  unfolding is_own
  is_own-settled hook h = rw h.1 refl

  abbrev step : Json R → Scan → Json R × Scan
  step = scan_hook python command timeout status

  abbrev fixed : Object R → Bool → Object R × Bool
  fixed hook needs = normalize python command timeout status (hook, needs)

  hook_leaves : (x : Json R) (scan : Scan) → IsSound (step x scan).0
  unfolding scan_hook
  hook_leaves (table hook) scan = elim (Bool-cases (is_own python command (get "command" hook))) [
    | inl e ↦
        rw e (λ _. normalize-IsSettled python command timeout status (hook, scan.needs_update))
    | inr e ↦ rw e (λ k. ground (arith, e, k))
  ]
  hook_leaves (scalar s) scan = tt
  hook_leaves (array s) scan = tt

  hook_again : (x : Json R) (scan : Scan) → IsSound x → step x scan ≡ (x, noted scan (is_ours x))
  unfolding scan_hook
  hook_again (table hook) scan h = elim (Bool-cases (is_own python command (get "command" hook))) [
    | inl e ↦ rw e (
        rw (normalize_settled python command timeout status hook scan.needs_update (h e))
          (ground arith))
    | inr e ↦ rw e (ground arith)
  ]
  hook_again (scalar s) scan h = ap (λ s'. (scalar s, s')) (sym (noted-false scan))
  hook_again (array s) scan h = ap (λ s'. (array s, s')) (sym (noted-false scan))

  hook_sees :
      (x : Json R) (scan : Scan) → (step x scan).1.exists_ ≡ scan.exists_ || is_ours (step x scan).0
  unfolding scan_hook
  hook_sees (table hook) scan = elim (Bool-cases (is_own python command (get "command" hook))) [
    | inl e ↦ rw e (
        rw
          (is_own-settled (fixed hook scan.needs_update).0
            (normalize-IsSettled python command timeout status (hook, scan.needs_update)))
          (ground arith))
    | inr e ↦ rw e (rw e (ground arith))
  ]
  hook_sees (scalar s) scan = ground arith
  hook_sees (array s) scan = ground arith

  pub scan_hook-Settles : Settles step IsSound is_ours
  scan_hook-Settles = record { leaves = hook_leaves; again = hook_again; sees = hook_sees }

  -- An entry of ours has a hook of ours; a sound one has sound hooks.
  abbrev pub has_ours : Json R → Bool
  has_ours (table entry) = exists is_ours (handlers (get "hooks" entry))
  has_ours _ = false

  abbrev pub AreSound : Json R → Type 0
  AreSound (table entry) = All IsSound (handlers (get "hooks" entry))
  AreSound _ = Unit

  abbrev entry_step : Json R → Scan → Json R × Scan
  entry_step = scan_entry python command timeout status

  abbrev handled : Object R → Scan → Option (Json R) → Json R × Scan
  handled = scan_handlers python command timeout status

  -- The list of handlers that an entry has after a pass.
  handlers-put :
      (ys : List (Json R)) (entry : Object R)
      → handlers (get "hooks" (put "hooks" (array (of_list ys)) entry)) ≡ ys
  handlers-put ys entry =
      rw (get-put "hooks" "hooks" (array (of_list ys)) entry) (to_list-of_list ys)

  handled_leaves :
      (entry : Object R) (scan : Scan) (o : Option (Json R))
      → get "hooks" entry ≡ o
      → AreSound (handled entry scan o).0
  handled_leaves entry scan (some (array hooks)) e =
      rw (handlers-put (scan_list step (to_list hooks) scan).0 entry)
        (leaves_list step IsSound is_ours scan_hook-Settles (to_list hooks) scan)
  handled_leaves entry scan none e = rw e tt
  handled_leaves entry scan (some (scalar s)) e = rw e tt
  handled_leaves entry scan (some (table s)) e = rw e tt

  handled_again :
      (entry : Object R) (scan : Scan) (o : Option (Json R))
      → get "hooks" entry ≡ o
      → All IsSound (handlers o)
      → handled entry scan o ≡ (table entry, noted scan (exists is_ours (handlers o)))
  handled_again entry scan (some (array hooks)) e h =
      rw (again_list step IsSound is_ours scan_hook-Settles (to_list hooks) scan h)
        (rw (of_list-to_list hooks) (rw (put_same "hooks" (array hooks) entry e) refl))
  handled_again entry scan none e h = ap (λ s'. (table entry, s')) (sym (noted-false scan))
  handled_again entry scan (some (scalar s)) e h =
      ap (λ s'. (table entry, s')) (sym (noted-false scan))
  handled_again entry scan (some (table s)) e h =
      ap (λ s'. (table entry, s')) (sym (noted-false scan))

  handled_sees :
      (entry : Object R) (scan : Scan) (o : Option (Json R))
      → get "hooks" entry ≡ o
      → (handled entry scan o).1.exists_ ≡ scan.exists_ || has_ours (handled entry scan o).0
  handled_sees entry scan (some (array hooks)) e =
      rw (handlers-put (scan_list step (to_list hooks) scan).0 entry)
        (sees_list step IsSound is_ours scan_hook-Settles (to_list hooks) scan)
  handled_sees entry scan none e = rw e (ground arith)
  handled_sees entry scan (some (scalar s)) e = rw e (ground arith)
  handled_sees entry scan (some (table s)) e = rw e (ground arith)

  entry_leaves : (x : Json R) (scan : Scan) → AreSound (entry_step x scan).0
  unfolding scan_entry
  entry_leaves (scalar s) scan = tt
  entry_leaves (array s) scan = tt
  entry_leaves (table entry) scan = handled_leaves entry scan (get "hooks" entry) refl

  entry_again :
      (x : Json R) (scan : Scan) → AreSound x → entry_step x scan ≡ (x, noted scan (has_ours x))
  unfolding scan_entry
  entry_again (scalar s) scan h = ap (λ s'. (scalar s, s')) (sym (noted-false scan))
  entry_again (array s) scan h = ap (λ s'. (array s, s')) (sym (noted-false scan))
  entry_again (table entry) scan h = handled_again entry scan (get "hooks" entry) refl h

  entry_sees :
      (x : Json R) (scan : Scan)
      → (entry_step x scan).1.exists_ ≡ scan.exists_ || has_ours (entry_step x scan).0
  unfolding scan_entry
  entry_sees (scalar s) scan = ground arith
  entry_sees (array s) scan = ground arith
  entry_sees (table entry) scan = handled_sees entry scan (get "hooks" entry) refl

  pub scan_entry-Settles : Settles entry_step AreSound has_ours
  scan_entry-Settles = record { leaves = entry_leaves; again = entry_again; sees = entry_sees }
