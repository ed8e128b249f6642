-- ===== src/Automator/Hooks/Kept.antt =====
-- What `_prepare_json_stop_hook` leaves as it was.
use bowerbird.Base.{
  ℕ, zero, suc, String, str_eq, Bool, false, ◌||◌, ◌≡◌, refl, ap, ◌∙◌, Option, none, some, List, [],
  ◌∷◌, ◌++◌, get_elem?, Bool-cases, inl, inr, ◌⊎◌, arith,
}
use bowerbird.Base.Int.{ℤ}
use bowerbird.Config.Value.{scalar, array, table, get, get-put, to_list, of_list, to_list-of_list}
use bowerbird.Automator.Json.{Json, Object, is_text, text, int}
use bowerbird.Automator.Hooks.{
  Scan, Python, is_own, is_int, ensure_field, normalize, scan_list, scan_hook, scan_handlers,
  scan_entry, settle, rooted,
}
use bowerbird.Automator.Hooks.Calm.{get-ensure_field, get-ensure_status}
use bowerbird.Automator.Hooks.Passes.{handlers}

-- The keys that the command sets.
abbrev pub is_set_key : String → Bool
is_set_key key =
    str_eq "type" key || str_eq "command" key || str_eq "timeout" key || str_eq "statusMessage" key

-- The hook at a place of an entry.
abbrev pub hooks_of : {R : Type 0} → Option (Json R) → List (Json R)
hooks_of (some (table entry)) = handlers (get "hooks" entry)
hooks_of _ = []

abbrev pub hook_at : {R : Type 0} → List (Json R) → ℕ → ℕ → Option (Json R)
hook_at entries i j = get_elem? (hooks_of (get_elem? entries i)) j

get_elem?-append :
    {A : Type 0} (xs ys : List A) (i : ℕ) (x : A)
    → get_elem? xs i ≡ some x
    → get_elem? (xs ++ ys) i ≡ some x
get_elem?-append [] ys i x h = cc
get_elem?-append (y ∷ xs) ys zero x h = h
get_elem?-append (y ∷ xs) ys (suc i) x h = get_elem?-append xs ys i x h

hook_at-append :
    {R : Type 0} (xs ys : List (Json R)) (i j : ℕ) (v : Json R) (o : Option (Json R))
    → get_elem? xs i ≡ o
    → get_elem? (hooks_of o) j ≡ some v
    → hook_at (xs ++ ys) i j ≡ some v
hook_at-append xs ys i j v none e h = cc
hook_at-append xs ys i j v (some entry) e h = rw (get_elem?-append xs ys i entry e) h

module _ {R F : Type 0} (python : Python R F) (command : String) (timeout : ℤ)
    (status : Option String) where
  -- A hook and what becomes of it: another's hook stays, and ours keeps its other keys.
  abbrev pub Keeps : Json R → Json R → Type 0
  Keeps (table hook) v =
      (is_own python command (get "command" hook) ≡ false → v ≡ table hook)
      × ((hook' : Object R) × (v ≡ table hook')
          × ((key : String) → is_set_key key ≡ false → get key hook' ≡ get key hook))
  Keeps other v = v ≡ other

  get-normalize :
      (key : String) (h : Object R × Bool)
      → is_set_key key ≡ false
      → get key (normalize python command timeout status h).0 ≡ get key h.0
  unfolding normalize
  get-normalize key h k =
      let h1 = ensure_field python (is_text "command") "type" (scalar (text "command")) h in
      let h2 = ensure_field python (is_text command) "command" (scalar (text command)) h1 in
      let h3 = ensure_field python (is_int python timeout) "timeout" (scalar (int timeout)) h2 in
      get-ensure_status python command timeout status status key h3 (ground (arith, k))
      ∙ get-ensure_field python (is_int python timeout) "timeout" (scalar (int timeout)) key h2
          (ground (arith, k))
      ∙ get-ensure_field python (is_text command) "command" (scalar (text command)) key h1
          (ground (arith, k))
      ∙ get-ensure_field python (is_text "command") "type" (scalar (text "command")) key h
          (ground (arith, k))

  scan_hook-Keeps :
      (v : Json R) (scan : Scan) → Keeps v (scan_hook python command timeout status v scan).0
  unfolding scan_hook
  scan_hook-Keeps (scalar s) scan = refl
  scan_hook-Keeps (array s) scan = refl
  scan_hook-Keeps (table hook) scan =
      elim (Bool-cases (is_own python command (get "command" hook))) [
        | inl e ↦ rw e (λ k. cc, (_, refl, λ key k. get-normalize key (hook, scan.needs_update) k))
        | inr e ↦ rw e (λ _. refl, (hook, refl, λ key k. refl))
      ]

  -- A loop changes each element by a step, whatever the flags are.
  scanned_at :
      {A : Type 0} (step : A → Scan → A × Scan) (xs : List A) (scan : Scan) (i : ℕ) (x : A)
      → get_elem? xs i ≡ some x
      → (s : Scan) × (get_elem? (scan_list step xs scan).0 i ≡ some (step x s).0)
  unfolding scan_list
  scanned_at step [] scan i x h = cc
  scanned_at step (y ∷ xs) scan zero x h =
      let e : y ≡ x = (cc) in (scan, ap (λ z. some (step z scan).0) e)
  scanned_at step (y ∷ xs) scan (suc i) x h = scanned_at step xs (step y scan).1 i x h

  -- The hooks of an entry after the loop.
  handled_at :
      (entry : Object R) (scan : Scan) (o : Option (Json R)) (j : ℕ) (v : Json R)
      → get "hooks" entry ≡ o
      → get_elem? (handlers o) j ≡ some v
      → (v' : Json R) × (get_elem?
            (hooks_of (some (scan_handlers python command timeout status entry scan o).0))
            j
          ≡ some v')
        × Keeps v v'
  handled_at entry scan (some (array hooks)) j v e h =
      let (s, at) =
        scanned_at (scan_hook python command timeout status) (to_list hooks) scan j v h in
      (
        _,
        rw
            (get-put "hooks" "hooks"
              (array (
                of_list
                  (scan_list (scan_hook python command timeout status) (to_list hooks) scan).0))
              entry)
            (rw
              (to_list-of_list
                (scan_list (scan_hook python command timeout status) (to_list hooks) scan).0)
              at),
        scan_hook-Keeps v s,
      )
  handled_at entry scan none j v e h = cc
  handled_at entry scan (some (scalar s)) j v e h = cc
  handled_at entry scan (some (table s)) j v e h = cc

  entry_at :
      (entry : Json R) (scan : Scan) (j : ℕ) (v : Json R)
      → get_elem? (hooks_of (some entry)) j ≡ some v
      → (v' : Json R) × (get_elem?
            (hooks_of (some (scan_entry python command timeout status entry scan).0))
            j
          ≡ some v')
        × Keeps v v'
  unfolding scan_entry
  entry_at (scalar s) scan j v h = cc
  entry_at (array s) scan j v h = cc
  entry_at (table entry) scan j v h = handled_at entry scan (get "hooks" entry) j v refl h

  hook_at_entry :
      (entries : List (Json R)) (scan : Scan) (i j : ℕ) (v : Json R) (o : Option (Json R))
      → get_elem? entries i ≡ o
      → get_elem? (hooks_of o) j ≡ some v
      → (v' : Json R) × (hook_at
            (scan_list (scan_entry python command timeout status) entries scan).0
            i
            j
          ≡ some v')
        × Keeps v v'
  hook_at_entry entries scan i j v none e h = cc
  hook_at_entry entries scan i j v (some entry) e h =
      let (s, at) = scanned_at (scan_entry python command timeout status) entries scan i entry e in
      let (v', there, kept) = entry_at entry s j v h in (v', rw at there, kept)

  -- Whatever the command writes has each hook of the old file at its place: another tool's as it
  -- was, and one of ours with its other keys.
  pub Keeps-settle :
      (root hooks : Object R) (entries : List (Json R)) (scan : Scan) (i j : ℕ) (v : Json R)
      → hook_at entries i j ≡ some v
      → ((settle python command timeout status root hooks
            (scan_list (scan_entry python command timeout status) entries scan)).contents
          ≡ none)
        ⊎ ((entries' : List (Json R)) × ((settle python command timeout status root hooks
                (scan_list (scan_entry python command timeout status) entries scan)).contents
              ≡ some (rooted python command timeout status root hooks entries'))
            × ((v' : Json R) × (hook_at entries' i j ≡ some v') × Keeps v v'))
  Keeps-settle root hooks entries scan i j v h =
      let (v', there, kept) = hook_at_entry entries scan i j v (get_elem? entries i) refl h in
      let after = scan_list (scan_entry python command timeout status) entries scan in
      elim (Bool-cases after.1.exists_) [
        | inl e ↦ elim (Bool-cases after.1.needs_update) [
          | inl n ↦ rw e (rw n (inr (_, refl, (v', there, kept))))
          | inr n ↦ rw e (rw n (inl refl))
        ]
        | inr e ↦ rw e (
            inr (
              _,
              refl,
              (v', hook_at-append after.0 _ i j v' (get_elem? after.0 i) refl there, kept),
            ))
      ]
