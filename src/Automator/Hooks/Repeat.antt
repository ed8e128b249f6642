-- ===== src/Automator/Hooks/Repeat.antt =====
-- `_ensure_json_stop_hook` on the file that it has left.
use bowerbird.Base.{
  String, Bool, true, false, ◌||◌, ◌≡◌, refl, sym, ap, subst, ◌∙◌, Option, none, some, List, [],
  ◌∷◌, ◌++◌, All, All-append, exists, Bool-cases, inl, inr, ◌⊎◌, arith, eq_refl,
}
use bowerbird.Base.Int.{ℤ}
use bowerbird.Config.Value.{
  scalar, array, table, get, put, get-put, to_list, of_list, to_list-of_list,
}
use bowerbird.Automator.Json.{Json, Object}
use bowerbird.Automator.Hooks.{
  Scan, Python, Hooked, value, failed, ◌>>>◌, Update, already_configured, File, absent, unreadable,
  holds, scan_list, scan_entry, payload_entry, payload_hook, settle, prepare_root, decoded,
  prepare_json_stop_hook, write_prepared_update, ensure_json_stop_hook, object_child, list_child,
}
use bowerbird.Automator.Hooks.Calm.{IsSettled, is_int_self}
use bowerbird.Automator.Hooks.Passes.{
  is_own-settled, has_ours, AreSound, scan_entry-Settles, leaves_list, again_list, sees_list,
}

module _ {R F : Type 0} (python : Python R F) (command : String) (timeout : ℤ)
    (status : Option String) where
  open python use {loads, dumps}

  -- The answer that nothing needs to be done.
  abbrev pub nothing_to_do : Update (Json R)
  nothing_to_do = record {
    changed = false;
    reason = already_configured;
    written = false;
    contents = none;
  }

  abbrev start : Scan
  start = record { exists_ = false; needs_update = false }

  abbrev pass : List (Json R) → Scan → List (Json R) × Scan
  pass = scan_list (scan_entry python command timeout status)

  -- Entries that a pass has left, one of them ours.
  abbrev AreDone : List (Json R) → Type 0
  AreDone entries =
      All (AreSound python command timeout status) entries
      × (exists (has_ours python command timeout status) entries ≡ true)

  settle-AreDone :
      (root hooks : Object R) (entries : List (Json R))
      → AreDone entries
      → settle python command timeout status root hooks (pass entries start) ≡ nothing_to_do
  settle-AreDone root hooks entries (sound, ours) =
      rw
        (again_list (scan_entry python command timeout status)
          (AreSound python command timeout status) (has_ours python command timeout status)
          (scan_entry-Settles python command timeout status) entries start sound)
        (rw ours refl)

  prepare_root-rooted :
      (root hooks : Object R) (entries : List (Json R))
      → AreDone entries
      → prepare_root python command timeout status
          (put "hooks" (table (put "Stop" (array (of_list entries)) hooks)) root)
        ≡ value nothing_to_do
  prepare_root-rooted root hooks entries done =
      let stop = put "Stop" (array (of_list entries)) hooks in
      let root' = put "hooks" (table stop) root in
      rw (get-put "hooks" "hooks" (table stop) root) (
        rw (get-put "Stop" "Stop" (array (of_list entries)) hooks)
          (rw (to_list-of_list entries) (ap value (settle-AreDone root' stop entries done))))

  payload-IsSettled :
      (s : Option String)
      → IsSettled python command timeout s (payload_hook python command timeout s)
  unfolding get put
  payload-IsSettled none = (refl, eq_refl command, is_int_self python command timeout none, tt)
  payload-IsSettled (some message) =
      (refl, eq_refl command, is_int_self python command timeout none, eq_refl message)

  payload-AreDone : AreDone (payload_entry python command timeout status ∷ [])
  unfolding get
  payload-AreDone = (
    ((λ _. payload-IsSettled status, tt), tt),
    rw
        (is_own-settled python command timeout status (payload_hook python command timeout status)
          (payload-IsSettled status))
        refl,
  )

  exists-append :
      {A : Type 0} (test : A → Bool) (xs ys : List A)
      → exists test (xs ++ ys) ≡ exists test xs || exists test ys
  exists-append test [] ys = ground arith
  exists-append test (x ∷ xs) ys = ground (arith, exists-append test xs ys)

  swept :
      (entries : List (Json R))
      → All (AreSound python command timeout status) (pass entries start).0
  swept entries =
      leaves_list (scan_entry python command timeout status)
        (AreSound python command timeout status) (has_ours python command timeout status)
        (scan_entry-Settles python command timeout status) entries start

  added-AreDone :
      (entries : List (Json R))
      → AreDone ((pass entries start).0 ++ (payload_entry python command timeout status ∷ []))
  added-AreDone entries = (
    All-append (AreSound python command timeout status) (pass entries start).0 _ (swept entries)
        payload-AreDone.0,
    ground (
      arith,
      exists-append (has_ours python command timeout status) (pass entries start).0
          (payload_entry python command timeout status ∷ []),
      payload-AreDone.1,
    ),
  )

  passed-AreDone :
      (entries : List (Json R))
      → (pass entries start).1.exists_ ≡ true
      → AreDone (pass entries start).0
  passed-AreDone entries h = (
    swept entries,
    sym (
          sees_list (scan_entry python command timeout status)
            (AreSound python command timeout status) (has_ours python command timeout status)
            (scan_entry-Settles python command timeout status) entries start)
        ∙ h,
  )

  -- What an update writes is left alone by the next run.
  abbrev IsQuiet : Update (Json R) → Type 0
  IsQuiet u =
      (u ≡ nothing_to_do)
      ⊎ ((root : Object R) × (u.written ≡ true)
          × (u.contents ≡ some (table root))
          × (prepare_root python command timeout status root ≡ value nothing_to_do))

  settle-IsQuiet :
      (root hooks : Object R) (entries : List (Json R))
      → IsQuiet (settle python command timeout status root hooks (pass entries start))
  settle-IsQuiet root hooks entries = elim (Bool-cases (pass entries start).1.exists_) [
    | inl e ↦ elim (Bool-cases (pass entries start).1.needs_update) [
      | inl n ↦ rw e (
          rw n (
            inr (
              _,
              refl,
              refl,
              prepare_root-rooted root hooks (pass entries start).0 (passed-AreDone entries e),
            )))
      | inr n ↦ rw e (rw n (inl refl))
    ]
    | inr e ↦ rw e (inr (_, refl, refl, prepare_root-rooted root hooks _ (added-AreDone entries)))
  ]

  abbrev at_root : Object R → Hooked (Update (Json R))
  at_root = prepare_root python command timeout status

  abbrev prepared : File F → Hooked (Update (Json R))
  prepared = prepare_json_stop_hook python command timeout status

  value-injective : {A : Type 0} (a b : A) → value a ≡ value b → a ≡ b
  value-injective a b h = cc

  -- The two lookups of a root.
  entries-IsQuiet :
      (root hooks : Object R) (o : Option (Json R)) (u : Update (Json R))
      → (list_child python command timeout status o >>> λ entries.
          value (settle python command timeout status root hooks (pass entries start)))
        ≡ value u
      → IsQuiet u
  entries-IsQuiet root hooks none u h =
      subst IsQuiet (value-injective _ u h) (settle-IsQuiet root hooks [])
  entries-IsQuiet root hooks (some (array entries)) u h =
      subst IsQuiet (value-injective _ u h) (settle-IsQuiet root hooks (to_list entries))
  entries-IsQuiet root hooks (some (scalar s)) u h = cc
  entries-IsQuiet root hooks (some (table s)) u h = cc

  hooks-IsQuiet :
      (root : Object R) (o : Option (Json R)) (u : Update (Json R))
      → (object_child python command timeout status o >>> λ hooks.
          (list_child python command timeout status (get "Stop" hooks) >>> λ entries.
          value (settle python command timeout status root hooks (pass entries start))))
        ≡ value u
      → IsQuiet u
  hooks-IsQuiet root none u h = entries-IsQuiet root _ (get "Stop" _) u h
  hooks-IsQuiet root (some (table hooks)) u h = entries-IsQuiet root hooks (get "Stop" hooks) u h
  hooks-IsQuiet root (some (scalar s)) u h = cc
  hooks-IsQuiet root (some (array s)) u h = cc

  read-IsQuiet :
      (o : Option (Json R)) (u : Update (Json R))
      → (decoded python command timeout status o >>> at_root) ≡ value u
      → IsQuiet u
  read-IsQuiet none u h = cc
  read-IsQuiet (some (scalar s)) u h = cc
  read-IsQuiet (some (array s)) u h = cc
  read-IsQuiet (some (table root)) u h = hooks-IsQuiet root (get "hooks" root) u h

  prepared-IsQuiet : (file : File F) (u : Update (Json R)) → prepared file ≡ value u → IsQuiet u
  unfolding prepare_json_stop_hook get
  prepared-IsQuiet absent u h = subst IsQuiet (value-injective _ u h) (
      inr (
        _,
        refl,
        refl,
        ap value
            (settle-AreDone _ _ (payload_entry python command timeout status ∷ []) payload-AreDone),
      ))
  prepared-IsQuiet unreadable u h = cc
  prepared-IsQuiet (holds contents) u h = read-IsQuiet (loads contents) u h

  -- What is dumped is loaded again.
  abbrev pub RoundTrip : Type 0
  RoundTrip = (v : Json R) → loads (dumps v) ≡ some v

  quiet_again :
      RoundTrip
      → (file file' : File F) (u : Update (Json R)) → prepared file ≡ value u
      → write_prepared_update python command timeout status u file ≡ value file'
      → IsQuiet u
      → prepared file' ≡ value nothing_to_do
  unfolding prepare_json_stop_hook
  quiet_again round file file' u p w (inl e) =
      let same : file ≡ file' = value-injective file file' (
        subst (λ u. write_prepared_update python command timeout status u file ≡ value file') e
          w) in
      subst (λ f. prepared f ≡ value nothing_to_do) same (p ∙ ap value e)
  quiet_again round file file' u p w (inr (root, wr, c, q)) =
      let made : file' ≡ holds (dumps (table root)) = ground (arith, w, wr, c) in
      subst (λ f. prepared f ≡ value nothing_to_do) (sym made) (rw (round (table root)) q)

  bound :
      {A B : Type 0} (r : Hooked A) (f : A → Hooked B) (b : B)
      → (r >>> f) ≡ value b
      → (a : A) × (r ≡ value a) × (f a ≡ value b)
  bound (value a) f b h = (a, refl, h)
  bound (failed code) f b h = cc

  -- If json loads what it dumps, the command that has succeeded succeeds again on the file that it
  -- has left, answers that everything is configured already, and leaves that file as it is.
  pub ensure_json_stop_hook-again :
      RoundTrip
      → (file file' : File F) (u : Update (Json R))
      → ensure_json_stop_hook python command timeout status file ≡ value (u, file')
      → ensure_json_stop_hook python command timeout status file' ≡ value (nothing_to_do, file')
  unfolding ensure_json_stop_hook
  ensure_json_stop_hook-again round file file' u h =
      let (v, p, rest) = bound (prepared file) _ (u, file') h in
      let (f, w, e) =
        bound (write_prepared_update python command timeout status v file) _ (u, file') rest in
      let same : f ≡ file' = ground (arith, e) in
      rw
        (quiet_again round file file' v p
          (subst (λ f. write_prepared_update python command timeout status v file ≡ value f) same w)
          (prepared-IsQuiet file v p))
        refl
