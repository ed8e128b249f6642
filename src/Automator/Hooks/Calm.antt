-- ===== src/Automator/Hooks/Calm.antt =====
-- A second pass over hooks that a first one has put right finds nothing to do.
use bowerbird.Base.{
  String, str_eq, eq_refl, Bool, true, false, ◌≡◌, refl, ap, Option, none, some, Bool-cases, inl,
  inr,
}
use bowerbird.Base.Int.{ℤ}
use bowerbird.Config.Value.{scalar, Items, nil, cons, get, get-put, to_list, of_list}
use bowerbird.Automator.Json.{Json, Object, int, text, is_text, eq_ℤ-self}
use bowerbird.Automator.Hooks.{Python, is_int, ensure_field, ensure_status, normalize}

pub of_list-to_list : {S : Type 0} (xs : Items S) → of_list (to_list xs) ≡ xs
of_list-to_list nil = refl
of_list-to_list (cons v xs) = ap (cons v) (of_list-to_list xs)

module _ {R F : Type 0} (python : Python R F) (passes : Option (Json R) → Bool) (key : String)
    (v : Json R) where
  ensure_field-same :
      (hook : Object R) (needs : Bool)
      → passes (get key hook) ≡ true
      → ensure_field python passes key v (hook, needs) ≡ (hook, needs)
  unfolding ensure_field
  ensure_field-same hook needs h = rw h refl

  ensure_field-passes :
      (h : Object R × Bool)
      → passes (some v) ≡ true
      → passes (get key (ensure_field python passes key v h).0) ≡ true
  unfolding ensure_field
  ensure_field-passes (hook, needs) ok = elim (Bool-cases (passes (get key hook))) [
    | inl e ↦ rw e e
    | inr e ↦ rw e (rw (get-put key key v hook) (rw (eq_refl key) ok))
  ]

  pub get-ensure_field :
      (j : String) (h : Object R × Bool)
      → str_eq key j ≡ false
      → get j (ensure_field python passes key v h).0 ≡ get j h.0
  unfolding ensure_field
  get-ensure_field j (hook, needs) other = elim (Bool-cases (passes (get key hook))) [
    | inl e ↦ rw e refl
    | inr e ↦ rw e (rw (get-put j key v hook) (rw other refl))
  ]

module _ {R F : Type 0} (python : Python R F) (command : String) (timeout : ℤ)
    (status : Option String) where
  abbrev IsShown : Option String → Object R → Type 0
  IsShown none hook = Unit
  IsShown (some message) hook = is_text message (get "statusMessage" hook) ≡ true

  -- The hook has what the command writes.
  abbrev pub IsSettled : Object R → Type 0
  IsSettled hook =
      (is_text "command" (get "type" hook) ≡ true)
      × (is_text command (get "command" hook) ≡ true)
      × (is_int python timeout (get "timeout" hook) ≡ true)
      × IsShown status hook

  ensure_status-same :
      (status : Option String) (hook : Object R) (needs : Bool)
      → IsShown status hook
      → ensure_status python status (hook, needs) ≡ (hook, needs)
  ensure_status-same none hook needs h = refl
  ensure_status-same (some message) hook needs h = ensure_field-same python _ _ _ hook needs h

  pub normalize_settled :
      (hook : Object R) (needs : Bool)
      → IsSettled hook
      → normalize python command timeout status (hook, needs) ≡ (hook, needs)
  unfolding normalize
  normalize_settled hook needs (typed, named, timed, shown) =
      rw
        (ensure_field-same python (is_text "command") "type" (scalar (text "command")) hook needs
          typed)
        (rw
          (ensure_field-same python (is_text command) "command" (scalar (text command)) hook needs
            named)
          (rw
            (ensure_field-same python (is_int python timeout) "timeout" (scalar (int timeout)) hook
              needs timed)
            (ensure_status-same status hook needs shown)))

  pub get-ensure_status :
      (status : Option String) (j : String) (h : Object R × Bool)
      → str_eq "statusMessage" j ≡ false
      → get j (ensure_status python status h).0 ≡ get j h.0
  get-ensure_status none j h other = refl
  get-ensure_status (some message) j h other = get-ensure_field python _ _ _ j h other

  ensure_status-IsShown :
      (status : Option String) (h : Object R × Bool)
      → IsShown status (ensure_status python status h).0
  ensure_status-IsShown none h = tt
  ensure_status-IsShown (some message) h =
      ensure_field-passes python (is_text message) "statusMessage" (scalar (text message)) h
        (eq_refl message)

  pub is_int_self : is_int python timeout (some (scalar (int timeout))) ≡ true
  unfolding is_int
  is_int_self = eq_ℤ-self timeout

  pub normalize-IsSettled :
      (h : Object R × Bool) → IsSettled (normalize python command timeout status h).0
  unfolding normalize
  normalize-IsSettled h =
      let h1 = ensure_field python (is_text "command") "type" (scalar (text "command")) h in
      let h2 = ensure_field python (is_text command) "command" (scalar (text command)) h1 in
      let h3 = ensure_field python (is_int python timeout) "timeout" (scalar (int timeout)) h2 in
      (
        rw (get-ensure_status status "type" h3 refl) (
            rw
              (get-ensure_field python (is_int python timeout) "timeout" (scalar (int timeout))
                "type" h2 refl)
              (rw
                (get-ensure_field python (is_text command) "command" (scalar (text command)) "type"
                  h1 refl)
                (ensure_field-passes python (is_text "command") "type" (scalar (text "command")) h
                  refl))),
        rw (get-ensure_status status "command" h3 refl) (
            rw
              (get-ensure_field python (is_int python timeout) "timeout" (scalar (int timeout))
                "command" h2 refl)
              (ensure_field-passes python (is_text command) "command" (scalar (text command)) h1
                (eq_refl command))),
        rw (get-ensure_status status "timeout" h3 refl) (
            ensure_field-passes python (is_int python timeout) "timeout" (scalar (int timeout)) h2
              is_int_self),
        ensure_status-IsShown status h3,
      )
