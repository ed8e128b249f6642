-- ===== src/Automator/Hooks.antt =====
-- The Stop hook in a JSON file, `_prepare_json_stop_hook` and what it calls, of
-- .agents/skills/bmad-story-automator/src/story_automator/core/stop_hooks.py.
pub mod Command
pub mod Calm
pub mod Passes
pub mod Repeat
pub mod Kept
mod Tests
use bowerbird.Base.{
  ℕ, String, str_eq, Bool, true, false, not, ◌&&◌, ◌||◌, Option, none, some, List, [], ◌∷◌, ◌++◌,
  if◌then◌else◌,
}
use bowerbird.Base.Int.{ℤ, pos, eq_ℤ}
use bowerbird.Base.Text.{Text}
use bowerbird.Config.Value.{
  Value, scalar, array, table, Items, nil, cons, Fields, end, field, get, put, to_list, of_list,
}
use bowerbird.Automator.Json.{Json, Object, Scalar, null, boolean, int, real, text, is_text}

-- The codes of HookConfigError, and an exception of the file system.
pub data Code : Type 0 where
  missing_settings missing_prepared_data : Code
  invalid_json invalid_json_object invalid_hooks_object invalid_stop_hooks : Code
  os_failure : Code

pub data Hooked (A : Type 0) : Type 0 where
  value : A → Hooked A
  failed : Code → Hooked A

infixl 5 ◌>>>◌
abbrev pub ◌>>>◌ : {A B : Type 0} → Hooked A → (A → Hooked B) → Hooked B
value a >>> f = f a
failed code >>> f = failed code

-- The reasons of HookInstallResult.
pub data Reason : Type 0 where
  created added hook_normalized already_configured : Reason

-- HookFileUpdate, without the path; `contents` is the JSON value whose text is to be written.
pub record Update (J : Type 0) : Type 0 where
  pub changed : Bool
  pub reason : Reason
  pub written : Bool
  pub contents : Option J

-- What a path holds: nothing, something that cannot be read or decoded, or a text.
pub data File (F : Type 0) : Type 0 where
  absent : File F
  unreadable : File F
  holds : F → File F

-- `exists` and `needs_update`
pub record Scan : Type 0 where
  pub exists_ : Bool
  pub needs_update : Bool

-- A loop that may change each element in place and sets the flags.
unfoldable pub scan_list : {A : Type 0} → (A → Scan → A × Scan) → List A → Scan → List A × Scan
scan_list step [] scan = ([], scan)
scan_list step (x ∷ xs) scan =
    let (x', scan1) = step x scan in let (xs', scan2) = scan_list step xs scan1 in (x' ∷ xs', scan2)

-- What the module takes from Python: `value == n` for a float, `shlex.split(str(value))`, none for
-- a ValueError, and json's two functions on texts of the type F.
pub record Python (R F : Type 0) : Type 0 where
  pub real_is : R → ℤ → Bool
  pub split_words : Option (Json R) → Option (List Text)
  pub is_digit : ℕ → Bool
  pub loads : F → Option (Json R)
  pub dumps : Json R → F

module _ {R F : Type 0} (python : Python R F) where
  open python use {real_is, split_words, is_digit, loads, dumps}

  -- `hook.get("timeout") == timeout`
  unfoldable pub is_int : ℤ → Option (Json R) → Bool
  is_int n (some (scalar (int m))) = eq_ℤ m n
  is_int n (some (scalar (boolean b))) = eq_ℤ (pos (if b then 1 else 0)) n
  is_int n (some (scalar (real x))) = real_is x n
  is_int n _ = false

  -- `_is_story_automator_stop_hook`
  unfoldable pub is_own : String → Option (Json R) → Bool
  is_own command existing =
      is_text command existing || Command.is_stop_hook is_digit (split_words existing)

  -- The field is assigned unless it passes the test; then the hook needs an update.
  unfoldable pub ensure_field :
      (Option (Json R) → Bool) → String → Json R → Object R × Bool → Object R × Bool
  ensure_field passes key v (hook, needs) =
      if passes (get key hook) then (hook, needs) else (put key v hook, true)

  abbrev pub ensure_status : Option String → Object R × Bool → Object R × Bool
  ensure_status none h = h
  ensure_status (some message) h =
      ensure_field (is_text message) "statusMessage" (scalar (text message)) h

  -- The four assignments of the loop's body.
  unfoldable pub normalize : String → ℤ → Option String → Object R × Bool → Object R × Bool
  normalize command timeout status h = ensure_status status (
      ensure_field (is_int timeout) "timeout" (scalar (int timeout)) (
        ensure_field (is_text command) "command" (scalar (text command))
          (ensure_field (is_text "command") "type" (scalar (text "command")) h)))

  -- `_stop_hook_payload`, the hook itself.
  abbrev pub with_status : Option String → Object R → Object R
  with_status none hook = hook
  with_status (some message) hook = put "statusMessage" (scalar (text message)) hook

  abbrev pub payload_hook : String → ℤ → Option String → Object R
  payload_hook command timeout status = with_status status (
      field "type" (scalar (text "command"))
        (field "command" (scalar (text command)) (field "timeout" (scalar (int timeout)) end)))

  abbrev pub one_field : String → Json R → Json R
  one_field key v = table (field key v end)

  abbrev pub payload_entry : String → ℤ → Option String → Json R
  payload_entry command timeout status =
      one_field "hooks" (array (cons (table (payload_hook command timeout status)) nil))

  abbrev pub payload : String → ℤ → Option String → Json R
  payload command timeout status =
      one_field "hooks" (one_field "Stop" (array (cons (payload_entry command timeout status) nil)))

  module _ (command : String) (timeout : ℤ) (status : Option String) where
    abbrev pub found : Object R × Bool → Json R × Scan
    found (hook, needs) = (table hook, record { exists_ = true; needs_update = needs })

    unfoldable pub scan_hook : Json R → Scan → Json R × Scan
    scan_hook (table hook) scan =
        if is_own command (get "command" hook)
        then found (normalize command timeout status (hook, scan.needs_update))
        else (table hook, scan)
    scan_hook other scan = (other, scan)

    -- The loop over the hooks of an entry, which changes them in place.
    abbrev pub scan_hooks : List (Json R) → Scan → List (Json R) × Scan
    scan_hooks = scan_list scan_hook

    abbrev pub scan_handlers : Object R → Scan → Option (Json R) → Json R × Scan
    scan_handlers entry scan (some (array hooks)) =
        let (hooks', scan') = scan_hooks (to_list hooks) scan in
        (table (put "hooks" (array (of_list hooks')) entry), scan')
    scan_handlers entry scan _ = (table entry, scan)

    unfoldable pub scan_entry : Json R → Scan → Json R × Scan
    scan_entry (table entry) scan = scan_handlers entry scan (get "hooks" entry)
    scan_entry other scan = (other, scan)

    abbrev pub scan_entries : List (Json R) → Scan → List (Json R) × Scan
    scan_entries = scan_list scan_entry

    -- `root.setdefault(key, {})` and `hooks.setdefault(key, [])`
    abbrev pub object_child : Option (Json R) → Hooked (Object R)
    object_child none = value end
    object_child (some (table hooks)) = value hooks
    object_child (some _) = failed invalid_hooks_object

    abbrev pub list_child : Option (Json R) → Hooked (List (Json R))
    list_child none = value []
    list_child (some (array entries)) = value (to_list entries)
    list_child (some _) = failed invalid_stop_hooks

    -- The root with its Stop hooks replaced.
    abbrev pub rooted : Object R → Object R → List (Json R) → Json R
    rooted root hooks entries =
        table (put "hooks" (table (put "Stop" (array (of_list entries)) hooks)) root)

    abbrev pub update : Reason → Json R → Update (Json R)
    update reason root = record {
      changed = true;
      reason = reason;
      written = true;
      contents = some root;
    }

    -- What the function returns, for the entries and the flags that the loop leaves.
    abbrev pub settle : Object R → Object R → List (Json R) × Scan → Update (Json R)
    settle root hooks (entries, scan) =
        if scan.exists_ && not scan.needs_update
        then record {
          changed = false;
          reason = already_configured;
          written = false;
          contents = none;
        }
        else if scan.exists_
        then update hook_normalized (rooted root hooks entries)
        else update added
            (rooted root hooks (entries ++ (payload_entry command timeout status ∷ [])))

    abbrev pub decoded : Option (Json R) → Hooked (Object R)
    decoded none = failed invalid_json
    decoded (some (table root)) = value root
    decoded (some _) = failed invalid_json_object

    abbrev pub read_object : File F → Hooked (Object R)
    read_object absent = failed os_failure
    read_object unreadable = failed os_failure
    read_object (holds contents) = decoded (loads contents)

    abbrev pub prepare_root : Object R → Hooked (Update (Json R))
    prepare_root root = object_child (get "hooks" root) >>> λ hooks.
        list_child (get "Stop" hooks) >>> λ entries. value (
          settle root hooks
            (scan_entries entries (record { exists_ = false; needs_update = false })))

    -- `_prepare_json_stop_hook`
    unfoldable pub prepare_json_stop_hook : File F → Hooked (Update (Json R))
    prepare_json_stop_hook absent = value (update created (payload command timeout status))
    prepare_json_stop_hook file = read_object file >>> prepare_root

    -- `_write_prepared_update`: what the path holds then.
    abbrev pub written_out : Option (Json R) → Hooked (File F)
    written_out none = failed missing_prepared_data
    written_out (some root) = value (holds (dumps root))

    abbrev pub write_prepared_update : Update (Json R) → File F → Hooked (File F)
    write_prepared_update u file = if u.written then written_out u.contents else value file

    -- `_ensure_json_stop_hook`, with the file that it leaves.
    unfoldable pub ensure_json_stop_hook : File F → Hooked (Update (Json R) × File F)
    ensure_json_stop_hook file = prepare_json_stop_hook file >>> λ u.
        write_prepared_update u file >>> λ file'. value (u, file')

  -- `ensure_claude_stop_hook`, for a settings path or none.
  unfoldable pub ensure_claude_stop_hook :
      Option (File F) → String → ℤ → Hooked (Update (Json R) × File F)
  ensure_claude_stop_hook none command timeout = failed missing_settings
  ensure_claude_stop_hook (some file) command timeout =
      ensure_json_stop_hook command timeout none file
