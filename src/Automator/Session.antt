-- ===== src/Automator/Session.antt =====
-- The state file of a tmux session and the transitions that a status check makes in it:
-- `load_session_state` to `_result_from_exit_code` of
-- .agents/skills/bmad-story-automator/src/story_automator/core/tmux_runtime.py.
pub mod Transitions
mod Tests
pub mod Status
use bowerbird.Base.{
  ℕ, String, str_eq, Bool, true, false, not, ◌&&◌, ◌||◌, ◌==◌, Option, none, some, List, [], ◌∷◌,
  if◌then◌else◌,
}
use bowerbird.Base.Int.{ℤ, pos, negsuc, eq_ℤ, lt_ℤ}
use bowerbird.Config.Value.{
  Value, scalar, array, table, Items, nil, cons, Fields, end, field, get, put,
}
use bowerbird.Automator.Json.{text_or_empty, Json, Object, Scalar, null, boolean, int, real, text}

-- What the path of the state file holds, where a file that can be read is UTF-8.
pub data StateFile (R : Type 0) : Type 0 where
  absent broken other_value : StateFile R
  object : Object R → StateFile R

-- What `os.kill(pid, 0)` does.
pub data Kill : Type 0 where
  delivered no_process not_permitted os_failure : Kill

pub record PaneSnapshot : Type 0 where
  pub exists_ : Bool
  pub dead : Bool
  pub dead_status : Option ℤ

-- The machine as a status check of one session sees it. `shown_as` is `str(value)` and `whole` is
-- `int(x)` of a finite float; `whole_text` is `int(text)`, or nothing for a ValueError.
pub record Host (M R : Type 0) : Type 0 where
  pub state_file : M → StateFile R
  pub save : Object R → M → M
  pub kill : ℤ → M → Kill
  pub has_session : M → Bool
  pub pane_dead : M → String
  pub pane_dead_status : M → String
  pub iso_now : M → String
  -- The seconds since a time stamp, or nothing for what is none.
  pub elapsed : String → M → Option R
  pub exceeds_grace : R → Bool
  pub truthy : R → Bool
  pub whole : R → ℤ
  pub whole_text : String → Option ℤ
  pub shown_as : Json R → String

abbrev pub or_zero : Option ℤ → ℤ
or_zero none = pos 0
or_zero (some n) = n

module _ {M R : Type 0} (host : Host M R) where
  open host use {
    state_file, save, kill, has_session, pane_dead, pane_dead_status, iso_now, elapsed,
    exceeds_grace, truthy, whole, whole_text, shown_as,
  }

  -- `str(value or "")`
  abbrev pub text_of : Option (Json R) → String
  text_of = text_or_empty truthy shown_as

  -- `_safe_int`
  unfoldable pub safe_int : Option (Json R) → ℤ
  safe_int (some (scalar (boolean b))) = pos (if b then 1 else 0)
  safe_int (some (scalar (int n))) = n
  safe_int (some (scalar (real x))) = whole x
  safe_int (some (scalar (text s))) = or_zero (whole_text s)
  safe_int _ = pos 0

  abbrev pub loaded : StateFile R → Object R
  loaded (object d) = d
  loaded _ = end

  abbrev pub load_session_state : M → Object R
  load_session_state m = loaded (state_file m)

  unfoldable pub is_terminal_state : Object R → Bool
  is_terminal_state state = str_eq (text_of (get "lifecycle" state)) "finished"

  abbrev pub killed : Kill → Bool
  killed delivered = true
  killed no_process = false
  killed not_permitted = true
  killed os_failure = false

  unfoldable pub pid_alive : ℤ → M → Bool
  pid_alive pid m = lt_ℤ (pos 0) pid && killed (kill pid m)

  -- `child_pid > 0 and _pid_alive(child_pid)`
  abbrev pub is_alive : String → Object R → M → Bool
  is_alive key state m = let pid = safe_int (get key state) in lt_ℤ (pos 0) pid && pid_alive pid m

  abbrev pub dead_status_of : String → Option ℤ
  dead_status_of String.[] = none
  dead_status_of (String.◌∷◌ c s) = some (or_zero (whole_text (String.◌∷◌ c s)))

  -- `_pane_snapshot`, what is used of it.
  unfoldable pub pane_snapshot : M → PaneSnapshot
  pane_snapshot m =
      if has_session m
      then record {
        exists_ = true;
        dead = str_eq (pane_dead m) "1";
        dead_status = dead_status_of (pane_dead_status m);
      }
      else record { exists_ = false; dead = false; dead_status = none }

  abbrev pub is_signal_exit : ℤ → Bool
  is_signal_exit n = eq_ℤ n (pos 130) || eq_ℤ n (pos 131) || eq_ℤ n (pos 143)

  -- `_result_from_exit_code`
  unfoldable pub result_from_exit_code : Option ℤ → String × String
  result_from_exit_code none = ("unknown", "pane_dead_unknown_status")
  result_from_exit_code (some n) =
      if eq_ℤ n (pos 0)
      then ("success", "")
      else if is_signal_exit n
      then ("interrupted", "pane_dead_signal")
      else if eq_ℤ n (pos 126) || eq_ℤ n (pos 127)
      then ("spawn_error", "runner_exec_failed")
      else ("failure", "pane_dead_exit")

  abbrev pub words : String → Json R
  words s = scalar (text s)

  abbrev pub exit_json : Option ℤ → Json R
  exit_json none = words ""
  exit_json (some n) = scalar (int n)

  -- `value or default`, for texts and for numbers
  abbrev pub text_or : String → String → String
  text_or String.[] default = default
  text_or (String.◌∷◌ c s) default = String.◌∷◌ c s

  abbrev pub number_or : ℤ → ℤ → ℤ
  number_or n default = if eq_ℤ n (pos 0) then default else n

  -- `{**state, ...}` with the entries of a finished session; an old key keeps its place.
  abbrev pub finished_as : Object R → String → String → String → Json R → String → Object R
  finished_as state finished_at updated result exit_code reason =
      put "failureReason" (words reason) (
        put "exitCode" exit_code (
          put "result" (words result) (
            put "lifecycle" (words "finished")
              (put "updatedAt" (words updated) (put "finishedAt" (words finished_at) state)))))

  abbrev pub first_finish : Object R → M → String
  first_finish state m = text_or (text_of (get "finishedAt" state)) (iso_now m)

  abbrev pub age_of : String → M → Option R
  age_of String.[] m = none
  age_of (String.◌∷◌ c s) m = elapsed (String.◌∷◌ c s) m

  -- `_state_age_seconds(state) > RECONCILE_GRACE_SECONDS`; with no time stamp the age is 0.
  abbrev pub is_old : Option R → Option R → Bool
  is_old (some age) _ = exceeds_grace age
  is_old none (some age) = exceeds_grace age
  is_old none none = false

  unfoldable pub exceeds : Object R → M → Bool
  exceeds state m =
      is_old (age_of (text_of (get "updatedAt" state)) m)
        (age_of (text_of (get "createdAt" state)) m)

  abbrev pub saved : Object R → M → Object R × M
  saved d m = let m' = save d m in (load_session_state m', m')

  abbrev pub lifecycle_of : Object R → String
  lifecycle_of state = text_of (get "lifecycle" state)

  abbrev pub is_starting : String → Bool
  is_starting lifecycle = str_eq lifecycle "created" || str_eq lifecycle "launching"

  -- `_reconcile_runner_state`, for the state that was read and the pane.
  unfoldable pub reconcile_runner_state : Object R → PaneSnapshot → M → Object R × M
  reconcile_runner_state state pane m =
      let lifecycle = lifecycle_of state in
      let (result, reason) = result_from_exit_code pane.dead_status in
      if is_terminal_state state
      then (state, m)
      else if pane.exists_ && pane.dead
      then saved
          (finished_as state (first_finish state m) (iso_now m) result (exit_json pane.dead_status)
            reason)
          m
      else if str_eq lifecycle "running"
          && not (is_alive "childPid" state m)
          && not (is_alive "runnerPid" state m)
      then saved
          (finished_as state (first_finish state m) (iso_now m) "interrupted"
            (scalar (int (number_or (safe_int (get "exitCode" state)) (pos 1))))
            "runner_finalization_missing")
          m
      else if is_starting lifecycle && not pane.exists_ && exceeds state m
      then saved
          (finished_as state (iso_now m) (iso_now m) "unknown" (words "") "launch_never_succeeded")
          m
      else (state, m)
