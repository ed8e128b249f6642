-- ===== src/Automator/Session/Status.antt =====
-- The public status of a session: `_runner_session_status`, `_terminal_runner_status`,
-- `_runner_claude_prompt_completed`, `_wait_for_terminal_state` and `estimate_wait` of
-- .agents/skills/bmad-story-automator/src/story_automator/core/tmux_runtime.py.
pub mod Final
pub mod Wait
use bowerbird.Base.{
  ℕ, zero, suc, ◌+◌, ◌*◌, ◌/◌, String, str_eq, Bool, true, false, not, ◌&&◌, ◌||◌, ◌==◌, ltb,
  Option, none, some, is_some, List, [], ◌∷◌, exists, if◌then◌else◌,
}
use bowerbird.Base.Int.{ℤ, pos, negsuc, eq_ℤ}
use bowerbird.Base.Text.{Text, codes, cut_at}
use bowerbird.Config.Value.{Fields, end, field, get, scalar}
use bowerbird.Automator.Json.{Json, Object, Scalar, int}
use bowerbird.Automator.Session.{
  Host, PaneSnapshot, text_of, safe_int, load_session_state, is_terminal_state, is_alive,
  pane_snapshot, finished_as, first_finish, saved, lifecycle_of, is_starting, number_or,
  reconcile_runner_state,
}

-- `status` and `session_state`
pub data Shown : Type 0 where
  idle active crashed_ not_found_ error : Shown

pub data SessionState : Type 0 where
  in_progress just_started completed stuck crashed not_found failed : SessionState

pub record Status : Type 0 where
  pub status : Shown
  pub todos_done : ℕ
  pub todos_total : ℕ
  pub active_task : Text
  pub wait_estimate : ℤ
  pub session_state : SessionState

abbrev pub not_found_status : Status
not_found_status = record {
  status = not_found_;
  todos_done = 0;
  todos_total = 0;
  active_task = [];
  wait_estimate = pos 0;
  session_state = not_found;
}

-- The other parts of the module that the status check calls: the captured pane, from a line on
-- (`_capture_text`), and what is read off it (`extract_active_task`,
-- `_claude_completion_marker_present`, `_check_prompt_visible`), the output file (`_output_text`,
-- `_export_output_file`), the status in the legacy mode, and the clock: whether a second has passed
-- between two machines, and a tick of 0.05 s, in which other processes run.
pub record Screen (M : Type 0) : Type 0 where
  pub capture_text : ℕ → M → Text
  pub extract_active_task : Text → Text
  pub completion_marker_present : Text → Bool
  pub prompt_visible : M → Bool
  pub output_text : M → Text
  pub export_output_file : M → Text × M
  pub legacy_session_status : M → Status × M
  pub expired : M → M → Bool
  pub sleep : M → M
  pub lower : Text → Text

abbrev pub count_char : ℕ → Text → ℕ
count_char c [] = 0
count_char c (d ∷ s) = if d == c then suc (count_char c s) else count_char c s

-- `_todo_counts`: the ballot boxes with and without a cross.
abbrev pub todo_counts : Text → ℕ × ℕ
todo_counts text = (count_char 9746 text, count_char 9746 text + count_char 9744 text)

abbrev pub contains_any : List Text → Text → Bool
contains_any words text = exists (λ word. is_some (cut_at word text)) words

abbrev pub progress_wait : ℕ → ℕ
progress_wait progress =
    if ltb progress 25
    then 90
    else if ltb progress 50
    then 75
    else if ltb progress 75
    then 60
    else 30

abbrev pub todo_wait : ℕ → ℕ → ℕ
todo_wait done zero = 60
todo_wait done (suc total) = progress_wait (100 * done / suc total)

-- `estimate_wait`, on the task in lower case.
unfoldable pub estimate_wait : Text → ℕ → ℕ → ℕ
estimate_wait lower done total =
    if contains_any
      (codes "loading"
        ∷ codes "reading"
        ∷ codes "searching"
        ∷ codes "parsing"
        ∷ codes "launching"
        ∷ codes "starting"
        ∷ [])
      lower
    then 30
    else if contains_any
        (codes "presenting" ∷ codes "waiting" ∷ codes "menu" ∷ codes "select" ∷ codes "choose" ∷ [])
        lower
    then 15
    else if contains_any
        (codes "running tests"
          ∷ codes "testing"
          ∷ codes "building"
          ∷ codes "compiling"
          ∷ codes "installing"
          ∷ [])
        lower
    then 120
    else if contains_any
        (codes "writing"
          ∷ codes "editing"
          ∷ codes "updating"
          ∷ codes "creating"
          ∷ codes "fixing"
          ∷ [])
        lower
    then 60
    else todo_wait done total

abbrev pub first_text : Text → Text → Text
first_text [] other = other
first_text (c ∷ s) other = c ∷ s

-- `max(count, 1 if text else 0)`
abbrev pub at_least : ℕ → Text → ℕ
at_least zero [] = 0
at_least zero (c ∷ s) = 1
at_least (suc n) text = suc n

module _ {M R : Type 0} (host : Host M R) (screen : Screen M) where
  open screen use {
    capture_text, extract_active_task, completion_marker_present, prompt_visible, output_text,
    export_output_file, legacy_session_status, expired, sleep, lower,
  }

  -- The loop of `_wait_for_terminal_state`, for at most the given number of ticks.
  unfoldable pub wait_for_terminal_state : M → ℕ → M → Object R × M
  wait_for_terminal_state start zero m = (load_session_state host m, m)
  wait_for_terminal_state start (suc ticks) m =
      let state = load_session_state host m in
      let rest = wait_for_terminal_state start ticks (sleep m) in
      if is_terminal_state host state || expired start m then (state, m) else rest

  abbrev pub exported : Bool → M → Text × M
  exported full m = if full then export_output_file m else ([], m)

  -- `if not state`
  abbrev pub is_empty : Object R → Bool
  is_empty end = true
  is_empty (field _ _ _) = false

  abbrev pub settled : Object R → Text → Text → Status
  settled state text output =
      let result = text_of host (get "result" state) in
      let todos = todo_counts text in
      if str_eq result "success"
      then record {
        status = idle;
        todos_done = at_least todos.0 text;
        todos_total = at_least todos.1 text;
        active_task = output;
        wait_estimate = pos 0;
        session_state = completed;
      }
      else if str_eq result "unknown"
          && str_eq (text_of host (get "failureReason" state)) "launch_never_succeeded"
      then record {
        status = idle;
        todos_done = todos.0;
        todos_total = todos.1;
        active_task = output;
        wait_estimate = pos 0;
        session_state = stuck;
      }
      else record {
        status = crashed_;
        todos_done = todos.0;
        todos_total = todos.1;
        active_task = output;
        wait_estimate = number_or host (safe_int host (get "exitCode" state)) (pos 1);
        session_state = crashed;
      }

  -- `_terminal_runner_status`
  unfoldable pub terminal_runner_status : Bool → Object R → M → Status × M
  terminal_runner_status full state m =
      let text = first_text (capture_text 300 m) (output_text m) in
      let (output, m') = exported full m in (settled state text output, m')

  -- The test of `_runner_claude_prompt_completed`, and what it saves.
  unfoldable pub is_prompt_completed : Object R → Text → M → Bool
  is_prompt_completed state capture m =
      str_eq (text_of host (get "agent" state)) "claude"
      && str_eq (lifecycle_of host state) "running"
      && prompt_visible m
      && completion_marker_present capture

  abbrev pub completed_as : Object R → M → Object R
  completed_as state m =
      finished_as host state (first_finish host state m) (host.iso_now m) "success"
        (scalar (int (pos 0))) ""

  abbrev pub labelled : Text → Bool → Text → Text → Text
  labelled task codex codex_label claude_label =
      first_text task (if codex then codex_label else claude_label)

  -- The three answers for a session that is not over.
  abbrev pub working_status : Bool → Text → Status
  working_status codex capture =
      let todos = todo_counts capture in
      let label =
        labelled (extract_active_task capture) codex (codes "Codex working")
          (codes "Claude working") in
      record {
        status = active;
        todos_done = todos.0;
        todos_total = todos.1;
        active_task = label;
        wait_estimate = pos (estimate_wait (lower label) todos.0 todos.1);
        session_state = in_progress;
      }

  abbrev pub starting_status : Bool → Text → Status
  starting_status codex capture =
      let todos = todo_counts capture in
      record {
        status = idle;
        todos_done = todos.0;
        todos_total = todos.1;
        active_task =
            labelled (extract_active_task capture) codex (codes "launching codex")
              (codes "launching claude");
        wait_estimate = pos 15;
        session_state = just_started;
      }

  abbrev pub stuck_status : Bool → Text → M → Status × M
  stuck_status full capture m =
      let (output, m') = exported full m in
      let todos = todo_counts capture in
      (
        record {
          status = idle;
          todos_done = todos.0;
          todos_total = todos.1;
          active_task = output;
          wait_estimate = pos 0;
          session_state = stuck;
        },
        m',
      )

  abbrev pub prompt_status : Bool → Object R → M → Status × M
  prompt_status full state m =
      let (state', m') = saved host (completed_as state m) m in
      terminal_runner_status full state' m'

  -- The end of `_runner_session_status`, for a session that is not over.
  unfoldable pub live_status : Bool → Bool → Object R → Bool → Bool → Bool → M → Status × M
  live_status full codex state pane_exists child_alive runner_alive m =
      let capture = capture_text 120 m in
      let lifecycle = lifecycle_of host state in
      if is_prompt_completed state capture m
      then prompt_status full state m
      else if str_eq lifecycle "running" && child_alive
      then (working_status codex capture, m)
      else if is_starting host lifecycle || runner_alive || pane_exists
      then (starting_status codex capture, m)
      else stuck_status full capture m

  -- What follows `_reconcile_runner_state`, whose answer is the state and the machine; the pids are
  -- looked up again (`none`) or known.
  abbrev pub alive_pids : Option (Bool × Bool) → Object R → M → Bool × Bool
  alive_pids none state m = (is_alive host "childPid" state m, is_alive host "runnerPid" state m)
  alive_pids (some alive) state m = alive

  unfoldable pub after_reconcile :
      Bool → Bool → PaneSnapshot → Option (Bool × Bool) → Object R × M → Status × M
  after_reconcile full codex pane known (state, m) =
      let (child, runner) = alive_pids known state m in
      if is_terminal_state host state
      then terminal_runner_status full state m
      else live_status full codex state pane.exists_ child runner m

  -- `refreshed or state`
  abbrev pub refreshed_or : Object R → Object R → Object R
  refreshed_or end state = state
  refreshed_or (field key v fs) state = field key v fs

  abbrev pub after_wait : Bool → Bool → Object R → PaneSnapshot → Object R × M → Status × M
  after_wait full codex state pane (refreshed, m) =
      if is_terminal_state host refreshed
      then terminal_runner_status full refreshed m
      else after_reconcile full codex pane none
          (reconcile_runner_state host (refreshed_or refreshed state) pane m)

  unfoldable pub active_status : ℕ → Bool → Bool → Object R → M → Status × M
  active_status ticks full codex state m =
      let pane = pane_snapshot host m in
      let child = is_alive host "childPid" state m in
      let runner = is_alive host "runnerPid" state m in
      if str_eq (lifecycle_of host state) "running" && not child
      then after_wait full codex state pane (wait_for_terminal_state m ticks m)
      else after_reconcile full codex pane (some (child, runner))
          (reconcile_runner_state host state pane m)

  -- `_runner_session_status`
  unfoldable pub runner_session_status : ℕ → Bool → Bool → M → Status × M
  runner_session_status ticks full codex m =
      let state = load_session_state host m in
      if is_empty state
      then (if host.has_session m then legacy_session_status m else (not_found_status, m))
      else if is_terminal_state host state
      then terminal_runner_status full state m
      else active_status ticks full codex state m
