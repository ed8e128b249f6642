-- ===== src/Automator/Session/Tests.antt =====
-- Witnesses of the tmux session.
use bowerbird.Base.{◌+◌, ℕ, ◌+◌, true, false, ◌≡◌, refl, none, some, []}
use bowerbird.Base.Int.{pos}
use bowerbird.Base.Text.{codes}
use bowerbird.Config.Value.{scalar, end, field, get, put}
use bowerbird.Automator.Json.{text_or_empty, Object, text, int}
use bowerbird.Automator.Session.{
  StateFile, absent, object, no_process, PaneSnapshot, Host, text_of, load_session_state,
  is_terminal_state, reconcile_runner_state, safe_int, pid_alive, pane_snapshot,
  result_from_exit_code,
}
use bowerbird.Automator.Session.Transitions.{Moves, reconcile_runner_state-Moves}
use bowerbird.Automator.Session.Status.{
  Screen, not_found_status, completed, wait_for_terminal_state, runner_session_status,
  terminal_runner_status, active_status, after_reconcile,
}
use bowerbird.Automator.Session.Status.Final.{
  IsSuccess, runner_session_status-IsSuccess, runner_session_status-again,
}
use bowerbird.Automator.Session.Status.Wait.{ticked, EndsFirst, wait_for_terminal_state_first}

abbrev File : Type 0
File = StateFile ℕ

-- A machine that is its state file, with one pane that is alive.
abbrev machine : Host File ℕ
machine = record {
  state_file = λ m. m;
  save = λ d m. object d;
  kill = λ pid m. no_process;
  has_session = λ m. true;
  pane_dead = λ m. "0";
  pane_dead_status = λ m. "";
  iso_now = λ m. "now";
  elapsed = λ s m. none;
  exceeds_grace = λ x. false;
  truthy = λ x. false;
  whole = λ x. pos x;
  whole_text = λ s. none;
  shown_as = λ v. "";
}

-- A screen with the prompt, and a clock that is late at once.
abbrev prompt : Screen File
prompt = record {
  capture_text = λ n m. codes "Done";
  extract_active_task = λ s. [];
  completion_marker_present = λ s. true;
  prompt_visible = λ m. true;
  output_text = λ m. [];
  export_output_file = λ m. ([], m);
  legacy_session_status = λ m. (not_found_status, m);
  expired = λ start m. true;
  sleep = λ m. m;
  lower = λ s. s;
}

abbrev running : Object ℕ
running =
    field "agent" (scalar (text "claude"))
      (field "lifecycle" (scalar (text "running")) (field "runnerPid" (scalar (int (pos 7))) end))

abbrev launching : Object ℕ
launching = field "lifecycle" (scalar (text "launching")) (field "result" (scalar (text "")) end)

abbrev finished : Object ℕ
finished =
    field "lifecycle" (scalar (text "finished")) (field "result" (scalar (text "success")) end)

abbrev dead_pane : PaneSnapshot
dead_pane = record { exists_ = true; dead = true; dead_status = some (pos 130) }

reconcile_runner_state-Moves_example :
    Moves machine launching dead_pane absent
      (reconcile_runner_state machine launching dead_pane absent)
reconcile_runner_state-Moves_example =
    reconcile_runner_state-Moves machine (λ d m. refl) launching dead_pane absent

completed_run :
    (runner_session_status machine prompt 20 false false (object finished)).0.session_state
    ≡ completed
unfolding runner_session_status is_terminal_state text_or_empty get terminal_runner_status
completed_run = refl

-- A runner that is gone without a word is interrupted.
lost_run :
    text_of machine (
      get "result" (
        load_session_state machine
          (runner_session_status machine prompt 20 false false (object running)).1))
    ≡ "interrupted"
unfolding runner_session_status is_terminal_state text_or_empty get put terminal_runner_status
    active_status pane_snapshot safe_int pid_alive wait_for_terminal_state reconcile_runner_state
    result_from_exit_code after_reconcile
lost_run = refl

runner_session_status-IsSuccess_example :
    IsSuccess machine prompt
      (runner_session_status machine prompt 20 false false (object finished)).1
unfolding get
runner_session_status-IsSuccess_example =
    runner_session_status-IsSuccess machine prompt (λ d m. refl) (λ m. refl) 20 false false
      (object finished) refl completed_run

runner_session_status-again_example :
    ((runner_session_status machine prompt 3 true true
        (runner_session_status machine prompt 20 false false (object finished)).1).0.session_state
      ≡ completed)
    × ((runner_session_status machine prompt 3 true true
          (runner_session_status machine prompt 20 false false (object finished)).1).1
        ≡ (runner_session_status machine prompt 20 false false (object finished)).1)
runner_session_status-again_example =
    runner_session_status-again machine prompt (λ d m. refl) (λ m. refl) 20 false false
      (object finished) refl completed_run 3 true true

wait_for_terminal_state_first_example :
    (k : ℕ) × EndsFirst machine prompt absent k (object running)
    × ((more : ℕ)
        → wait_for_terminal_state machine prompt absent (2 + more) (object running) ≡ (
          load_session_state machine (ticked machine prompt k (object running)),
          ticked machine prompt k (object running),
        ))
wait_for_terminal_state_first_example =
    wait_for_terminal_state_first machine prompt absent (object running) 2 refl
