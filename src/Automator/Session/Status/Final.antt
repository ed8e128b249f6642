-- ===== src/Automator/Session/Status/Final.antt =====
-- A session that is reported as completed stays so.
use bowerbird.Base.{
  ℕ, zero, suc, str_eq, Bool, true, false, not, ◌&&◌, ◌||◌, ◌≡◌, refl, sym, ap, ◌∙◌, inl, inr,
  Option, none, some, if◌then◌else◌, Bool-cases, arith,
}
use bowerbird.Base.Int.{pos}
use bowerbird.Base.Text.{Text}
use bowerbird.Config.Value.{end, field, get, scalar}
use bowerbird.Automator.Json.{text_or_empty, Object, int}
use bowerbird.Automator.Session.{
  Host, PaneSnapshot, text_of, load_session_state, loaded, is_terminal_state, is_alive,
  pane_snapshot, first_finish, lifecycle_of, is_starting, reconcile_runner_state,
}
use bowerbird.Automator.Session.Transitions.{
  ReadsBack, reconcile_runner_state-Moves, finished-is_terminal,
}
use bowerbird.Automator.Session.Status.{
  Status, Screen, completed, terminal_runner_status, settled, exported, live_status,
  is_prompt_completed, completed_as, after_reconcile, alive_pids, after_wait, active_status,
  runner_session_status, wait_for_terminal_state, is_empty, refreshed_or, first_text, prompt_status,
  working_status, starting_status, stuck_status,
}

module _ {M R : Type 0} (host : Host M R) (screen : Screen M) where
  open host use {state_file}
  open screen use {export_output_file}

  -- The export of the output leaves the state file alone.
  abbrev pub ExportKeeps : Type 0
  ExportKeeps = (m : M) → state_file (export_output_file m).1 ≡ state_file m

  -- A finished session with the result `success` in the state file.
  abbrev pub IsSuccess : M → Type 0
  IsSuccess m =
      (is_terminal_state host (load_session_state host m) ≡ true)
      × (str_eq (text_of host (get "result" (load_session_state host m))) "success" ≡ true)

  -- `completed` is said only where the file says so.
  abbrev pub IsHonest : Status × M → Type 0
  IsHonest r = r.0.session_state ≡ completed → IsSuccess r.1

  exported-keeps :
      ExportKeeps
      → (full : Bool) (m : M) → state_file (exported host screen full m).1 ≡ state_file m
  exported-keeps keeps true m = keeps m
  exported-keeps keeps false m = refl

  settled-success :
      (state : Object R) (text output : Text)
      → (settled host screen state text output).session_state ≡ completed
      → str_eq (text_of host (get "result" state)) "success" ≡ true
  settled-success state text output h = ground (arith, h)

  terminal_runner_status-IsHonest :
      ExportKeeps
      → (full : Bool) (state : Object R) (m : M) → load_session_state host m ≡ state
      → is_terminal_state host state ≡ true
      → IsHonest (terminal_runner_status host screen full state m)
  unfolding terminal_runner_status
  terminal_runner_status-IsHonest keeps full state m e done h =
      let same : load_session_state host (exported host screen full m).1 ≡ state =
        ap (loaded host) (exported-keeps keeps full m) ∙ e in
      rw same (
        done,
        settled-success state (first_text (screen.capture_text 300 m) (screen.output_text m))
            (exported host screen full m).0 h,
      )

  -- What live_status saves.
  saved_is : ReadsBack host → (d : Object R) (m : M) → load_session_state host (host.save d m) ≡ d
  saved_is back d m = ap (loaded host) (back d m)

  if-IsHonest :
      (b : Bool) (r s : Status × M) → IsHonest r → IsHonest s → IsHonest (if b then r else s)
  if-IsHonest true r s h k = h
  if-IsHonest false r s h k = k

  prompt-IsHonest :
      ReadsBack host
      → ExportKeeps
      → (full : Bool) (state : Object R) (m : M) → IsHonest (prompt_status host screen full state m)
  prompt-IsHonest back keeps full state m =
      let d = completed_as host screen state m in
      let at = first_finish host state m in
      terminal_runner_status-IsHonest keeps full (load_session_state host (host.save d m))
        (host.save d m) refl
        (ap (is_terminal_state host) (saved_is back d m)
          ∙ finished-is_terminal host state at (host.iso_now m) "success" "" (scalar (int (pos 0))))

  live_status-IsHonest :
      ReadsBack host
      → ExportKeeps
      → (full codex : Bool) (state : Object R) (pane child runner : Bool) (m : M)
      → IsHonest (live_status host screen full codex state pane child runner m)
  unfolding live_status
  live_status-IsHonest back keeps full codex state pane child runner m =
      let capture = screen.capture_text 120 m in
      let working : Status × M = (working_status host screen codex capture, m) in
      let starting : Status × M = (starting_status host screen codex capture, m) in
      let stuck = stuck_status host screen full capture m in
      let is_started = is_starting host (lifecycle_of host state) || runner || pane in
      let is_working = str_eq (lifecycle_of host state) "running" && child in
      if-IsHonest (is_prompt_completed host screen state capture m)
        (prompt_status host screen full state m)
        (if is_working then working else if is_started then starting else stuck)
        (prompt-IsHonest back keeps full state m)
        (if-IsHonest is_working working (if is_started then starting else stuck) (λ h. cc)
          (if-IsHonest is_started starting stuck (λ h. cc) (λ h. cc)))

  -- What a reconciliation gives: a state that the file holds, if it is terminal.
  abbrev IsBacked : Object R × M → Type 0
  IsBacked r = is_terminal_state host r.0 ≡ true → load_session_state host r.1 ≡ r.0

  reconciled-IsBacked :
      ReadsBack host
      → (state : Object R) (pane : PaneSnapshot) (m : M) → is_terminal_state host state ≡ false
      → IsBacked (reconcile_runner_state host state pane m)
  reconciled-IsBacked back state pane m live done =
      elim (reconcile_runner_state-Moves host back state pane m) [
        | inl (_, same, _) ↦
            let t : is_terminal_state host state ≡ true =
              ap (is_terminal_state host) (sym same) ∙ done in
            cc
        | inr (held, _, _, _) ↦ ap (loaded host) held
      ]

  after_reconcile-IsHonest :
      ReadsBack host
      → ExportKeeps
      → (full codex : Bool) (pane : PaneSnapshot) (known : Option (Bool × Bool)) (r : Object R × M)
      → IsBacked r
      → IsHonest (after_reconcile host screen full codex pane known r)
  unfolding after_reconcile
  after_reconcile-IsHonest back keeps full codex pane known (state, m) backed =
      elim (Bool-cases (is_terminal_state host state)) [
        | inl e ↦ rw e (terminal_runner_status-IsHonest keeps full state m (backed e) e)
        | inr e ↦ rw e (
            live_status-IsHonest back keeps full codex state pane.exists_
              (alive_pids host screen known state m).0 (alive_pids host screen known state m).1 m)
      ]

  waited-IsBacked :
      (start : M) (ticks : ℕ) (m : M)
      → load_session_state host (wait_for_terminal_state host screen start ticks m).1
        ≡ (wait_for_terminal_state host screen start ticks m).0
  unfolding wait_for_terminal_state
  waited-IsBacked start zero m = refl
  waited-IsBacked start (suc ticks) m =
      elim (Bool-cases
        (is_terminal_state host (load_session_state host m) || screen.expired start m)) [
          | inl e ↦ rw e refl
          | inr e ↦ rw e (waited-IsBacked start ticks (screen.sleep m))
        ]

  refreshed_or-live :
      (refreshed state : Object R)
      → is_terminal_state host refreshed ≡ false
      → is_terminal_state host state ≡ false
      → is_terminal_state host (refreshed_or host screen refreshed state) ≡ false
  refreshed_or-live end state h k = k
  refreshed_or-live (field key v fs) state h k = h

  after_wait-IsHonest :
      ReadsBack host
      → ExportKeeps
      → (full codex : Bool) (state : Object R) (pane : PaneSnapshot) (refreshed : Object R) (m : M)
      → is_terminal_state host state ≡ false
      → load_session_state host m ≡ refreshed
      → IsHonest (after_wait host screen full codex state pane (refreshed, m))
  after_wait-IsHonest back keeps full codex state pane refreshed m live e =
      elim (Bool-cases (is_terminal_state host refreshed)) [
        | inl t ↦ rw t (terminal_runner_status-IsHonest keeps full refreshed m e t)
        | inr t ↦ rw t (
            after_reconcile-IsHonest back keeps full codex pane none _ (
              reconciled-IsBacked back (refreshed_or host screen refreshed state) pane m
                (refreshed_or-live refreshed state t live)))
      ]

  active_status-IsHonest :
      ReadsBack host
      → ExportKeeps
      → (ticks : ℕ) (full codex : Bool) (state : Object R) (m : M)
      → is_terminal_state host state ≡ false
      → IsHonest (active_status host screen ticks full codex state m)
  unfolding active_status
  active_status-IsHonest back keeps ticks full codex state m live =
      let pane = pane_snapshot host m in
      let child = is_alive host "childPid" state m in
      let runner = is_alive host "runnerPid" state m in
      let (refreshed, m1) = wait_for_terminal_state host screen m ticks m in
      if-IsHonest (str_eq (lifecycle_of host state) "running" && not child)
        (after_wait host screen full codex state pane (refreshed, m1))
        (after_reconcile host screen full codex pane (some (child, runner))
          (reconcile_runner_state host state pane m))
        (after_wait-IsHonest back keeps full codex state pane refreshed m1 live
          (waited-IsBacked m ticks m))
        (after_reconcile-IsHonest back keeps full codex pane (some (child, runner))
          (reconcile_runner_state host state pane m) (reconciled-IsBacked back state pane m live))

  status-IsHonest :
      ReadsBack host
      → ExportKeeps
      → (ticks : ℕ) (full codex : Bool) (m : M)
      → is_empty host screen (load_session_state host m) ≡ false
      → IsHonest (runner_session_status host screen ticks full codex m)
  unfolding runner_session_status
  status-IsHonest back keeps ticks full codex m held =
      rw held (elim (Bool-cases (is_terminal_state host (load_session_state host m))) [
        | inl e ↦
            rw e (terminal_runner_status-IsHonest keeps full (load_session_state host m) m refl e)
        | inr e ↦
            rw e
              (active_status-IsHonest back keeps ticks full codex (load_session_state host m) m e)
      ])

  -- For a session with a state file, whose saves read back and whose export leaves it alone:
  -- `completed` is reported only if the file then holds a finished session with the result
  -- `success`, however long the check has waited and whatever it has reconciled.
  pub runner_session_status-IsSuccess :
      ReadsBack host
      → ExportKeeps
      → (ticks : ℕ) (full codex : Bool) (m : M)
      → is_empty host screen (load_session_state host m) ≡ false
      → (runner_session_status host screen ticks full codex m).0.session_state ≡ completed
      → IsSuccess (runner_session_status host screen ticks full codex m).1
  runner_session_status-IsSuccess back keeps ticks full codex m held h =
      status-IsHonest back keeps ticks full codex m held h

  empty_live :
      (state : Object R) → is_terminal_state host state ≡ true → is_empty host screen state ≡ false
  unfolding is_terminal_state text_or_empty get
  empty_live end h = cc
  empty_live (field key v fs) h = refl

  success-completed :
      ExportKeeps
      → (ticks : ℕ) (full codex : Bool) (m : M) → IsSuccess m
      → ((runner_session_status host screen ticks full codex m).0.session_state ≡ completed)
        × (state_file (runner_session_status host screen ticks full codex m).1 ≡ state_file m)
  unfolding runner_session_status terminal_runner_status
  success-completed keeps ticks full codex m (done, won) =
      rw (empty_live (load_session_state host m) done)
        (rw done (rw won (refl, exported-keeps keeps full m)))

  -- A session with a state file that one check reports as completed is completed for each check
  -- after it, which changes nothing in the state file.
  pub runner_session_status-again :
      ReadsBack host
      → ExportKeeps
      → (ticks : ℕ) (full codex : Bool) (m : M)
      → is_empty host screen (load_session_state host m) ≡ false
      → (runner_session_status host screen ticks full codex m).0.session_state ≡ completed
      → (ticks' : ℕ) (full' codex' : Bool)
      → ((runner_session_status host screen ticks' full' codex'
            (runner_session_status host screen ticks full codex m).1).0.session_state
          ≡ completed)
        × (state_file
              (runner_session_status host screen ticks' full' codex'
                (runner_session_status host screen ticks full codex m).1).1
            ≡ state_file (runner_session_status host screen ticks full codex m).1)
  runner_session_status-again back keeps ticks full codex m held h ticks' full' codex' =
      success-completed keeps ticks' full' codex' _
        (runner_session_status-IsSuccess back keeps ticks full codex m held h)
