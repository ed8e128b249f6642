-- ===== src/Automator/Session/Transitions.antt =====
-- The transitions of `_reconcile_runner_state` and `_runner_claude_prompt_completed`.
use bowerbird.Base.{
  String, str_eq, Bool, true, false, not, ◌&&◌, ◌≡◌, refl, sym, ap, subst, ◌∙◌, ◌⊎◌, inl, inr, some,
  if◌then◌else◌,
}
use bowerbird.Base.Int.{pos}
use bowerbird.Config.Value.{scalar, get, put, get-put}
use bowerbird.Automator.Json.{text_or_empty, Json, Object, int}
use bowerbird.Automator.Session.{
  object, Host, PaneSnapshot, text_of, safe_int, load_session_state, loaded, is_terminal_state,
  is_alive, result_from_exit_code, words, exit_json, finished_as, first_finish, saved, lifecycle_of,
  is_starting, number_or, exceeds, reconcile_runner_state,
}

module _ {M R : Type 0} (host : Host M R) where
  open host use {state_file, save}

  -- A file that has been saved holds what was saved.
  abbrev pub ReadsBack : Type 0
  ReadsBack = (d : Object R) (m : M) → state_file (save d m) ≡ object d

  -- The pane is there and dead; a running session has neither its child nor its runner; and a
  -- session that has not begun to run has no pane, and is too old for that.
  abbrev pub has_died : PaneSnapshot → Bool
  has_died pane = pane.exists_ && pane.dead

  abbrev pub is_orphaned : Object R → M → Bool
  is_orphaned state m =
      str_eq (lifecycle_of host state) "running"
      && not (is_alive host "childPid" state m)
      && not (is_alive host "runnerPid" state m)

  abbrev pub is_overdue : Object R → PaneSnapshot → M → Bool
  is_overdue state pane m =
      is_starting host (lifecycle_of host state) && not pane.exists_ && exceeds host state m

  -- The state that a session has after one of the transitions, for its pane and the machine; each has
  -- its condition, and those before it do not hold.
  pub data Step (state : Object R) (pane : PaneSnapshot) (m : M) (next : Object R) : Type 0 where
    pane_died :
        has_died pane ≡ true
        → next
          ≡ finished_as host state
              (first_finish host state m)
              (host.iso_now m)
              (result_from_exit_code host pane.dead_status).0
              (exit_json host pane.dead_status)
              (result_from_exit_code host pane.dead_status).1
        → text_of host (get "result" next) ≡ (result_from_exit_code host pane.dead_status).0
        → Step state pane m next
    runner_lost :
        has_died pane ≡ false
        → is_orphaned state m ≡ true
        → next
          ≡ finished_as host state
              (first_finish host state m)
              (host.iso_now m)
              "interrupted"
              (scalar (int (number_or host (safe_int host (get "exitCode" state)) (pos 1))))
              "runner_finalization_missing"
        → text_of host (get "result" next) ≡ "interrupted"
        → Step state pane m next
    never_launched :
        has_died pane ≡ false
        → is_orphaned state m ≡ false
        → is_overdue state pane m ≡ true
        → next
          ≡ finished_as host state
              (host.iso_now m)
              (host.iso_now m)
              "unknown"
              (words host "")
              "launch_never_succeeded"
        → text_of host (get "result" next) ≡ "unknown"
        → Step state pane m next

  get-finished_as :
      (state : Object R) (at up result reason : String) (code : Json R)
      → (get "lifecycle" (finished_as host state at up result code reason)
          ≡ some (words host "finished"))
        × (get "result" (finished_as host state at up result code reason)
            ≡ some (words host result))
  get-finished_as state at up result reason code =
      let d1 = put "finishedAt" (words host at) state in
      let d2 = put "updatedAt" (words host up) d1 in
      let d3 = put "lifecycle" (words host "finished") d2 in
      let d4 = put "result" (words host result) d3 in
      let d5 = put "exitCode" code d4 in
      (
        rw (get-put "lifecycle" "failureReason" (words host reason) d5) (
            rw (get-put "lifecycle" "exitCode" code d4) (
              rw (get-put "lifecycle" "result" (words host result) d3)
                (rw (get-put "lifecycle" "lifecycle" (words host "finished") d2) refl))),
        rw (get-put "result" "failureReason" (words host reason) d5) (
            rw (get-put "result" "exitCode" code d4)
              (rw (get-put "result" "result" (words host result) d3) refl)),
      )

  -- A finished session is in a terminal state.
  pub finished-is_terminal :
      (state : Object R) (at up result reason : String) (code : Json R)
      → is_terminal_state host (finished_as host state at up result code reason) ≡ true
  unfolding is_terminal_state text_or_empty
  finished-is_terminal state at up result reason code =
      rw (get-finished_as state at up result reason code).0 refl

  pub finished-result :
      (state : Object R) (at up result reason : String) (code : Json R)
      → text_of host (get "result" (finished_as host state at up result code reason)) ≡ result
  unfolding text_or_empty
  finished-result state at up result reason code =
      rw (get-finished_as state at up result reason code).1 refl

  -- No transition is possible.
  abbrev pub IsSettled : Object R → PaneSnapshot → M → Type 0
  IsSettled state pane m =
      (is_terminal_state host state ≡ true)
      ⊎ ((has_died pane ≡ false)
          × (is_orphaned state m ≡ false)
          × (is_overdue state pane m ≡ false))

  -- Nothing has happened, as nothing could, or the file has taken one of the transitions from a state
  -- that is not terminal to one that is.
  abbrev pub Moves : Object R → PaneSnapshot → M → Object R × M → Type 0
  Moves state pane m (next, m') =
      (IsSettled state pane m × (next ≡ state) × (m' ≡ m))
      ⊎ ((state_file m' ≡ object next)
          × (is_terminal_state host state ≡ false)
          × (is_terminal_state host next ≡ true)
          × Step state pane m next)

  saved-Moves :
      (state d : Object R) (pane : PaneSnapshot) (m : M)
      → ReadsBack
      → is_terminal_state host state ≡ false
      → is_terminal_state host d ≡ true
      → Step state pane m d
      → Moves state pane m (saved host d m)
  saved-Moves state d pane m back open_ done step =
      let e : load_session_state host (save d m) ≡ d = ap (loaded host) (back d m) in
      inr (
        back d m ∙ ap object (sym e),
        open_,
        ap (is_terminal_state host) e ∙ done,
        subst (Step state pane m) (sym e) step,
      )

  -- A branch of either kind.
  branch-Moves :
      (b : Bool) (state : Object R) (pane : PaneSnapshot) (m : M) (r s : Object R × M)
      → (b ≡ true → Moves state pane m r)
      → (b ≡ false → Moves state pane m s)
      → Moves state pane m (if b then r else s)
  branch-Moves true state pane m r s h k = h refl
  branch-Moves false state pane m r s h k = k refl

  -- On a saved file that reads back, the reconciliation leaves a terminal state as it is. Any other
  -- state it finishes, and returns what the file holds then: with the result for the pane's exit
  -- status, where the pane is there and dead; else as interrupted, where the session is running and neither
  -- its child nor its runner is alive; else as unknown, where the session has not begun to run, has
  -- no pane and is older than the grace period. Where none of the three holds, nothing changes.
  pub reconcile_runner_state-Moves :
      ReadsBack
      → (state : Object R) (pane : PaneSnapshot) (m : M)
      → Moves state pane m (reconcile_runner_state host state pane m)
  unfolding reconcile_runner_state
  reconcile_runner_state-Moves back state pane m =
      let ended = result_from_exit_code host pane.dead_status in
      let at = first_finish host state m in
      let up = host.iso_now m in
      let died = finished_as host state at up ended.0 (exit_json host pane.dead_status) ended.1 in
      let code : Json R =
        scalar (int (number_or host (safe_int host (get "exitCode" state)) (pos 1))) in
      let lost = finished_as host state at up "interrupted" code "runner_finalization_missing" in
      let late = finished_as host state up up "unknown" (words host "") "launch_never_succeeded" in
      let unchanged : Object R × M = (state, m) in
      let on_late = if is_overdue state pane m then saved host late m else unchanged in
      let on_lost = if is_orphaned state m then saved host lost m else on_late in
      branch-Moves (is_terminal_state host state) state pane m unchanged
        (if has_died pane then saved host died m else on_lost) (λ h. inl (inl h, refl, refl))
        (λ open_.
          branch-Moves (has_died pane) state pane m (saved host died m) on_lost
            (λ h.
              saved-Moves state died pane m back open_
                (finished-is_terminal state at up ended.0 ended.1 (exit_json host pane.dead_status))
                (pane_died h refl
                  (finished-result state at up ended.0 ended.1 (exit_json host pane.dead_status))))
            (λ there.
              branch-Moves (is_orphaned state m) state pane m (saved host lost m) on_late
                (λ h.
                  saved-Moves state lost pane m back open_
                    (finished-is_terminal state at up "interrupted" "runner_finalization_missing"
                      code)
                    (runner_lost there h refl (
                      finished-result state at up "interrupted" "runner_finalization_missing"
                        code)))
                (λ kept.
                  branch-Moves (is_overdue state pane m) state pane m (saved host late m) unchanged
                    (λ h.
                      saved-Moves state late pane m back open_
                        (finished-is_terminal state up up "unknown" "launch_never_succeeded"
                          (words host ""))
                        (never_launched there kept h refl (
                          finished-result state up up "unknown" "launch_never_succeeded"
                            (words host ""))))
                    (λ soon. inl (inr (there, kept, soon), refl, refl)))))
