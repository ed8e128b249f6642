-- ===== src/Automator/Session/Status/Wait.antt =====
-- How long a status check waits, and the estimate that it reports.
use bowerbird.Base.{
  ℕ, zero, suc, ◌+◌, Bool, true, false, ◌||◌, ◌≡◌, refl, inl, inr, Bool-cases, arith,
}
use bowerbird.Automator.Session.{Host, load_session_state, is_terminal_state}
use bowerbird.Automator.Session.Status.{Screen, wait_for_terminal_state}

module _ {M R : Type 0} (host : Host M R) (screen : Screen M) where
  open screen use {expired, sleep}

  -- The machine after some ticks.
  abbrev pub ticked : ℕ → M → M
  ticked zero m = m
  ticked (suc n) m = ticked n (sleep m)

  -- The loop ends here: the state is terminal, or the deadline has passed.
  abbrev pub ends : M → M → Bool
  ends start m = is_terminal_state host (load_session_state host m) || expired start m

  -- The loop goes on for some ticks and ends at the next.
  abbrev pub EndsFirst : M → ℕ → M → Type 0
  EndsFirst start zero m = ends start m ≡ true
  EndsFirst start (suc n) m = (ends start m ≡ false) × EndsFirst start n (sleep m)

  -- Where the deadline passes within the given number of ticks, the wait, for these or more ticks,
  -- returns the machine after the first number of them at which the session's state is terminal or
  -- the deadline has passed, and the state that the file then holds.
  pub wait_for_terminal_state_first :
      (start m : M) (n : ℕ)
      → expired start (ticked n m) ≡ true
      → (k : ℕ) × EndsFirst start k m
        × ((more : ℕ)
            → wait_for_terminal_state host screen start (n + more) m
              ≡ (load_session_state host (ticked k m), ticked k m))
  unfolding wait_for_terminal_state
  wait_for_terminal_state_first start m zero h = (0, ground (arith, h), λ more. wait_late more)
    where
      wait_late :
          (more : ℕ)
          → wait_for_terminal_state host screen start (0 + more) m ≡ (load_session_state host m, m)
      wait_late zero = refl
      wait_late (suc more) =
          let e : 0 + suc more ≡ suc more = omega arith in rw e (ground (arith, h))
  wait_for_terminal_state_first start m (suc n) h =
      let (k, first, same) = wait_for_terminal_state_first start (sleep m) n h in
      elim (Bool-cases (ends start m)) [
        | inl stop ↦ (
          0,
          stop,
          λ more. let e : suc n + more ≡ suc (n + more) = omega arith in rw e (rw stop refl),
        )
        | inr go ↦ (
          suc k,
          (go, first),
          λ more. let e : suc n + more ≡ suc (n + more) = omega arith in rw e (rw go (same more)),
        )
      ]
