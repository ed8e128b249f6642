-- ===== src/Bench/Wrapper/Verdict.antt =====
-- The exit status of the wrapper as a decision table over what the two attempts came to.
use bowerbird.Base.{
  String, ◌≡◌, refl, Bool, false, not, Option, none, some, List, arith, if◌then◌else◌, ok, err,
  value_error, ◌⊎◌, ap, ◌∙◌, ◌==◌, ==_iff, Bool-cases, inl, inr,
}
use bowerbird.Base.Int.{ℤ, pos, negsuc, eq_ℤ}
use bowerbird.Bench.Wrapper.{
  Host, bench, gate, Line, World, goes, ◌>>>◌, returned, run, check_bench, run_bench, bench_status,
  preserved, second_verdict, second_attempt, remeasure, first_verdict, first_attempt, main,
  exit_code, final, is_empty, or_placeholder,
}

-- What one attempt comes to, benchmark and gate.
pub data Attempt : Type 0 where
  not_spawned : Attempt
  bench_crashed : ℤ → Attempt
  nothing_written : Attempt
  judged : ℤ → Attempt

module _ (H : Host) where
  open H use {
    Machine, FilePath, spawn, split, attempt1_of, unlink, present, copyfile, read_text,
    os_error_text,
  }

  abbrev gate_ran : Option ℤ × Machine → Attempt × Machine
  gate_ran (none, m) = (not_spawned, m)
  gate_ran (some rc, m) = (judged rc, m)

  abbrev bench_ran : List String → FilePath → Option ℤ × Machine → Attempt × Machine
  bench_ran gate_cmd summary (none, m) = (not_spawned, m)
  bench_ran gate_cmd summary (some rc, m) =
      if not (eq_ℤ rc (pos 0))
      then (bench_crashed rc, m)
      else if not (present summary m)
      then (nothing_written, m)
      else gate_ran (spawn gate_cmd m)

  -- One attempt on the machine alone, without the wrapper's bookkeeping.
  abbrev pub attempted : List String → List String → FilePath → Machine → Attempt × Machine
  attempted bench_cmd gate_cmd summary m = bench_ran gate_cmd summary (spawn bench_cmd m)

  -- The exit code of an attempt that decides.
  abbrev pub decided : Attempt → ℤ
  decided not_spawned = pos 2
  decided (bench_crashed rc) = if eq_ℤ rc (negsuc 0) then pos 2 else rc
  decided nothing_written = pos 2
  decided (judged rc) = if eq_ℤ rc (pos 0) then pos 0 else if eq_ℤ rc (pos 1) then pos 1 else pos 2

  -- Only a policy failure earns a second attempt.
  abbrev pub is_policy_failure : Attempt → Bool
  is_policy_failure (judged rc) = eq_ℤ rc (pos 1)
  is_policy_failure _ = false

  abbrev pub copied : Option Machine → Machine → Machine
  copied none m = m
  copied (some m') m = m'

  machine-preserved :
      (o : Option Machine) (w : World Machine) → (preserved H o w).machine ≡ copied o w.machine
  machine-preserved none w = refl
  machine-preserved (some m) w = refl

  -- A summary that a passing second attempt quotes is text, or cannot be read at all.
  abbrev pub IsQuotable : FilePath → Type 0
  IsQuotable path =
      (m : Machine)
      → (text : String) × (or_placeholder H (os_error_text path m) (read_text path m) ≡ ok text)

  module _ (bench_cmd gate_cmd : List String) (attempt1_path summary : FilePath)
      (quotable1 : IsQuotable attempt1_path) (quotable : IsQuotable summary) where
    second_verdict_lem :
        (rc : ℤ) (w : World Machine)
        → exit_code H (second_verdict H attempt1_path summary rc w) ≡ decided (judged rc)
    unfolding second_verdict
    second_verdict_lem rc w = elim (Bool-cases (eq_ℤ rc (pos 0))) [
      | inl e ↦ rw e (rw (quotable1 w.machine).1 (rw (quotable w.machine).1))
      | inr e ↦ rw e (ground arith)
    ]

    gate_second :
        (r : Option ℤ × Machine) (lines : List Line)
        → exit_code H (returned H gate 2 r lines >>> second_verdict H attempt1_path summary)
          ≡ decided (gate_ran r).0
    gate_second (none, m) lines = refl
    gate_second (some rc, m) lines = second_verdict_lem rc (record { lines = lines; machine = m })

    second_attempt_on :
        (r : Option ℤ × Machine) (lines : List Line)
        → exit_code H (
            returned H bench 2 r lines >>> check_bench H summary 2 >>> λ bench_rc w1.
            if not (eq_ℤ bench_rc (pos 0))
            then goes (bench_status H bench_rc) w1
            else (run H gate_cmd gate 2 w1 >>> second_verdict H attempt1_path summary))
          ≡ decided (bench_ran gate_cmd summary r).0
    unfolding run
    second_attempt_on (none, m) lines = refl
    second_attempt_on (some rc, m) lines = elim (Bool-cases (eq_ℤ rc (pos 0))) [
      | inr e ↦ rw e (rw e refl)
      | inl e ↦ elim (Bool-cases (present summary m)) [
        | inr absent ↦ rw e (rw absent refl)
        | inl there ↦ rw e (rw there (gate_second (spawn gate_cmd m) _))
      ]
    ]

    second_attempt_lem :
        (w : World Machine)
        → exit_code H (second_attempt H bench_cmd gate_cmd attempt1_path summary w)
          ≡ decided (attempted bench_cmd gate_cmd summary w.machine).0
    unfolding second_attempt run_bench run
    second_attempt_lem w = second_attempt_on (spawn bench_cmd w.machine) _

    -- What the first attempt decides, or the second on the machine that the first one left, with
    -- the summary copied.
    abbrev pub best_of_two : Attempt × Machine → ℤ
    best_of_two (a, m) =
        if is_policy_failure a
        then decided
            (attempted bench_cmd gate_cmd summary (copied (copyfile summary attempt1_path m) m)).0
        else decided a

    first_verdict_lem :
        (rc : ℤ) (w : World Machine)
        → exit_code H (first_verdict H bench_cmd gate_cmd attempt1_path summary rc w)
          ≡ best_of_two (judged rc, w.machine)
    unfolding first_verdict remeasure
    first_verdict_lem (negsuc n) w = refl
    first_verdict_lem (pos n) w = elim (Bool-cases (n == 1)) [
      | inl e ↦ rw ((==_iff n 1).0 e) (
          second_attempt_lem _
          ∙ ap (λ m. decided (attempted bench_cmd gate_cmd summary m).0)
              (machine-preserved (copyfile summary attempt1_path w.machine) w))
      | inr e ↦ rw e (ground arith)
    ]

    gate_first :
        (r : Option ℤ × Machine) (lines : List Line)
        → exit_code H
            (returned H gate 1 r lines >>> first_verdict H bench_cmd gate_cmd attempt1_path summary)
          ≡ best_of_two (gate_ran r)
    gate_first (none, m) lines = refl
    gate_first (some rc, m) lines = first_verdict_lem rc (record { lines = lines; machine = m })

    first_attempt_on :
        (r : Option ℤ × Machine) (lines : List Line)
        → exit_code H (
            returned H bench 1 r lines >>> check_bench H summary 1 >>> λ bench_rc w1.
            if not (eq_ℤ bench_rc (pos 0))
            then goes (bench_status H bench_rc) w1
            else (run H gate_cmd gate 1 w1
                >>> first_verdict H bench_cmd gate_cmd attempt1_path summary))
          ≡ best_of_two (bench_ran gate_cmd summary r)
    unfolding run
    first_attempt_on (none, m) lines = refl
    first_attempt_on (some rc, m) lines = elim (Bool-cases (eq_ℤ rc (pos 0))) [
      | inr e ↦ rw e (rw e refl)
      | inl e ↦ elim (Bool-cases (present summary m)) [
        | inr absent ↦ rw e (rw absent refl)
        | inl there ↦ rw e (rw there (gate_first (spawn gate_cmd m) _))
      ]
    ]

    first_attempt_lem :
        (w : World Machine)
        → exit_code H (first_attempt H bench_cmd gate_cmd attempt1_path summary w)
          ≡ best_of_two (attempted bench_cmd gate_cmd summary w.machine)
    unfolding first_attempt run_bench run
    first_attempt_lem w = first_attempt_on (spawn bench_cmd w.machine) _

    -- With commands that split into words and are not empty, an old copy of a first summary removed,
    -- and summaries that are text or cannot be read at all, the wrapper's exit code is that of the first attempt, unless its gate ended with
    -- 1; then it is that of one more attempt, which starts from the machine that the first left, its
    -- summary copied where that is possible. The code of an attempt is 2 where a process does not
    -- start, where the benchmark writes no summary, and where its return code is -1; any other
    -- return code of the benchmark but 0 itself; and the gate's, where that is 0 or 1, or else 2.
    pub main-best_of_two :
        (bench_text gate_text : String) (w : World Machine) (m : Machine)
        → split bench_text ≡ ok bench_cmd
        → split gate_text ≡ ok gate_cmd
        → is_empty H bench_cmd ≡ false
        → is_empty H gate_cmd ≡ false
        → attempt1_of summary ≡ ok attempt1_path
        → unlink attempt1_path w.machine ≡ ok m
        → exit_code H (main H bench_text gate_text summary w)
          ≡ best_of_two (attempted bench_cmd gate_cmd summary m)
    unfolding main
    main-best_of_two bench_text gate_text w m b g nb ng p u =
        rw b (rw g (rw nb (rw ng (rw p (rw u (first_attempt_lem _))))))

  -- An open quotation in either command ends the wrapper with 1, the code of a double policy
  -- failure, before anything has run.
  main_unsplit :
      (bench_text gate_text : String) (summary : FilePath) (w : World Machine)
      → (split bench_text ≡ err value_error)
        ⊎ ((cmd : List String) × (split bench_text ≡ ok cmd) × (split gate_text ≡ err value_error))
      → (exit_code H (main H bench_text gate_text summary w) ≡ pos 1)
        × (final H (main H bench_text gate_text summary w) ≡ w)
  unfolding main
  main_unsplit bench_text gate_text summary w (inl e) = (rw e, rw e)
  main_unsplit bench_text gate_text summary w (inr (cmd, b, e)) = (rw b (rw e), rw b (rw e))
