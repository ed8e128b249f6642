-- ===== src/Bench/Wrapper.antt =====
-- scripts/run-bench-gate.py: runs a benchmark and its gate, and measures once more when the gate
-- reports a policy failure.
pub mod Verdict
use bowerbird.Base.{
  ℕ, String, ◌<>◌, Bool, true, false, not, ◌&&◌, ◌||◌, Option, none, some, List, [], ◌∷◌, ◌++◌,
  if◌then◌else◌, Result, ok, err, Exception, value_error, os_error, ◌>>=◌,
}
use bowerbird.Base.Script.{Run, done, raised, Script, after, lift}
use bowerbird.Base.Int.{ℤ, pos, negsuc, eq_ℤ}

pub data Step : Type 0 where
  bench gate : Step

-- What is printed; the numbers are the attempts.
pub data Line : Type 0 where
  running : Step → ℕ → List String → Line
  bench_exited : ℤ → ℕ → Line
  no_summary : ℕ → Line
  empty_command : Line
  gate_broke : ℤ → ℕ → Line
  not_preserved : Line
  remeasuring : Line
  passed_on_second : Line
  step_summary_text : String → String → Line
  not_appended : Line
  failed_twice : Line
  spawn_failure : Step → ℕ → Line

-- What the wrapper uses of `subprocess`, `shlex`, `shutil`, `pathlib` and `os`, over a state of
-- the machine that a command may change.
pub record Host : Type 1 where
  pub Machine : Type 0
  pub FilePath : Type 0
  -- `subprocess.run(cmd).returncode`; `none` is an OSError of the spawn. A command that a signal
  -- ended has the negative of the signal's number.
  pub spawn : List String → Machine → Option ℤ × Machine
  -- `shlex.split(text)`, which raises a ValueError on an open quotation.
  pub split : String → Result (List String)
  -- `path.with_name(path.stem + ".attempt1.json")`
  pub attempt1_of : FilePath → Result FilePath
  pub present : FilePath → Machine → Bool
  -- `path.unlink(missing_ok=True)`
  pub unlink : FilePath → Machine → Result Machine
  -- `shutil.copyfile(source, target)`; `none` is an OSError.
  pub copyfile : FilePath → FilePath → Machine → Option Machine
  -- `path.read_text()`, an `os_error` or the ValueError of a text that is not UTF-8; the text of
  -- that OSError; `text.strip()`.
  pub read_text : FilePath → Machine → Result String
  pub os_error_text : FilePath → Machine → String
  pub strip : String → String
  -- `os.environ.get("GITHUB_STEP_SUMMARY")`, empty taken as unset
  pub step_summary : Option FilePath
  -- `open(path, "a").write(text)`, the text given by its line; `none` is an OSError.
  pub append : FilePath → Line → Machine → Option Machine

-- What the script has printed, and the machine.
pub record World (M : Type 0) : Type 0 where
  pub lines : List Line
  pub machine : M

-- A statement raises `SpawnFailure`, or another exception, or goes on.
pub data Outcome (M A : Type 0) : Type 0 where
  goes : A → World M → Outcome M A
  spawn_fails : Step → ℕ → World M → Outcome M A
  raises : Exception → World M → Outcome M A

infixl 5 ◌>>>◌
abbrev pub ◌>>>◌ : {M A B : Type 0} → Outcome M A → (A → World M → Outcome M B) → Outcome M B
goes a w >>> f = f a w
spawn_fails s n w >>> f = spawn_fails s n w
raises e w >>> f = raises e w

abbrev pub print : {M : Type 0} → Line → World M → World M
print line w = record w { lines = w.lines ++ (line ∷ []) }

abbrev pub lifted : {M A : Type 0} → Result A → World M → Outcome M A
lifted (ok a) w = goes a w
lifted (err e) w = raises e w

module _ (H : Host) where
  open H use {
    Machine, FilePath, spawn, split, attempt1_of, present, unlink, copyfile, read_text,
    os_error_text, strip, step_summary, append,
  }

  abbrev pub returned : Step → ℕ → Option ℤ × Machine → List Line → Outcome Machine ℤ
  returned step attempt (none, m) lines =
      spawn_fails step attempt (record { lines = lines; machine = m })
  returned step attempt (some rc, m) lines = goes rc (record { lines = lines; machine = m })

  unfoldable pub run : List String → Step → ℕ → World Machine → Outcome Machine ℤ
  run cmd step attempt w =
      returned step attempt (spawn cmd w.machine) (w.lines ++ (running step attempt cmd ∷ []))

  -- The tests behind the benchmark's run; -1 is the sentinel for a missing summary.
  abbrev pub check_bench : FilePath → ℕ → ℤ → World Machine → Outcome Machine ℤ
  check_bench summary attempt bench_rc w =
      if not (eq_ℤ bench_rc (pos 0))
      then goes bench_rc (print (bench_exited bench_rc attempt) w)
      else if not (present summary w.machine)
      then goes (negsuc 0) (print (no_summary attempt) w)
      else goes (pos 0) w

  unfoldable pub run_bench : List String → FilePath → ℕ → World Machine → Outcome Machine ℤ
  run_bench bench_cmd summary attempt w =
      run bench_cmd bench attempt w >>> check_bench summary attempt

  -- `return 2 if bench_rc == -1 else bench_rc`
  abbrev pub bench_status : ℤ → ℤ
  bench_status bench_rc = if eq_ℤ bench_rc (negsuc 0) then pos 2 else bench_rc

  -- `read_or_placeholder`
  abbrev pub or_placeholder : String → Result String → Result String
  or_placeholder why (ok text) = ok (strip text)
  or_placeholder why (err os_error) = ok ("(unreadable: " <> why <> ")")
  or_placeholder why (err e) = err e

  abbrev pub read_or_placeholder : FilePath → World Machine → Outcome Machine String
  read_or_placeholder path w =
      lifted (or_placeholder (os_error_text path w.machine) (read_text path w.machine)) w

  abbrev pub appended : Option Machine → World Machine → World Machine
  appended none w = print not_appended w
  appended (some m) w = record w { machine = m }

  abbrev pub append_to : Option FilePath → Line → World Machine → World Machine
  append_to none text w = print text w
  append_to (some path) text w = appended (append path text w.machine) w

  unfoldable pub append_step_summary : Line → World Machine → World Machine
  append_step_summary = append_to step_summary

  abbrev pub preserved : Option Machine → World Machine → World Machine
  preserved none w = print not_preserved w
  preserved (some m) w = record w { machine = m }

  -- The end of `main`, on the gate's second exit status.
  unfoldable pub second_verdict : FilePath → FilePath → ℤ → World Machine → Outcome Machine ℤ
  second_verdict attempt1_path summary gate_rc w =
      if eq_ℤ gate_rc (pos 0)
      then (let w1 = print passed_on_second w in
          read_or_placeholder attempt1_path w1 >>> λ text1 w2.
          read_or_placeholder summary w2 >>> λ text2 w3.
          goes (pos 0) (append_step_summary (step_summary_text text1 text2) w3))
      else if not (eq_ℤ gate_rc (pos 1))
      then goes (pos 2) (print (gate_broke gate_rc 2) w)
      else goes (pos 1) (print failed_twice w)

  unfoldable pub second_attempt :
      List String → List String → FilePath → FilePath → World Machine → Outcome Machine ℤ
  second_attempt bench_cmd gate_cmd attempt1_path summary w =
      run_bench bench_cmd summary 2 w >>> λ bench_rc w1.
      if not (eq_ℤ bench_rc (pos 0))
      then goes (bench_status bench_rc) w1
      else (run gate_cmd gate 2 w1 >>> second_verdict attempt1_path summary)

  unfoldable pub remeasure :
      List String → List String → FilePath → FilePath → World Machine → Outcome Machine ℤ
  remeasure bench_cmd gate_cmd attempt1_path summary w =
      second_attempt bench_cmd gate_cmd attempt1_path summary
        (print remeasuring (preserved (copyfile summary attempt1_path w.machine) w))

  unfoldable pub first_verdict :
      List String → List String → FilePath → FilePath → ℤ → World Machine → Outcome Machine ℤ
  first_verdict bench_cmd gate_cmd attempt1_path summary gate_rc w =
      if eq_ℤ gate_rc (pos 0)
      then goes (pos 0) w
      else if not (eq_ℤ gate_rc (pos 1))
      then goes (pos 2) (print (gate_broke gate_rc 1) w)
      else remeasure bench_cmd gate_cmd attempt1_path summary w

  unfoldable pub first_attempt :
      List String → List String → FilePath → FilePath → World Machine → Outcome Machine ℤ
  first_attempt bench_cmd gate_cmd attempt1_path summary w =
      run_bench bench_cmd summary 1 w >>> λ bench_rc w1.
      if not (eq_ℤ bench_rc (pos 0))
      then goes (bench_status bench_rc) w1
      else (run gate_cmd gate 1 w1 >>> first_verdict bench_cmd gate_cmd attempt1_path summary)

  abbrev pub is_empty : List String → Bool
  is_empty [] = true
  is_empty (_ ∷ _) = false

  abbrev pub unlinked : Result Machine → World Machine → Outcome Machine (Unit {0})
  unlinked (ok m) w = goes tt (record w { machine = m })
  unlinked (err e) w = raises e w

  -- `main`, after the arguments are parsed.
  unfoldable pub main : String → String → FilePath → World Machine → Outcome Machine ℤ
  main bench_text gate_text summary w = lifted (split bench_text) w >>> λ bench_cmd w1.
      lifted (split gate_text) w1 >>> λ gate_cmd w2.
      if is_empty bench_cmd || is_empty gate_cmd
      then goes (pos 2) (print empty_command w2)
      else (lifted (attempt1_of summary) w2 >>> λ attempt1_path w3.
          unlinked (unlink attempt1_path w3.machine) w3 >>> λ _ w4.
          first_attempt bench_cmd gate_cmd attempt1_path summary w4)

  -- The block under `__main__`: a SpawnFailure is breakage; another exception ends Python with 1.
  abbrev pub exit_code : Outcome Machine ℤ → ℤ
  exit_code (goes n w) = n
  exit_code (spawn_fails step attempt w) = pos 2
  exit_code (raises e w) = pos 1

  abbrev pub final : Outcome Machine ℤ → World Machine
  final (goes n w) = w
  final (spawn_fails step attempt w) = print (spawn_failure step attempt) w
  final (raises e w) = w
