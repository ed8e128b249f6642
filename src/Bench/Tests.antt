-- ===== src/Bench/Tests.antt =====
-- Runs of the gates and of the wrapper, and the theorems at them. Numbers in hundredths stand in
-- for floats.
use bowerbird.Base.{
  ℕ, suc, ◌*◌, ◌/◌, String, str_eq, ◌≡◌, refl, ◌⊎◌, Bool, true, false, not, Option, none, some, [],
  ◌∷◌, ltb, ◌==◌, if◌then◌else◌, Result, ok, err, value_error, overflow_error,
}
use bowerbird.Base.Script.{status}
use bowerbird.Base.Int.{ℤ, pos, negsuc}
use bowerbird.Bench.Json.{
  Floats, Json, int, Dict, object, absent, get, is_one, is_truthy, to_int, to_float,
}
use bowerbird.Bench.Shim
use bowerbird.Bench.Shim.Verdict.{IsMeasured, main_verdict}
use bowerbird.Bench.Shim.Tooling.{IsUnusable, main-two}
use bowerbird.Bench.Daemon
use bowerbird.Bench.Daemon.{Shape, solo, fanout3, burst, steady, shapes}
use bowerbird.Bench.Daemon.Verdict.{IsMeasuredAt, main-shapes}
use bowerbird.Bench.Daemon.Verdict.{IsMeasured as AreMeasured}
use bowerbird.Bench.Wrapper
use bowerbird.Bench.Wrapper.{Host, World}
use bowerbird.Bench.Wrapper.Verdict.{main-best_of_two}

abbrev on_ints : (ℕ → ℕ) → ℤ → Result ℕ
on_ints f (pos n) = ok (f n)
on_ints f (negsuc n) = err overflow_error

abbrev ratio_of_ints : ℤ → ℤ → Result ℕ
ratio_of_ints (pos m) (pos n) = if n == 0 then err overflow_error else ok (m * 100 / n)
ratio_of_ints _ _ = err overflow_error

abbrev below_int : ℕ → ℤ → Bool
below_int x (pos n) = ltb x (n * 100)
below_int x (negsuc n) = false

abbrev equal_int : ℕ → ℤ → Bool
equal_int x (pos n) = x == n * 100
equal_int x (negsuc n) = false

abbrev floats : Floats
floats = record {
  Real = ℕ;
  hundredths = λ n. n;
  truthy = λ x. not (x == 0);
  equals = equal_int;
  less = below_int;
  truncate = λ x. ok (pos (x / 100));
  int_of_text = λ s. err value_error;
  of_int = on_ints (λ n. n * 100);
  of_text = λ s. err value_error;
  times = λ n x. on_ints (λ m. m * x) n;
  divide = ratio_of_ints;
  scale = λ x n. x;
  percent = λ x. x;
}

abbrev current : Dict ℕ
current =
    ("schema_version", int (pos 1))
    ∷ ("p99_nanos", int (pos 200))
    ∷ ("mean_nanos", int (pos 100))
    ∷ ("samples", int (pos 5))
    ∷ []

abbrev baseline : Dict ℕ
baseline = ("schema_version", int (pos 1)) ∷ ("p99_nanos", int (pos 100)) ∷ []

abbrev headless : Dict ℕ
headless = ("schema_version", int (pos 1)) ∷ ("p99_nanos", int (pos 200)) ∷ []

measured :
    IsMeasured floats current baseline (pos 200) (pos 100) (pos 5) (pos 5000000) (pos 100) true
unfolding get is_one is_truthy to_int to_float
measured = record {
  schema = refl;
  p99_read = refl;
  mean_read = refl;
  samples_read = refl;
  baseline_schema = refl;
  baseline_read = refl;
  budget_read = refl;
  p99_shown = (_, refl);
  mean_shown = (_, refl);
  budget_shown = (_, refl);
  baseline_shown = (_, refl);
  delta_shown = (_, refl);
  regression = (_, _, refl, refl, refl);
}

-- 200 ns are above 1.15 times 100 ns.
main_verdict_example : status (λ n. n) (Shim.main floats (object current) (object baseline) []) ≡ 1
main_verdict_example =
    main_verdict floats current baseline (pos 200) (pos 100) (pos 5) (pos 5000000) (pos 100) true
      measured []

exit_two : status (λ n. n) (Shim.main floats (object current) absent []) ≡ 2
unfolding Shim.main Shim.load_summary get is_one to_int
exit_two = refl

main-two_example : IsUnusable floats (object current) ⊎ IsUnusable floats absent
main-two_example = main-two floats (object current) absent [] exit_two

abbrev four : ℕ → ℕ → ℕ → ℕ → Dict ℕ
four a b c d =
    ("schema_version", int (pos 1))
    ∷ ("solo_p99_nanos", int (pos a))
    ∷ ("fanout3_p99_nanos", int (pos b))
    ∷ ("burst_p99_nanos", int (pos c))
    ∷ ("steady_p99_nanos", int (pos d))
    ∷ []

abbrev burst_only : Shape → Bool
burst_only burst = true
burst_only _ = false

measured_at :
    (shape : Shape)
    → IsMeasuredAt floats
        (four 100 100 200 300)
        (four 100 100 100 0)
        (Json.real 130)
        (pos 100000000)
        shape
        (burst_only shape)
unfolding get to_int to_float
measured_at solo = record {
  p99 = pos 100;
  baseline_p99 = pos 100;
  over = false;
  p99_read = refl;
  baseline_read = refl;
  p99_shown = (_, refl);
  baseline_shown = (_, refl);
  budget_shown = (_, refl);
  delta_shown = λ _. (_, refl);
  regression = (_, _, refl, refl, refl);
  outcome = refl;
}
measured_at fanout3 = record {
  p99 = pos 100;
  baseline_p99 = pos 100;
  over = false;
  p99_read = refl;
  baseline_read = refl;
  p99_shown = (_, refl);
  baseline_shown = (_, refl);
  budget_shown = (_, refl);
  delta_shown = λ _. (_, refl);
  regression = (_, _, refl, refl, refl);
  outcome = refl;
}
measured_at burst = record {
  p99 = pos 200;
  baseline_p99 = pos 100;
  over = true;
  p99_read = refl;
  baseline_read = refl;
  p99_shown = (_, refl);
  baseline_shown = (_, refl);
  budget_shown = (_, refl);
  delta_shown = λ _. (_, refl);
  regression = (_, _, refl, refl, refl);
  outcome = refl;
}
measured_at steady = record {
  p99 = pos 300;
  baseline_p99 = pos 0;
  over = false;
  p99_read = refl;
  baseline_read = refl;
  p99_shown = (_, refl);
  baseline_shown = (_, refl);
  budget_shown = (_, refl);
  delta_shown = λ h. cc h;
  regression = (_, _, refl, refl, refl);
  outcome = refl;
}

measured_shapes :
    AreMeasured floats
      (four 100 100 200 300)
      (four 100 100 100 0)
      (pos 0)
      (pos 100000000)
      burst_only
unfolding get is_one is_truthy to_int to_float
measured_shapes = record {
  schema = refl;
  baseline_schema = refl;
  samples_read = refl;
  budget_read = refl;
  at_shape = measured_at;
}

-- The third shape fails, and the fourth has a committed p99 of zero.
main-shapes_example :
    status
      (λ n. n)
      (Daemon.main floats (object (four 100 100 200 300)) (object (four 100 100 100 0)) [])
    ≡ 1
main-shapes_example =
    main-shapes floats (four 100 100 200 300) (four 100 100 100 0) (pos 0) (pos 100000000)
      burst_only measured_shapes []

-- A machine is the number of commands that it has run: the gate fails on the first attempt only.
abbrev answer : ℕ → Option ℤ
answer n = if n == 1 then some (pos 1) else some (pos 0)

abbrev host : Host
host = record {
  Machine = ℕ;
  FilePath = String;
  spawn = λ cmd n. (answer n, suc n);
  split = λ text. if str_eq text "'" then err value_error else ok (text ∷ []);
  attempt1_of = λ path. ok "s.attempt1.json";
  present = λ path n. true;
  unlink = λ path n. ok n;
  copyfile = λ from to n. some n;
  read_text = λ path n. ok "{}";
  os_error_text = λ path n. "";
  strip = λ text. text;
  step_summary = none;
  append = λ path line n. some n;
}

abbrev fresh : World ℕ
fresh = record { lines = []; machine = 0 }

main-best_of_two_example : Wrapper.exit_code host (Wrapper.main host "b" "g" "s.json" fresh) ≡ pos 0
main-best_of_two_example =
    main-best_of_two host ("b" ∷ []) ("g" ∷ []) "s.attempt1.json" "s.json" (λ m. (_, refl))
      (λ m. (_, refl)) "b" "g" fresh 0 refl refl refl refl refl refl
