-- ===== src/Bench/Daemon.antt =====
-- scripts/check-daemon-bench-p99.py
pub mod Verdict
use bowerbird.Base.{
  ℕ, String, Bool, true, false, not, ◌||◌, Option, none, some, List, [], ◌∷◌, ◌++◌, is_some,
  if◌then◌else◌, Result, ok, err, ◌>>=◌,
}
use bowerbird.Base.Script.{Run, done, raised, Script, after, lift}
use bowerbird.Base.Int.{ℤ, pos, lt_ℤ}
use bowerbird.Bench.Json.{
  Floats, Json, null, int, real, Dict, Source, absent, undecodable, other_value, object, get,
  get_or, item, or_else, is_one, to_int, to_float,
}

pub data Shape : Type 0 where
  solo fanout3 burst steady : Shape

abbrev pub shapes : List Shape
shapes = solo ∷ fanout3 ∷ burst ∷ steady ∷ []

-- `f"{shape}_p99_nanos"`
abbrev pub shape_key : Shape → String
shape_key solo = "solo_p99_nanos"
shape_key fanout3 = "fanout3_p99_nanos"
shape_key burst = "burst_p99_nanos"
shape_key steady = "steady_p99_nanos"

-- Why `load_summary` raises.
pub data Refusal : Type 0 where
  not_found unread wrong_schema : Refusal
  no_shape : Shape → Refusal

pub data Loaded (R : Type 0) : Type 0 where
  refused : Refusal → Loaded R
  loaded : Dict R → Loaded R

pub data Line (R : Type 0) : Type 0 where
  current_refused baseline_refused : Refusal → Line R
  no_baseline current_run : Line R
  current_shape : Shape → R → Line R
  current_samples : ℤ → Line R
  absolute_failed absolute_ok : Shape → R → R → Line R
  regression_disabled regression_skipped : Shape → Line R
  regression_failed : Shape → R → R → R → R → R → Line R
  regression_ok : Shape → R → R → R → R → Line R

abbrev pub default_absolute_budget_ns : ℤ
default_absolute_budget_ns = pos 100000000

module _ (F : Floats) where
  open F use {Real, hundredths, less, times, divide, scale, percent}

  -- The loop over the shapes in `load_summary`.
  abbrev pub check_shapes : List Shape → Dict Real → Loaded Real
  check_shapes [] data_ = loaded data_
  check_shapes (shape ∷ rest) data_ =
      let others = check_shapes rest data_ in
      if is_some (get (shape_key shape) data_) then others else refused (no_shape shape)

  unfoldable pub load_summary : Source Real → Loaded Real
  load_summary absent = refused not_found
  load_summary undecodable = refused unread
  load_summary other_value = refused unread
  load_summary (object data_) =
      if is_one F (get_or "schema_version" null data_)
      then check_shapes shapes data_
      else refused wrong_schema

  abbrev pub fmt_ms : ℤ → Result Real
  fmt_ms nanos = divide nanos (pos 1000000)

  abbrev pub default_ratio : Real
  default_ratio = hundredths 130

  abbrev pub Gate : Type 0 → Type 0
  Gate A = Script (List (Line Real)) A

  abbrev pub shape_p99 : Dict Real → Shape → Result ℤ
  shape_p99 d shape = item (shape_key shape) d >>= to_int F

  -- The listing of the current run.
  unfoldable pub list_shapes : Dict Real → List Shape → Gate (Unit {0})
  list_shapes current [] w = done tt w
  list_shapes current (shape ∷ rest) w =
      after (lift (shape_p99 current shape >>= fmt_ms) w)
        λ p99_ms w1. list_shapes current rest (w1 ++ (current_shape shape p99_ms ∷ []))

  unfoldable pub absolute_gate : Shape → ℤ → ℤ → Gate Bool
  absolute_gate shape p99 budget w =
      let failed = lt_ℤ budget p99 in
      after (lift (fmt_ms p99) w) λ p99_ms w1. after (lift (fmt_ms budget) w1) λ budget_ms w2.
        done failed (
          w2
          ++ ((if failed
                then absolute_failed shape p99_ms budget_ms
                else absolute_ok shape p99_ms budget_ms)
              ∷ []))

  -- The comparison with a positive baseline.
  unfoldable pub compare_ratio : Shape → ℤ → ℤ → Real → Gate Bool
  compare_ratio shape p99 baseline_p99 ratio w =
      after (lift (times baseline_p99 ratio) w) λ threshold w1.
        after (lift (divide p99 baseline_p99) w1) λ quotient w2.
          let failed = less threshold p99 in
          after (lift (fmt_ms p99) w2) λ p99_ms w3.
            after (lift (fmt_ms baseline_p99) w3) λ baseline_ms w4. done failed (
              w4
              ++ ((if failed
                    then regression_failed shape p99_ms baseline_ms ratio
                        (scale threshold (pos 1000000)) (percent quotient)
                    else regression_ok shape p99_ms (percent ratio) baseline_ms (percent quotient))
                  ∷ []))

  unfoldable pub regression_gate : Shape → ℤ → ℤ → Json Real → Gate Bool
  regression_gate shape p99 baseline_p99 null w = done false (w ++ (regression_disabled shape ∷ []))
  regression_gate shape p99 baseline_p99 ratio w =
      after (lift (to_float F ratio) w) λ regression_max w1.
        if lt_ℤ (pos 0) baseline_p99
        then compare_ratio shape p99 baseline_p99 regression_max w1
        else done false (w1 ++ (regression_skipped shape ∷ []))

  -- The body of the loop over the shapes; the answer is whether a gate failed.
  unfoldable pub shape_gate : Dict Real → Dict Real → ℤ → Json Real → Shape → Gate Bool
  shape_gate current baseline budget ratio shape w =
      after (lift (shape_p99 current shape) w) λ p99 w1.
        after (lift (shape_p99 baseline shape) w1) λ baseline_p99 w2.
          after (absolute_gate shape p99 budget w2) λ absolute w3.
            after (regression_gate shape p99 baseline_p99 ratio w3)
              λ regression w4. done (absolute || regression) w4

  unfoldable pub shape_gates : Dict Real → Dict Real → ℤ → Json Real → List Shape → Bool → Gate Bool
  shape_gates current baseline budget ratio [] failed w = done failed w
  shape_gates current baseline budget ratio (shape ∷ rest) failed w =
      after (shape_gate current baseline budget ratio shape w)
        λ fails w1. shape_gates current baseline budget ratio rest (failed || fails) w1

  unfoldable pub judge : Dict Real → Dict Real → Gate ℕ
  judge current baseline w =
      after
        (lift
          (to_int F (
            or_else F (get_or "absolute_budget_nanos" null baseline)
              (int default_absolute_budget_ns)))
          w)
        λ budget w1.
          let ratio = get_or "regression_max_ratio" (real default_ratio) baseline in
          after (shape_gates current baseline budget ratio shapes false w1)
            λ failed w2. done (if failed then 1 else 0) w2

  abbrev pub with_baseline : Dict Real → Source Real → Loaded Real → Gate ℕ
  with_baseline current absent _ w = done 2 (w ++ (no_baseline ∷ []))
  with_baseline current _ (refused why) w = done 2 (w ++ (baseline_refused why ∷ []))
  with_baseline current _ (loaded baseline) w = judge current baseline w

  abbrev pub with_current : Loaded Real → Source Real → Gate ℕ
  with_current (refused why) baseline_json w = done 2 (w ++ (current_refused why ∷ []))
  with_current (loaded current) baseline_json w =
      after (lift (to_int F (get_or "samples" (int (pos 0)) current)) w) λ samples w1.
        after (list_shapes current shapes (w1 ++ (current_run ∷ []))) λ _ w2.
          with_baseline current baseline_json (load_summary baseline_json)
            (w2 ++ (current_samples samples ∷ []))

  unfoldable pub main : Source Real → Source Real → Gate ℕ
  main current_json baseline_json w = with_current (load_summary current_json) baseline_json w
