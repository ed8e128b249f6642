-- ===== src/Bench/Shim.antt =====
-- scripts/check-shim-bench-p99.py
pub mod Tooling
pub mod Verdict
use bowerbird.Base.{
  ℕ, String, Bool, true, false, not, ◌||◌, Option, none, some, List, [], ◌∷◌, ◌++◌, is_some,
  if◌then◌else◌, Result, ok, err, ◌>>=◌,
}
use bowerbird.Base.Script.{Run, done, raised, Script, after, lift}
use bowerbird.Base.Int.{ℤ, pos, lt_ℤ}
use bowerbird.Bench.Json.{
  Floats, Json, null, int, real, Dict, Source, absent, undecodable, other_value, object, get,
  get_or, item, or_default, or_else, is_one, to_int, to_float,
}

-- Why `load_summary` raises.
pub data Refusal : Type 0 where
  not_found unread no_p99 wrong_schema : Refusal

pub data Loaded (R : Type 0) : Type 0 where
  refused : Refusal → Loaded R
  loaded : Dict R → Loaded R

-- The lines that the gate prints: `::error::`, `::notice::` and plain ones. Times are in ms.
pub data Line (R : Type 0) : Type 0 where
  current_refused : Refusal → Line R
  no_baseline : Line R
  baseline_refused : Refusal → Line R
  current_run : R → R → ℤ → Line R
  absolute_failed absolute_ok : R → R → Line R
  baseline_line : R → R → Line R
  regression_disabled : Line R
  regression_failed : R → R → R → R → Line R
  regression_ok : R → R → R → Line R

-- SCHEMA_VERSION is 1, which `is_one` tests.
abbrev pub default_absolute_budget_ns : ℤ
default_absolute_budget_ns = pos 5000000

module _ (F : Floats) where
  open F use {Real, hundredths, equals, less, times, divide, scale, percent}

  abbrev pub check_schema : Dict Real → Loaded Real
  check_schema data_ =
      if is_one F (get_or "schema_version" null data_) then loaded data_ else refused wrong_schema

  unfoldable pub load_summary : Source Real → Loaded Real
  load_summary absent = refused not_found
  load_summary undecodable = refused unread
  load_summary other_value = refused unread
  load_summary (object data_) =
      if is_some (get "p99_nanos" data_) then check_schema data_ else refused no_p99

  -- `nanos / 1_000_000`, before it is formatted.
  abbrev pub fmt_ms : ℤ → Result Real
  fmt_ms nanos = divide nanos (pos 1000000)

  abbrev pub default_ratio : Real
  default_ratio = hundredths 115

  abbrev pub Gate : Type 0 → Type 0
  Gate A = Script (List (Line Real)) A

  abbrev pub say : Line Real → Gate (Unit {0})
  say line w = done tt (w ++ (line ∷ []))

  -- The absolute gate; the answer is `failed`.
  unfoldable pub absolute_gate : ℤ → ℤ → Gate Bool
  absolute_gate p99 budget w =
      let failed = lt_ℤ budget p99 in
      after (lift (fmt_ms p99) w) λ p99_ms w1. after (lift (fmt_ms budget) w1) λ budget_ms w2.
        done failed (
          w2
          ++ ((if failed then absolute_failed p99_ms budget_ms else absolute_ok p99_ms budget_ms)
              ∷ []))

  abbrev pub delta_pct : ℤ → ℤ → Result Real
  delta_pct p99 baseline_p99 =
      if lt_ℤ (pos 0) baseline_p99
      then (divide p99 baseline_p99 >>= λ x. ok (percent x))
      else ok (hundredths 0)

  abbrev pub regression_line : Bool → Real → Real → Real → Real → Line Real
  regression_line failed p99_ms baseline_ms ratio threshold =
      if failed
      then regression_failed p99_ms baseline_ms ratio (scale threshold (pos 1000000))
      else regression_ok p99_ms (percent ratio) baseline_ms

  -- The regression gate, which a null ratio turns off.
  unfoldable pub regression_gate : ℤ → ℤ → Json Real → Gate Bool
  regression_gate p99 baseline_p99 null w = done false (w ++ (regression_disabled ∷ []))
  regression_gate p99 baseline_p99 ratio w = after (lift (to_float F ratio) w) λ regression_max w1.
      after (lift (times baseline_p99 regression_max) w1) λ threshold w2.
        let failed = less threshold p99 in
        after (lift (fmt_ms p99) w2) λ p99_ms w3.
          after (lift (fmt_ms baseline_p99) w3) λ baseline_ms w4.
            done failed
              (w4 ++ (regression_line failed p99_ms baseline_ms regression_max threshold ∷ []))

  -- The part of `main` behind the two loads.
  unfoldable pub judge : ℤ → Dict Real → Gate ℕ
  judge p99 baseline w =
      after
        (lift
          (to_int F (
            or_else F (get_or "absolute_budget_nanos" null baseline)
              (int default_absolute_budget_ns)))
          w)
        λ budget w1.
          let ratio = get_or "regression_max_ratio" (real default_ratio) baseline in
          after (absolute_gate p99 budget w1) λ absolute_failed_ w2.
            after (lift (item "p99_nanos" baseline >>= to_int F) w2) λ baseline_p99 w3.
              after (lift (delta_pct p99 baseline_p99) w3) λ delta w4.
                after (lift (fmt_ms baseline_p99) w4) λ baseline_ms w5.
                  after (say (baseline_line baseline_ms delta) w5) λ _ w6.
                    after (regression_gate p99 baseline_p99 ratio w6) λ regression_failed_ w7.
                      done (if absolute_failed_ || regression_failed_ then 1 else 0) w7

  abbrev pub with_baseline : ℤ → Source Real → Loaded Real → Gate ℕ
  with_baseline p99 absent _ w = done 2 (w ++ (no_baseline ∷ []))
  with_baseline p99 _ (refused why) w = done 2 (w ++ (baseline_refused why ∷ []))
  with_baseline p99 _ (loaded baseline) w = judge p99 baseline w

  abbrev pub with_current : Loaded Real → Source Real → Gate ℕ
  with_current (refused why) baseline_json w = done 2 (w ++ (current_refused why ∷ []))
  with_current (loaded current) baseline_json w =
      after (lift (item "p99_nanos" current >>= to_int F) w) λ p99 w1.
        after (lift (item "mean_nanos" current >>= to_int F) w1) λ mean w2.
          after (lift (to_int F (get_or "samples" (int (pos 0)) current)) w2) λ samples w3.
            after (lift (fmt_ms p99) w3) λ p99_ms w4. after (lift (fmt_ms mean) w4) λ mean_ms w5.
              after (say (current_run p99_ms mean_ms samples) w5)
                λ _ w6. with_baseline p99 baseline_json (load_summary baseline_json) w6

  unfoldable pub main : Source Real → Source Real → Gate ℕ
  main current_json baseline_json w = with_current (load_summary current_json) baseline_json w
