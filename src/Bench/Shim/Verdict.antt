-- ===== src/Bench/Shim/Verdict.antt =====
-- The exit status of the shim gate: the verdict on measured runs, and what reads as a verdict.
use bowerbird.Base.{
  String, ◌≡◌, inl, inr, Bool, true, false, ◌||◌, is_some, List, [], ◌∷◌, ◌++◌, if◌then◌else◌, ok,
  err, key_error, ◌>>=◌, Option-cases,
}
use bowerbird.Base.Script.{done, status}
use bowerbird.Base.Int.{ℤ, pos, lt_ℤ}
use bowerbird.Bench.Json.{
  Floats, Json, null, int, real, Dict, object, get, get_or, item, or_else, is_one, to_int, to_float,
}
use bowerbird.Bench.Shim.{
  loaded, Line, absolute_failed, absolute_ok, regression_disabled, baseline_line, load_summary,
  fmt_ms, default_absolute_budget_ns, default_ratio, absolute_gate, delta_pct, regression_line,
  regression_gate, judge, main,
}

module _ (F : Floats) where
  open F use {Real, less, times}

  -- The ratio of a baseline, with the default where it has none.
  abbrev pub ratio_of : Dict Real → Json Real
  ratio_of baseline = get_or "regression_max_ratio" (real (default_ratio F)) baseline

  -- The regression policy itself: a null ratio allows everything, another allows what is not
  -- above the product.
  abbrev pub RegressionVerdict : ℤ → ℤ → Json Real → Bool → Type 0
  RegressionVerdict p99 baseline_p99 null fails = fails ≡ false
  RegressionVerdict p99 baseline_p99 ratio fails =
      (x : Real) × (threshold : Real) × (to_float F ratio ≡ ok x)
      × (times baseline_p99 x ≡ ok threshold)
      × (fails ≡ less threshold p99)

  abbrev pub Shown : ℤ → Type 0
  Shown n = (x : Real) × (fmt_ms F n ≡ ok x)

  -- Two summaries whose numbers can all be read, compared and shown without an overflow.
  pub record IsMeasured (current baseline : Dict Real) (p99 mean samples budget baseline_p99 : ℤ)
      (over : Bool) : Type 0 where
    pub schema : is_one F (get_or "schema_version" null current) ≡ true
    pub p99_read : (item "p99_nanos" current >>= to_int F) ≡ ok p99
    pub mean_read : (item "mean_nanos" current >>= to_int F) ≡ ok mean
    pub samples_read : to_int F (get_or "samples" (int (pos 0)) current) ≡ ok samples
    pub baseline_schema : is_one F (get_or "schema_version" null baseline) ≡ true
    pub baseline_read : (item "p99_nanos" baseline >>= to_int F) ≡ ok baseline_p99
    pub budget_read :
        to_int F (
          or_else F (get_or "absolute_budget_nanos" null baseline) (int default_absolute_budget_ns))
        ≡ ok budget
    pub p99_shown : Shown p99
    pub mean_shown : Shown mean
    pub budget_shown : Shown budget
    pub baseline_shown : Shown baseline_p99
    pub delta_shown : (x : Real) × (delta_pct F p99 baseline_p99 ≡ ok x)
    pub regression : RegressionVerdict p99 baseline_p99 (ratio_of baseline) over

  item_present :
      (key : String) (d : Dict Real) {n : ℤ}
      → (item key d >>= to_int F) ≡ ok n
      → is_some (get key d) ≡ true
  item_present key d h = elim (Option-cases (get key d)) [
    | inl e ↦ let missing_key : err key_error ≡ ok _ = rw e at h in cc missing_key
    | inr (v, e) ↦ rw e
  ]

  pub load_summary-loaded :
      (d : Dict Real) {n : ℤ}
      → (item "p99_nanos" d >>= to_int F) ≡ ok n
      → is_one F (get_or "schema_version" null d) ≡ true
      → load_summary F (object d) ≡ loaded d
  unfolding load_summary
  load_summary-loaded d h s = rw (item_present "p99_nanos" d h) (rw s)

  absolute_gate_lem :
      (p99 budget : ℤ) (w : List (Line Real))
      → Shown p99
      → Shown budget
      → (l : Line Real) × (absolute_gate F p99 budget w ≡ done (lt_ℤ budget p99) (w ++ (l ∷ [])))
  unfolding absolute_gate
  absolute_gate_lem p99 budget w (x, ex) (y, ey) =
      (if lt_ℤ budget p99 then absolute_failed x y else absolute_ok x y, rw ex (rw ey))

  regression_gate_lem :
      (p99 baseline_p99 : ℤ) (ratio : Json Real) (over : Bool) (w : List (Line Real))
      → Shown p99
      → Shown baseline_p99
      → RegressionVerdict p99 baseline_p99 ratio over
      → (l : Line Real) × (regression_gate F p99 baseline_p99 ratio w ≡ done over (w ++ (l ∷ [])))
  unfolding regression_gate
  regression_gate_lem p99 b null over w sp sb v = (regression_disabled, rw v)
  regression_gate_lem p99 b ratio over w (x, ex) (y, ey) (m, t, em, et, v) =
      (regression_line F over x y m t, rw v (rw em (rw et (rw ex (rw ey)))))

  module _ (current baseline : Dict Real) (p99 mean samples budget baseline_p99 : ℤ) (over : Bool)
      (m : IsMeasured current baseline p99 mean samples budget baseline_p99 over) where
    judge_lem :
        (w : List (Line Real))
        → (w' : List (Line Real)) × (judge F p99 baseline w
            ≡ done (if lt_ℤ budget p99 || over then 1 else 0) w')
    unfolding judge
    judge_lem w =
        let (l1, e1) = absolute_gate_lem p99 budget w m.p99_shown m.budget_shown in
        let (d, ed) = m.delta_shown in
        let (b, eb) = m.baseline_shown in
        let w2 = (w ++ (l1 ∷ [])) ++ (baseline_line b d ∷ []) in
        let (l2, e2) =
          regression_gate_lem p99 baseline_p99 (ratio_of baseline) over w2 m.p99_shown
            m.baseline_shown m.regression in
        (w2 ++ (l2 ∷ []), rw m.budget_read (rw e1 (rw m.baseline_read (rw ed (rw eb (rw e2))))))

    -- On two readable summaries the shim gate exits with 1 exactly when the run's p99 is above
    -- the budget, or above the ratio times the committed p99 where the ratio is not null, and
    -- with 0 otherwise.
    pub main_verdict :
        (w : List (Line Real))
        → status (λ n. n) (main F (object current) (object baseline) w)
          ≡ (if lt_ℤ budget p99 || over then 1 else 0)
    unfolding main
    main_verdict w =
        let (x, ex) = m.p99_shown in
        let (y, ey) = m.mean_shown in
        rw (load_summary-loaded current m.p99_read m.schema) (
          rw m.p99_read (
            rw m.mean_read (
              rw m.samples_read (
                rw ex (
                  rw ey (
                    rw (load_summary-loaded baseline m.baseline_read m.baseline_schema)
                      (rw (judge_lem _).1)))))))
