-- ===== src/Bench/Daemon/Verdict.antt =====
-- The exit status of the daemon gate: no shape hides another's failure.
use mathlib.Core.Bool.{or-false, or_assoc}
use bowerbird.Base.{
  ◌≡◌, refl, Bool, true, false, ◌||◌, is_some, List, [], ◌∷◌, if◌then◌else◌, exists, ok, err,
  key_error, ◌>>=◌, Option-cases, inl, inr, Bool-cases,
}
use bowerbird.Base.Script.{Run, done, status}
use bowerbird.Base.Int.{ℤ, pos, lt_ℤ}
use bowerbird.Bench.Json.{
  Floats, Json, null, int, real, Dict, object, get, get_or, or_else, is_one, to_int, to_float,
}
use bowerbird.Bench.Daemon.{
  Shape, shapes, shape_key, loaded, Line, load_summary, check_shapes, fmt_ms,
  default_absolute_budget_ns, default_ratio, shape_p99, list_shapes, absolute_gate, compare_ratio,
  regression_gate, shape_gate, shape_gates, judge, main,
}

module _ (F : Floats) where
  open F use {Real, less, times, divide}

  -- The policy on one shape: a null ratio and a committed p99 of zero allow everything.
  abbrev pub RegressionVerdict : ℤ → ℤ → Json Real → Bool → Type 0
  RegressionVerdict p99 baseline_p99 null fails = fails ≡ false
  RegressionVerdict p99 baseline_p99 ratio fails =
      (x : Real) × (threshold : Real) × (to_float F ratio ≡ ok x)
      × (times baseline_p99 x ≡ ok threshold)
      × (fails ≡ (if lt_ℤ (pos 0) baseline_p99 then less threshold p99 else false))

  abbrev pub Shown : ℤ → Type 0
  Shown n = (x : Real) × (fmt_ms F n ≡ ok x)

  pub record IsMeasuredAt (current baseline : Dict Real) (ratio : Json Real) (budget : ℤ)
      (shape : Shape) (fails : Bool) : Type 0 where
    pub p99 : ℤ
    pub baseline_p99 : ℤ
    pub over : Bool
    pub p99_read : shape_p99 F current shape ≡ ok p99
    pub baseline_read : shape_p99 F baseline shape ≡ ok baseline_p99
    pub p99_shown : Shown p99
    pub baseline_shown : Shown baseline_p99
    pub budget_shown : Shown budget
    pub delta_shown :
        lt_ℤ (pos 0) baseline_p99 ≡ true → (x : Real) × (divide p99 baseline_p99 ≡ ok x)
    pub regression : RegressionVerdict p99 baseline_p99 ratio over
    pub outcome : fails ≡ (lt_ℤ budget p99 || over)

  -- A gate that says whether it failed, after some lines.
  abbrev Answers : Run (List (Line Real)) Bool → Bool → Type 0
  Answers r fails = (w' : List (Line Real)) × (r ≡ done fails w')

  compare_ratio_lem :
      (shape : Shape) (p99 b : ℤ) (x : Real) (w : List (Line Real)) {t q : Real}
      → Shown p99
      → Shown b
      → divide p99 b ≡ ok q
      → times b x ≡ ok t
      → Answers (compare_ratio F shape p99 b x w) (less t p99)
  unfolding compare_ratio
  compare_ratio_lem shape p99 b x w (y, ey) (z, ez) eq et = rw et (rw eq (rw ey (rw ez (_, refl))))

  regression_gate_lem :
      (shape : Shape) (p99 b : ℤ) (ratio : Json Real) (over : Bool) (w : List (Line Real))
      → Shown p99
      → Shown b
      → (lt_ℤ (pos 0) b ≡ true → (x : Real) × (divide p99 b ≡ ok x))
      → RegressionVerdict p99 b ratio over
      → Answers (regression_gate F shape p99 b ratio w) over
  unfolding regression_gate
  regression_gate_lem shape p99 b null over w sp sb d v = rw v (_, refl)
  regression_gate_lem shape p99 b ratio over w sp sb d (m, t, em, et, v) =
      elim (Bool-cases (lt_ℤ (pos 0) b)) [
        | inl positive ↦
            rw v (rw em (rw positive (compare_ratio_lem shape p99 b m w sp sb (d positive).1 et)))
        | inr not_positive ↦ rw v (rw em (rw not_positive (_, refl)))
      ]

  absolute_gate_lem :
      (shape : Shape) (p99 budget : ℤ) (w : List (Line Real))
      → Shown p99
      → Shown budget
      → Answers (absolute_gate F shape p99 budget w) (lt_ℤ budget p99)
  unfolding absolute_gate
  absolute_gate_lem shape p99 budget w (x, ex) (y, ey) = rw ex (rw ey (_, refl))

  module _ (current baseline : Dict Real) (budget : ℤ) (ratio : Json Real) where
    shape_gate_lem :
        (shape : Shape) (fails : Bool) (w : List (Line Real))
        → IsMeasuredAt current baseline ratio budget shape fails
        → Answers (shape_gate F current baseline budget ratio shape w) fails
    unfolding shape_gate
    shape_gate_lem shape fails w m =
        let (w1, e1) = absolute_gate_lem shape m.p99 budget w m.p99_shown m.budget_shown in
        let (w2, e2) =
          regression_gate_lem shape m.p99 m.baseline_p99 ratio m.over w1 m.p99_shown
            m.baseline_shown m.delta_shown m.regression in
        rw m.outcome (rw m.p99_read (rw m.baseline_read (rw e1 (rw e2 (w2, refl)))))

    shape_gates_lem :
        (fails : Shape → Bool) (l : List Shape) (failed : Bool) (w : List (Line Real))
        → ((s : Shape) → IsMeasuredAt current baseline ratio budget s (fails s))
        → Answers
            (shape_gates F current baseline budget ratio l failed w)
            (failed || exists fails l)
    unfolding shape_gates
    shape_gates_lem fails [] failed w m = rw or-false (w, refl)
    shape_gates_lem fails (s ∷ l) failed w m =
        let (w1, e) = shape_gate_lem s (fails s) w (m s) in
        rw e (
          rw (← or_assoc failed (fails s) (exists fails l))
            (shape_gates_lem fails l (failed || fails s) w1 m))

  shape_present :
      (d : Dict Real) (shape : Shape) {n : ℤ}
      → shape_p99 F d shape ≡ ok n
      → is_some (get (shape_key shape) d) ≡ true
  shape_present d shape h = elim (Option-cases (get (shape_key shape) d)) [
    | inl e ↦ let missing_key : err key_error ≡ ok _ = rw e at h in cc missing_key
    | inr (v, e) ↦ rw e
  ]

  check_shapes-loaded :
      (d : Dict Real) (l : List Shape)
      → ((s : Shape) → is_some (get (shape_key s) d) ≡ true)
      → check_shapes F l d ≡ loaded d
  check_shapes-loaded d [] h = refl
  check_shapes-loaded d (s ∷ l) h = rw (h s) (check_shapes-loaded d l h)

  load_summary-loaded :
      (d : Dict Real)
      → is_one F (get_or "schema_version" null d) ≡ true
      → ((s : Shape) → is_some (get (shape_key s) d) ≡ true)
      → load_summary F (object d) ≡ loaded d
  unfolding load_summary
  load_summary-loaded d s h = rw s (check_shapes-loaded d shapes h)

  list_shapes_lem :
      (d : Dict Real) (l : List Shape) (w : List (Line Real))
      → ((s : Shape) → (x : Real) × ((shape_p99 F d s >>= fmt_ms F) ≡ ok x))
      → (w' : List (Line Real)) × (list_shapes F d l w ≡ done tt w')
  unfolding list_shapes
  list_shapes_lem d [] w h = (w, refl)
  list_shapes_lem d (s ∷ l) w h = rw (h s).1 (list_shapes_lem d l _ h)

  -- Two summaries of which every shape can be read, compared and shown without an overflow.
  pub record IsMeasured (current baseline : Dict Real) (samples budget : ℤ) (fails : Shape → Bool)
      : Type 0 where
    pub schema : is_one F (get_or "schema_version" null current) ≡ true
    pub baseline_schema : is_one F (get_or "schema_version" null baseline) ≡ true
    pub samples_read : to_int F (get_or "samples" (int (pos 0)) current) ≡ ok samples
    pub budget_read :
        to_int F (
          or_else F (get_or "absolute_budget_nanos" null baseline) (int default_absolute_budget_ns))
        ≡ ok budget
    pub at_shape :
        (s : Shape)
        → IsMeasuredAt current baseline
            (get_or "regression_max_ratio" (real (default_ratio F)) baseline)
            budget
            s
            (fails s)

  module _ (current baseline : Dict Real) (samples budget : ℤ) (fails : Shape → Bool)
      (m : IsMeasured current baseline samples budget fails) where
    shown_at : (s : Shape) → (x : Real) × ((shape_p99 F current s >>= fmt_ms F) ≡ ok x)
    shown_at s = let a = m.at_shape s in (a.p99_shown.0, rw a.p99_read a.p99_shown.1)

    -- On two readable summaries the daemon gate exits with 1 exactly when some shape's p99 is
    -- above the budget, or above the ratio times a positive committed p99 where the ratio is not
    -- null, and with 0 otherwise: every shape is judged.
    pub main-shapes :
        (w : List (Line Real))
        → status (λ n. n) (main F (object current) (object baseline) w)
          ≡ (if exists fails shapes then 1 else 0)
    unfolding main judge
    main-shapes w =
        let present_now = λ (s : Shape). shape_present current s (m.at_shape s).p99_read in
        let present_then = λ (s : Shape). shape_present baseline s (m.at_shape s).baseline_read in
        rw (load_summary-loaded current m.schema present_now) (
          rw m.samples_read (
            rw (list_shapes_lem current shapes _ shown_at).1 (
              rw (load_summary-loaded baseline m.baseline_schema present_then) (
                rw m.budget_read (
                  rw
                    (shape_gates_lem current baseline budget
                      (get_or "regression_max_ratio" (real (default_ratio F)) baseline) fails shapes
                      false _ m.at_shape).1)))))
