-- ===== src/Bench/Shim/Tooling.antt =====
-- Exit statuses 2 and 1 of the shim gate apart from the verdict.
use bowerbird.Base.{
  sym, ◌∙◌, false, Option-cases, Bool-cases, ◌≡◌, ◌≢◌, refl, ◌⊎◌, inl, inr, true, none, List, arith,
  ok, key_error, ◌>>=◌,
}
use bowerbird.Base.Script.{raised, status}
use bowerbird.Base.Int.{ℤ}
use bowerbird.Bench.Json.{
  Floats, null, Dict, Source, absent, undecodable, other_value, object, get, get_or, item, is_one,
  to_int,
}
use bowerbird.Bench.Shim.{
  Refusal, Loaded, refused, loaded, Line, load_summary, absolute_gate, regression_gate, judge,
  with_baseline, with_current, main,
}
use bowerbird.Bench.Shim.Verdict.{load_summary-loaded}

module _ (F : Floats) where
  open F use {Real}

  judge-ne-two :
      (p99 : ℤ) (baseline : Dict Real) (w : List (Line Real))
      → status (λ n. n) (judge F p99 baseline w) ≢ 2
  unfolding judge absolute_gate regression_gate
  judge-ne-two p99 baseline w = ground arith

  abbrev pub IsRefused : Source Real → Type 0
  IsRefused s = (why : Refusal) × (load_summary F s ≡ refused why)

  with_baseline-ne-two :
      (p99 : ℤ) (s : Source Real) (baseline : Dict Real) (w : List (Line Real))
      → load_summary F s ≡ loaded baseline
      → status (λ n. n) (with_baseline F p99 s (load_summary F s) w) ≢ 2
  unfolding load_summary
  with_baseline-ne-two p99 absent b w e = cc
  with_baseline-ne-two p99 undecodable b w e = cc
  with_baseline-ne-two p99 other_value b w e = cc
  with_baseline-ne-two p99 (object d) b w e = rw e (judge-ne-two p99 b w)

  with_current-ne-two :
      (s : Source Real) (current baseline : Dict Real) (w : List (Line Real))
      → load_summary F s ≡ loaded baseline
      → status (λ n. n) (with_current F (loaded current) s w) ≢ 2
  with_current-ne-two s current b w e = grind (arith, with_baseline-ne-two)

  with_current-two :
      (s : Source Real) (current : Dict Real) (w : List (Line Real))
      → status (λ n. n) (with_current F (loaded current) s w) ≡ 2
      → IsRefused s
  with_current-two s current w h = go (load_summary F s) refl
    where
      go : (l : Loaded Real) → load_summary F s ≡ l → IsRefused s
      go (refused why) e = (why, e)
      go (loaded baseline) e = absurd (with_current-ne-two s current baseline w e h)

  -- A summary that is absent, cannot be decoded or is no object, or whose object has no p99 or a
  -- schema version that is not 1.
  abbrev pub IsUnusable : Source Real → Type 0
  IsUnusable (object d) =
      (get "p99_nanos" d ≡ none) ⊎ (is_one F (get_or "schema_version" null d) ≡ false)
  IsUnusable _ = Unit

  refused-IsUnusable : (s : Source Real) → IsRefused s → IsUnusable s
  unfolding load_summary
  refused-IsUnusable absent h = tt
  refused-IsUnusable undecodable h = tt
  refused-IsUnusable other_value h = tt
  refused-IsUnusable (object d) (why, h) = elim (Option-cases (get "p99_nanos" d)) [
    | inl missing ↦ inl missing
    | inr (v, there) ↦ elim (Bool-cases (is_one F (get_or "schema_version" null d))) [
      | inl one ↦ let fits : loaded d ≡ refused why = sym (rw there (rw one refl)) ∙ h in cc
      | inr differs ↦ inr differs
    ]
  ]

  -- The shim gate exits with 2 only if one of the two files is absent, cannot be decoded or is no
  -- object, or is an object without `p99_nanos` or with a schema version that is not 1.
  pub main-two :
      (current_json baseline_json : Source Real) (w : List (Line Real))
      → status (λ n. n) (main F current_json baseline_json w) ≡ 2
      → IsUnusable current_json ⊎ IsUnusable baseline_json
  unfolding main
  main-two c b w h = go (load_summary F c) refl h
    where
      go :
          (l : Loaded Real)
          → load_summary F c ≡ l
          → status (λ n. n) (with_current F l b w) ≡ 2
          → IsUnusable c ⊎ IsUnusable b
      go (refused why) e h = inl (refused-IsUnusable c (why, e))
      go (loaded current) e h = inr (refused-IsUnusable b (with_current-two b current w h))

  -- A current summary with a p99 and the right schema but no `mean_nanos` ends the shim gate with
  -- an uncaught KeyError, before any line is printed: the exit status is 1, that of a verdict,
  -- whatever the baseline is.
  main_no_mean :
      (current : Dict Real) (baseline_json : Source Real) (w : List (Line Real)) (p99 : ℤ)
      → is_one F (get_or "schema_version" null current) ≡ true
      → (item "p99_nanos" current >>= to_int F) ≡ ok p99
      → get "mean_nanos" current ≡ none
      → (main F (object current) baseline_json w ≡ raised key_error w)
        × (status (λ n. n) (main F (object current) baseline_json w) ≡ 1)
  unfolding main
  main_no_mean current baseline_json w p99 s p m =
      let stops : main F (object current) baseline_json w ≡ raised key_error w =
        rw (load_summary-loaded F current p s) (rw p (rw m)) in
      (stops, rw stops)
