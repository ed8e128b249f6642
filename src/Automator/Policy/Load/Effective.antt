-- ===== src/Automator/Policy/Load/Effective.antt =====
-- What the effective policy answers for the review cycles and the crash retries.
use bowerbird.Base.{
  String, Bool, true, false, ◌≡◌, sym, ap, ◌∙◌, Option, none, some, if◌then◌else◌, Result, ok, err,
  ok-injective, attribute_error, ◌>>=◌, >>=-eq-ok,
}
use bowerbird.Base.Int.{pos}
use bowerbird.Config.Value.{scalar, array, table, end, get, put, get-put}
use bowerbird.Automator.Json.{Json, Object, is_truthy}
use bowerbird.Automator.Policy.{
  Python, dict_or_empty, to_int, review_max_cycles, crash_max_retries, validate_policy_shape,
}
use bowerbird.Automator.Policy.Merge.{
  merge_fields, apply_legacy_env, clear_resolved_fields, clear_contracts,
}
use bowerbird.Automator.Policy.Merge.Legacy.{overridden, apply_legacy_env-answers}
use bowerbird.Automator.Policy.Disk.{Disk}
use bowerbird.Automator.Policy.Paths.{each_contract, resolve_paths}
use bowerbird.Automator.Policy.Load.{
  Sources, bundled_skill_root, read_json, load_bundled_policy, override_path, load_effective_policy,
}

module _ {R P : Type 0} (python : Python R) (disk : Disk P) (sources : Sources R P) where
  open disk use {is_file}

  same-answers :
      (p q : Object R)
      → get "workflow" p ≡ get "workflow" q
      → (review_max_cycles python p ≡ review_max_cycles python q)
        × (crash_max_retries python p ≡ crash_max_retries python q)
  unfolding review_max_cycles crash_max_retries
  same-answers p q same = (
    ap
        (λ o. dict_or_empty python o >>= λ workflow.
          dict_or_empty python (get "repeat" workflow) >>= λ repeat.
          dict_or_empty python (get "review" repeat) >>= λ review.
          to_int python (pos 5) (get "maxCycles" review))
        same,
    ap
        (λ o. dict_or_empty python o >>= λ workflow.
          dict_or_empty python (get "crash" workflow) >>= λ crash.
          to_int python (pos 2) (get "maxRetries" crash))
        same,
  )

  -- A change of the steps leaves the workflow alone.
  steps-workflow :
      (steps p q : Object R)
      → ok (put "steps" (table steps) p) ≡ ok q
      → get "workflow" q ≡ get "workflow" p
  steps-workflow steps p q h =
      ap (get "workflow") (sym (ok-injective h)) ∙ get-put "workflow" "steps" (table steps) p

  kept-workflow :
      (truthy : Bool) (p q : Object R)
      → (if truthy then err attribute_error else ok p) ≡ ok q
      → get "workflow" q ≡ get "workflow" p
  kept-workflow true p q h = cc
  kept-workflow false p q h = ap (get "workflow") (sym (ok-injective h))

  in_steps-case :
      (change : Object R → Result (Object R)) (p q : Object R) (o : Option (Json R))
      → elim o [
        | some (table steps) ↦
            each_contract disk python change steps >>= λ steps'. ok (put "steps" (table steps') p)
        | value ↦
            if is_truthy python.truthy python.shown_as value then err attribute_error else ok p
      ]
        ≡ ok q
      → get "workflow" q ≡ get "workflow" p
  in_steps-case change p q none h = kept-workflow _ p q h
  in_steps-case change p q (some (scalar s)) h = kept-workflow _ p q h
  in_steps-case change p q (some (array vs)) h = kept-workflow _ p q h
  in_steps-case change p q (some (table steps)) h =
      let (steps', _, done) = >>=-eq-ok (each_contract disk python change steps) _ h in
      steps-workflow steps' p q done

  resolve_paths-workflow :
      (resolve_assets : Bool) (bundle_root : P) (p q : Object R)
      → resolve_paths disk python resolve_assets bundle_root p ≡ ok q
      → get "workflow" q ≡ get "workflow" p
  unfolding resolve_paths
  resolve_paths-workflow resolve_assets bundle_root p q h = in_steps-case _ p q (get "steps" p) h

  clear-case :
      (p q : Object R) (o : Option (Json R))
      → elim o [
        | some (table steps) ↦ ok (put "steps" (table (clear_contracts steps)) p)
        | value ↦
            if is_truthy python.truthy python.shown_as value then err attribute_error else ok p
      ]
        ≡ ok q
      → get "workflow" q ≡ get "workflow" p
  clear-case p q none h = kept-workflow _ p q h
  clear-case p q (some (scalar s)) h = kept-workflow _ p q h
  clear-case p q (some (array vs)) h = kept-workflow _ p q h
  clear-case p q (some (table steps)) h = steps-workflow (clear_contracts steps) p q h

  clear_resolved_fields-workflow :
      (p q : Object R) → clear_resolved_fields python p ≡ ok q → get "workflow" q ≡ get "workflow" p
  unfolding clear_resolved_fields
  clear_resolved_fields-workflow p q h = clear-case p q (get "steps" p) h

  -- The answers are those of the merged policy, but for what the variables set.
  abbrev pub IsEffective : Option String → Option String → Object R → Type 0
  IsEffective review_cycles crash_retries policy =
      (bundled override : Object R) × (load_bundled_policy python disk sources false ≡ ok bundled)
      × ((if is_file (override_path python disk sources)
            then read_json python disk sources (override_path python disk sources)
            else ok end)
          ≡ ok override)
      × (review_max_cycles python policy
          ≡ overridden python review_cycles
              (review_max_cycles python (merge_fields bundled override)))
      × (crash_max_retries python policy
          ≡ overridden python crash_retries
              (crash_max_retries python (merge_fields bundled override)))

  -- Where the effective policy is loaded, the bundled policy was loaded and the override read, the
  -- empty object if there is no such file. The policy answers the number in MAX_REVIEW_CYCLES as its
  -- review cycles if the variable is set and not empty, and what the merge of the two policies
  -- answers if not; and so the number in MAX_CRASH_RETRIES for its crash retries.
  pub load_effective_policy-IsEffective :
      (review_cycles crash_retries : Option String) (resolve_assets : Bool) (policy : Object R)
      → load_effective_policy python disk sources review_cycles crash_retries resolve_assets
        ≡ ok policy
      → IsEffective review_cycles crash_retries policy
  unfolding load_effective_policy
  load_effective_policy-IsEffective review_cycles crash_retries resolve_assets policy h =
      let (bundled, is_bundled, h1) =
        >>=-eq-ok (load_bundled_policy python disk sources false) _ h in
      let (override, is_override, h2) =
        >>=-eq-ok
          (if is_file (override_path python disk sources)
            then read_json python disk sources (override_path python disk sources)
            else ok end)
          _ h1 in
      let (merged, applied, h3) =
        >>=-eq-ok
          (apply_legacy_env python review_cycles crash_retries (merge_fields bundled override)) _
          h2 in
      let (_, _, h4) = >>=-eq-ok (validate_policy_shape python merged) _ h3 in
      let (cleared, is_cleared, h5) = >>=-eq-ok (clear_resolved_fields python merged) _ h4 in
      let (bundle_root, _, h6) = >>=-eq-ok (bundled_skill_root python disk sources) _ h5 in
      let same = same-answers policy merged (
        resolve_paths-workflow resolve_assets bundle_root cleared policy h6
        ∙ clear_resolved_fields-workflow merged cleared is_cleared) in
      let answers =
        apply_legacy_env-answers python review_cycles crash_retries (merge_fields bundled override)
          merged applied in
      (bundled, override, is_bundled, is_override, same.0 ∙ answers.0, same.1 ∙ answers.1)
