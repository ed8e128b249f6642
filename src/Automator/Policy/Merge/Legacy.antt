-- ===== src/Automator/Policy/Merge/Legacy.antt =====
-- What the legacy environment variables set is what the policy answers.
use bowerbird.Base.{
  String, ◌≡◌, refl, ap, sym, ◌∙◌, Option, none, some, Result, ok, ok-injective, eq_refl, ◌>>=◌,
  >>=-eq-ok, >>=-ok, arith,
}
use bowerbird.Base.Int.{ℤ, pos}
use bowerbird.Config.Value.{scalar, array, table, get, put, get-put}
use bowerbird.Automator.Json.{Json, Object, is_truthy}
use bowerbird.Automator.Policy.{Python, dict_or_empty, to_int, review_max_cycles, crash_max_retries}
use bowerbird.Automator.Policy.Merge.{
  legacy_env_int, child_for_default, child_for_entry, put_max_cycles, put_max_retries, when_set,
  apply_legacy_env, with_cycles, with_retries,
}

module _ {R : Type 0} (python : Python R) where
  -- What a variable changes in an answer.
  abbrev pub overridden : Option String → Result ℤ → Result ℤ
  overridden none old = old
  overridden (some String.[]) old = old
  overridden (some (String.◌∷◌ c s)) old = legacy_env_int python (String.◌∷◌ c s)

  child_for_default-ok :
      (o : Option (Json R)) (d : Object R)
      → child_for_default python o ≡ ok d
      → dict_or_empty python o ≡ ok d
  unfolding is_truthy
  child_for_default-ok none d h = cc
  child_for_default-ok (some (scalar s)) d h = cc
  child_for_default-ok (some (array vs)) d h = cc
  child_for_default-ok (some (table e)) d h = cc

  opened : (key : String) (d : Object R) (v : Json R) → get key (put key v d) ≡ some v
  opened key d v = get-put key key v d ∙ ground (arith, eq_refl key)

  cycles-with_cycles :
      (n : ℤ) (policy workflow repeat review : Object R)
      → review_max_cycles python (with_cycles python n policy workflow repeat review) ≡ ok n
  unfolding review_max_cycles
  cycles-with_cycles n policy workflow repeat review =
      >>=-ok _ _ (ap (dict_or_empty python) (opened "workflow" policy _)) (
        >>=-ok _ _ (ap (dict_or_empty python) (opened "repeat" workflow _)) (
          >>=-ok _ _ (ap (dict_or_empty python) (opened "review" repeat _))
            (ap (to_int python (pos 5)) (opened "maxCycles" review _))))

  retries-with_retries :
      (n : ℤ) (policy workflow crash : Object R)
      → crash_max_retries python (with_retries python n policy workflow crash) ≡ ok n
  unfolding crash_max_retries
  retries-with_retries n policy workflow crash =
      >>=-ok _ _ (ap (dict_or_empty python) (opened "workflow" policy _)) (
        >>=-ok _ _ (ap (dict_or_empty python) (opened "crash" workflow _))
          (ap (to_int python (pos 2)) (opened "maxRetries" crash _)))

  retries-with_cycles :
      (n : ℤ) (policy workflow repeat review : Object R)
      → dict_or_empty python (get "workflow" policy) ≡ ok workflow
      → crash_max_retries python (with_cycles python n policy workflow repeat review)
        ≡ crash_max_retries python policy
  unfolding crash_max_retries
  retries-with_cycles n policy workflow repeat review is =
      >>=-ok _ _ (ap (dict_or_empty python) (opened "workflow" policy _)) (
        ap (λ o. dict_or_empty python o >>= λ crash. to_int python (pos 2) (get "maxRetries" crash))
          (get-put "crash" "repeat" _ workflow))
      ∙ sym (>>=-ok _ _ is refl)

  cycles-with_retries :
      (n : ℤ) (policy workflow crash : Object R)
      → dict_or_empty python (get "workflow" policy) ≡ ok workflow
      → review_max_cycles python (with_retries python n policy workflow crash)
        ≡ review_max_cycles python policy
  unfolding review_max_cycles
  cycles-with_retries n policy workflow crash is =
      >>=-ok _ _ (ap (dict_or_empty python) (opened "workflow" policy _)) (
        ap
          (λ o. dict_or_empty python o >>= λ repeat.
            dict_or_empty python (get "review" repeat) >>= λ review.
            to_int python (pos 5) (get "maxCycles" review))
          (get-put "repeat" "crash" _ workflow))
      ∙ sym (>>=-ok _ _ is refl)

  put_max_cycles-eq-ok :
      (raw : String) (policy p' : Object R)
      → put_max_cycles python raw policy ≡ ok p'
      → (review_max_cycles python p' ≡ legacy_env_int python raw)
        × (crash_max_retries python p' ≡ crash_max_retries python policy)
  unfolding put_max_cycles
  put_max_cycles-eq-ok raw policy p' h =
      let (n, is_n, h1) = >>=-eq-ok (legacy_env_int python raw) _ h in
      let (workflow, is1, h2) = >>=-eq-ok (child_for_default python (get "workflow" policy)) _ h1 in
      let (repeat, _, h3) = >>=-eq-ok (child_for_default python (get "repeat" workflow)) _ h2 in
      let (review, _, h4) = >>=-eq-ok (child_for_entry python (get "review" repeat)) _ h3 in
      let same : with_cycles python n policy workflow repeat review ≡ p' = ok-injective h4 in
      (
        ap (review_max_cycles python) (sym same)
            ∙ cycles-with_cycles n policy workflow repeat review
            ∙ sym is_n,
        ap (crash_max_retries python) (sym same)
            ∙ retries-with_cycles n policy workflow repeat review
                (child_for_default-ok (get "workflow" policy) workflow is1),
      )

  put_max_retries-eq-ok :
      (raw : String) (policy p' : Object R)
      → put_max_retries python raw policy ≡ ok p'
      → (review_max_cycles python p' ≡ review_max_cycles python policy)
        × (crash_max_retries python p' ≡ legacy_env_int python raw)
  unfolding put_max_retries
  put_max_retries-eq-ok raw policy p' h =
      let (n, is_n, h1) = >>=-eq-ok (legacy_env_int python raw) _ h in
      let (workflow, is1, h2) = >>=-eq-ok (child_for_default python (get "workflow" policy)) _ h1 in
      let (crash, _, h3) = >>=-eq-ok (child_for_entry python (get "crash" workflow)) _ h2 in
      let same : with_retries python n policy workflow crash ≡ p' = ok-injective h3 in
      (
        ap (review_max_cycles python) (sym same)
            ∙ cycles-with_retries n policy workflow crash
                (child_for_default-ok (get "workflow" policy) workflow is1),
        ap (crash_max_retries python) (sym same)
            ∙ retries-with_retries n policy workflow crash
            ∙ sym is_n,
      )

  when_set-cycles :
      (raw : Option String) (policy p' : Object R)
      → when_set python (put_max_cycles python) raw policy ≡ ok p'
      → (review_max_cycles python p' ≡ overridden raw (review_max_cycles python policy))
        × (crash_max_retries python p' ≡ crash_max_retries python policy)
  when_set-cycles none policy p' h = (cc, cc)
  when_set-cycles (some String.[]) policy p' h = (cc, cc)
  when_set-cycles (some (String.◌∷◌ c s)) policy p' h = put_max_cycles-eq-ok _ policy p' h

  when_set-retries :
      (raw : Option String) (policy p' : Object R)
      → when_set python (put_max_retries python) raw policy ≡ ok p'
      → (review_max_cycles python p' ≡ review_max_cycles python policy)
        × (crash_max_retries python p' ≡ overridden raw (crash_max_retries python policy))
  when_set-retries none policy p' h = (cc, cc)
  when_set-retries (some String.[]) policy p' h = (cc, cc)
  when_set-retries (some (String.◌∷◌ c s)) policy p' h = put_max_retries-eq-ok _ policy p' h

  -- Where the environment is applied without an error, the policy answers the number in
  -- MAX_REVIEW_CYCLES as its review cycles if the variable is set and not empty, and what it
  -- answered before if not; and so the number in MAX_CRASH_RETRIES for its crash retries.
  pub apply_legacy_env-answers :
      (review_cycles crash_retries : Option String) (policy p' : Object R)
      → apply_legacy_env python review_cycles crash_retries policy ≡ ok p'
      → (review_max_cycles python p' ≡ overridden review_cycles (review_max_cycles python policy))
        × (crash_max_retries python p' ≡ overridden crash_retries (crash_max_retries python policy))
  unfolding apply_legacy_env
  apply_legacy_env-answers review_cycles crash_retries policy p' h =
      let (q, first, rest) =
        >>=-eq-ok (when_set python (put_max_cycles python) review_cycles policy) _ h in
      let (a, b) = when_set-cycles review_cycles policy q first in
      let (c, d) = when_set-retries crash_retries q p' rest in
      (c ∙ a, d ∙ ap (overridden crash_retries) b)
