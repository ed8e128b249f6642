-- ===== src/Automator/Policy/Shape.antt =====
-- What a validated policy promises to the code that reads it.
use bowerbird.Base.{
  String, Bool, true, false, ◌≡◌, refl, Option, none, some, is_some, List, [], ◌∷◌, All, ap, ◌∙◌,
  Bool-cases, str_eq, ◌&&◌, every, arith, ok, >>=-eq-ok, >>=-ok, ok-injective, sym, inl, inr,
}
use bowerbird.Base.Int.{ℤ, pos}
use bowerbird.Config.Value.{scalar, array, table, end, field, get}
use bowerbird.Automator.Json.{Json, Object, null, boolean, int, real, text, is_truthy}
use bowerbird.Automator.Policy.{
  Python, ParserConfig, check, optional_dict, expect_optional_dict, as_dict, is_int_or_absent,
  has_only, is_text_or_absent, valid_top_level_keys, valid_step_names, valid_verifiers, is_among,
  dict_or_empty, to_int, verifier_of, step_contract, review_max_cycles, crash_max_retries,
  parser_runtime_config, validate_contract, validate_contracts, sequence_of, validate_steps,
  validate_policy_shape, validate_runtime, read_workflow, Workflow,
}

check-ok : (b : Bool) {u : Unit} → check b ≡ ok u → b ≡ true
check-ok true h = refl
check-ok false h = cc

and-true : (a b : Bool) → (a && b) ≡ true → (a ≡ true) × (b ≡ true)
and-true a b h = ground arith

is_some-some : {A : Type 0} (o : Option A) → is_some o ≡ true → (a : A) × (o ≡ some a)
is_some-some none h = cc
is_some-some (some a) h = (a, refl)

module _ {R : Type 0} where
  as_dict-ok : (o : Option (Json R)) (d : Object R) → as_dict o ≡ ok d → o ≡ some (table d)
  as_dict-ok none d h = cc
  as_dict-ok (some (scalar s)) d h = cc
  as_dict-ok (some (array vs)) d h = cc
  as_dict-ok (some (table e)) d h = cc

module _ {R : Type 0} (python : Python R) where
  open python use {truthy, shown_as}

  -- The step has a contract with one of the verifiers.
  abbrev pub HasVerifier : Object R → String → Type 0
  HasVerifier policy step =
      (contract : Object R) × (verifier : String) × (step_contract python policy step ≡ ok contract)
      × (verifier_of python contract ≡ ok verifier)
      × (is_among valid_verifiers verifier ≡ true)

  abbrev pub IsUsable : Object R → Type 0
  IsUsable policy =
      (config : ParserConfig) × (cycles : ℤ) × (retries : ℤ) × (workflow : Object R)
      × (sequence : List String) × (parser_runtime_config python policy ≡ ok config)
      × (review_max_cycles python policy ≡ ok cycles)
      × (crash_max_retries python policy ≡ ok retries)
      × (dict_or_empty python (get "workflow" policy) ≡ ok workflow)
      × (sequence_of python workflow ≡ ok sequence)
      × All (HasVerifier policy) sequence

  optional_dict-ok :
      (o : Option (Json R)) (d : Object R) → optional_dict o ≡ ok d → dict_or_empty python o ≡ ok d
  unfolding is_truthy
  optional_dict-ok none d h = cc
  optional_dict-ok (some (scalar null)) d h = cc
  optional_dict-ok (some (scalar (boolean b))) d h = cc
  optional_dict-ok (some (scalar (int n))) d h = cc
  optional_dict-ok (some (scalar (real x))) d h = cc
  optional_dict-ok (some (scalar (text s))) d h = cc
  optional_dict-ok (some (array vs)) d h = cc
  optional_dict-ok (some (table e)) d h = cc

  to_int-total :
      (default : ℤ) (o : Option (Json R))
      → is_int_or_absent o ≡ true
      → (n : ℤ) × (to_int python default o ≡ ok n)
  to_int-total default none h = (default, refl)
  to_int-total default (some (scalar null)) h = cc
  to_int-total default (some (scalar (boolean b))) h = (_, refl)
  to_int-total default (some (scalar (int n))) h = (n, refl)
  to_int-total default (some (scalar (real x))) h = cc
  to_int-total default (some (scalar (text s))) h = cc
  to_int-total default (some (array vs)) h = cc
  to_int-total default (some (table d)) h = cc

  -- A contract that was checked is an object with one of the verifiers.
  validate_contract-ok :
      (v : Json R) {u : Unit}
      → validate_contract python v ≡ ok u
      → (contract : Object R) × (verifier : String) × (v ≡ table contract)
        × (verifier_of python contract ≡ ok verifier)
        × (is_among valid_verifiers verifier ≡ true)
  unfolding validate_contract
  validate_contract-ok (scalar s) h = cc
  validate_contract-ok (array vs) h = cc
  validate_contract-ok (table contract) h =
      let (assets, _, h1) = >>=-eq-ok (expect_optional_dict contract "assets") _ h in
      let (prompt, _, h2) = >>=-eq-ok (expect_optional_dict contract "prompt") _ h1 in
      let (parse, _, h3) = >>=-eq-ok (expect_optional_dict contract "parse") _ h2 in
      let (success, _, h4) = >>=-eq-ok (expect_optional_dict contract "success") _ h3 in
      let (verifier, is, h5) = >>=-eq-ok (verifier_of python contract) _ h4 in
      let (_, valid, _) = >>=-eq-ok (check (is_among valid_verifiers verifier)) _ h5 in
      (contract, verifier, refl, is, check-ok _ valid)

  validate_contracts-ok :
      (steps : Object R) {u : Unit}
      → validate_contracts python steps ≡ ok u
      → (step : String) (v : Json R) → get step steps ≡ some v
      → (checked : Unit) × (validate_contract python v ≡ ok checked)
  unfolding validate_contracts get
  validate_contracts-ok end h step v e = cc
  validate_contracts-ok (field name contract rest) h step v e =
      let (_, first, others) = >>=-eq-ok (validate_contract python contract) _ h in
      elim (Bool-cases (str_eq name step)) [
        | inl same ↦ let here : v ≡ contract = cc in (_, ap (validate_contract python) here ∙ first)
        | inr other ↦ validate_contracts-ok rest others step v (cc)
      ]

  sequence-HasVerifier :
      (policy steps : Object R) {u : Unit {0}}
      → get "steps" policy ≡ some (table steps)
      → validate_contracts python steps ≡ ok u
      → (sequence : List String) → every (λ step. is_some (get step steps)) sequence ≡ true
      → All (HasVerifier policy) sequence
  unfolding step_contract
  sequence-HasVerifier policy steps has valid [] h = tt
  sequence-HasVerifier policy steps has valid (step ∷ sequence) h =
      let found = and-true _ _ h in
      let (v, has_step) = is_some-some (get step steps) found.0 in
      let (_, checked) = validate_contracts-ok steps valid step v has_step in
      let (contract, verifier, is_contract, is_verifier, allowed) =
        validate_contract-ok v checked in
      let opened : dict_or_empty python (get "steps" policy) ≡ ok steps =
        ap (dict_or_empty python) has in
      let stepped : as_dict (get step steps) ≡ ok contract =
        ap as_dict (has_step ∙ ap some is_contract) in
      (
        (contract, verifier, >>=-ok _ _ opened stepped, is_verifier, allowed),
        sequence-HasVerifier policy steps has valid sequence found.1,
      )

  validate_runtime-ok :
      (policy : Object R) (config : ParserConfig)
      → validate_runtime python policy ≡ ok config
      → parser_runtime_config python policy ≡ ok config
  unfolding validate_runtime
  validate_runtime-ok policy config h =
      let (_, _, h1) = >>=-eq-ok (check (has_only valid_top_level_keys policy)) _ h in
      let (snapshot, _, h2) = >>=-eq-ok (expect_optional_dict policy "snapshot") _ h1 in
      let (_, _, h3) = >>=-eq-ok (check (is_text_or_absent (get "relativeDir" snapshot))) _ h2 in
      let (runtime, _, h4) = >>=-eq-ok (expect_optional_dict policy "runtime") _ h3 in
      let (merge, _, h5) = >>=-eq-ok (expect_optional_dict runtime "merge") _ h4 in h5

  -- The three objects are where the code that uses the policy looks for them.
  IsRead : Object R → Workflow R → Type 0
  IsRead policy parts =
      (repeat : Object R) × (dict_or_empty python (get "workflow" policy) ≡ ok parts.workflow)
      × (dict_or_empty python (get "repeat" parts.workflow) ≡ ok repeat)
      × (dict_or_empty python (get "review" repeat) ≡ ok parts.review)
      × (dict_or_empty python (get "crash" parts.workflow) ≡ ok parts.crash)

  read_workflow-IsRead :
      (policy : Object R) (parts : Workflow R)
      → read_workflow python policy ≡ ok parts
      → IsRead policy parts
  unfolding read_workflow IsRead
  read_workflow-IsRead policy parts h =
      let (workflow, is1, h1) = >>=-eq-ok (expect_optional_dict policy "workflow") _ h in
      let (repeat, is2, h2) = >>=-eq-ok (expect_optional_dict workflow "repeat") _ h1 in
      let (review, is3, h3) = >>=-eq-ok (expect_optional_dict repeat "review") _ h2 in
      let (crash, is4, h4) = >>=-eq-ok (expect_optional_dict workflow "crash") _ h3 in
      let same : record { workflow = workflow; review = review; crash = crash } ≡ parts =
        ok-injective h4 in
      (
        repeat,
        optional_dict-ok _ _ is1 ∙ ap (λ p. ok p.workflow) same,
        ap (λ p. dict_or_empty python (get "repeat" p.workflow)) (sym same)
            ∙ optional_dict-ok _ _ is2,
        optional_dict-ok _ _ is3 ∙ ap (λ p. ok p.review) same,
        ap (λ p. dict_or_empty python (get "crash" p.workflow)) (sym same)
            ∙ optional_dict-ok _ _ is4
            ∙ ap (λ p. ok p.crash) same,
      )

  review_max_cycles-total :
      (policy : Object R) (parts : Workflow R)
      → IsRead policy parts
      → is_int_or_absent (get "maxCycles" parts.review) ≡ true
      → (cycles : ℤ) × (review_max_cycles python policy ≡ ok cycles)
  unfolding review_max_cycles IsRead
  review_max_cycles-total policy parts (repeat, is1, is2, is3, _) h =
      let (cycles, is) = to_int-total (pos 5) (get "maxCycles" parts.review) h in
      (cycles, >>=-ok _ _ is1 (>>=-ok _ _ is2 (>>=-ok _ _ is3 is)))

  crash_max_retries-total :
      (policy : Object R) (parts : Workflow R)
      → IsRead policy parts
      → is_int_or_absent (get "maxRetries" parts.crash) ≡ true
      → (retries : ℤ) × (crash_max_retries python policy ≡ ok retries)
  unfolding crash_max_retries IsRead
  crash_max_retries-total policy parts (repeat, is1, _, _, is4) h =
      let (retries, is) = to_int-total (pos 2) (get "maxRetries" parts.crash) h in
      (retries, >>=-ok _ _ is1 (>>=-ok _ _ is4 is))

  validate_steps-ok :
      (review crash steps : Object R) (sequence : List String) {u : Unit {0}}
      → validate_steps python review crash steps sequence ≡ ok u
      → (is_int_or_absent (get "maxCycles" review) ≡ true)
        × (is_int_or_absent (get "maxRetries" crash) ≡ true)
        × (every (λ step. is_some (get step steps)) sequence ≡ true)
        × (checked : Unit {0}) × (validate_contracts python steps ≡ ok checked)
  unfolding validate_steps
  validate_steps-ok review crash steps sequence h =
      let (_, cycles, h1) = >>=-eq-ok (check (is_int_or_absent (get "maxCycles" review))) _ h in
      let (_, retries, h2) = >>=-eq-ok (check (is_int_or_absent (get "maxRetries" crash))) _ h1 in
      let (_, present, h3) =
        >>=-eq-ok (check (every (λ step. is_some (get step steps)) sequence)) _ h2 in
      (check-ok _ cycles, check-ok _ retries, check-ok _ present, _, h3)

  -- A policy that passes the validation can be used: the configuration of the parser, the number of
  -- review cycles and the number of crash retries are returned, the sequence of the workflow is read,
  -- and each step of it has a contract, whose verifier is one of the four.
  pub validate_policy_shape-IsUsable :
      (policy : Object R) → validate_policy_shape python policy ≡ ok tt → IsUsable policy
  unfolding validate_policy_shape IsRead
  validate_policy_shape-IsUsable policy h =
      let (config, is_config, h1) = >>=-eq-ok (validate_runtime python policy) _ h in
      let (parts, is_parts, h2) = >>=-eq-ok (read_workflow python policy) _ h1 in
      let (steps, is_steps, h3) = >>=-eq-ok (as_dict (get "steps" policy)) _ h2 in
      let (_, _, h4) = >>=-eq-ok (check (has_only valid_step_names steps)) _ h3 in
      let (sequence, is_sequence, h5) = >>=-eq-ok (sequence_of python parts.workflow) _ h4 in
      let (int_cycles, int_retries, present, _, contracts) =
        validate_steps-ok parts.review parts.crash steps sequence h5 in
      let read = read_workflow-IsRead policy parts is_parts in
      let (cycles, is_cycles) = review_max_cycles-total policy parts read int_cycles in
      let (retries, is_retries) = crash_max_retries-total policy parts read int_retries in
      (
        config,
        cycles,
        retries,
        parts.workflow,
        sequence,
        validate_runtime-ok policy config is_config,
        is_cycles,
        is_retries,
        read.1,
        is_sequence,
        sequence-HasVerifier policy steps (as_dict-ok _ steps is_steps) contracts sequence present,
      )
