-- ===== src/Automator/Policy/Merge.antt =====
-- How an effective policy is put together: `_deep_merge`, `_apply_legacy_env` and
-- `_clear_resolved_fields` of
-- .agents/skills/bmad-story-automator/src/story_automator/core/runtime_policy.py.
pub mod Pointwise
pub mod Legacy
use bowerbird.Base.{
  String, str_eq, Bool, true, false, Option, none, some, List, [], ◌∷◌, if◌then◌else◌, Result, ok,
  err, ◌>>=◌, type_error, attribute_error, policy_error,
}
use bowerbird.Base.Int.{ℤ}
use bowerbird.Config.Value.{Value, scalar, array, table, Fields, end, field, get, put}
use bowerbird.Automator.Json.{Json, Object, int, is_truthy}
use bowerbird.Automator.Policy.{Python}

module _ {S : Type 0} where
  -- Recursion on the override; `base` is absent in front of a new key.
  unfoldable mutual
    pub deep_merge : Value S → Value S → Value S
    deep_merge (table base) (table override) = table (merge_fields base override)
    deep_merge _ override = override

    pub merge_fields : Fields S → Fields S → Fields S
    merge_fields merged end = merged
    merge_fields merged (field key value rest) =
        let v : Value S = elim (get key merged) [
          | none ↦ value
          | some old ↦ deep_merge old value
        ] in
        merge_fields (put key v merged) rest

  -- `d.pop(key, None)`
  unfoldable pub pop : String → Fields S → Fields S
  pop key end = end
  pop key (field j v fs) = if str_eq j key then fs else field j v (pop key fs)

  abbrev pub pop_all : List String → Fields S → Fields S
  pop_all [] d = d
  pop_all (key ∷ keys) d = pop_all keys (pop key d)

  -- The keys are taken out of the object that the contract has under a name.
  abbrev pub pop_within : String → List String → Fields S → Fields S
  pop_within name keys contract = elim (get name contract) [
    | some (table d) ↦ put name (table (pop_all keys d)) contract
    | _ ↦ contract
  ]

  abbrev pub clear_contract : Value S → Value S
  clear_contract (table contract) = table (
      pop_within "success" ("contractPath" ∷ "contractHash" ∷ []) (
        pop_within "parse" ("schemaPath" ∷ "schemaHash" ∷ []) (
          pop_within "prompt" ("templatePath" ∷ "templateHash" ∷ [])
            (pop_within "assets" ("files" ∷ []) contract))))
  clear_contract v = v

  abbrev pub clear_contracts : Fields S → Fields S
  clear_contracts end = end
  clear_contracts (field name v rest) = field name (clear_contract v) (clear_contracts rest)

module _ {R : Type 0} (python : Python R) where
  open python use {truthy, shown_as, whole_text}

  unfoldable pub clear_resolved_fields : Object R → Result (Object R)
  clear_resolved_fields policy = elim (get "steps" policy) [
    | some (table steps) ↦ ok (put "steps" (table (clear_contracts steps)) policy)
    | value ↦ if is_truthy truthy shown_as value then err attribute_error else ok policy
  ]

  abbrev pub legacy_env_int : String → Result ℤ
  legacy_env_int raw = elim (whole_text raw) [ none ↦ err policy_error | some n ↦ ok n ]

  -- `d.setdefault(key, {})`, for the next `setdefault` or for an assignment to an entry of it.
  abbrev pub child_for_default : Option (Json R) → Result (Object R)
  child_for_default none = ok end
  child_for_default (some (table d)) = ok d
  child_for_default (some _) = err attribute_error

  abbrev pub child_for_entry : Option (Json R) → Result (Object R)
  child_for_entry none = ok end
  child_for_entry (some (table d)) = ok d
  child_for_entry (some _) = err type_error

  -- The assigned policy, from the objects on the way to the entry.
  abbrev pub with_cycles : ℤ → Object R → Object R → Object R → Object R → Object R
  with_cycles n policy workflow repeat review =
      let review' = table (put "maxCycles" (scalar (int n)) review) in
      let workflow' = table (put "repeat" (table (put "review" review' repeat)) workflow) in
      put "workflow" workflow' policy

  abbrev pub with_retries : ℤ → Object R → Object R → Object R → Object R
  with_retries n policy workflow crash =
      let crash' = table (put "maxRetries" (scalar (int n)) crash) in
      put "workflow" (table (put "crash" crash' workflow)) policy

  -- The right-hand side of the assignment is evaluated first.
  unfoldable pub put_max_cycles : String → Object R → Result (Object R)
  put_max_cycles raw policy = legacy_env_int raw >>= λ n.
      child_for_default (get "workflow" policy) >>= λ workflow.
      child_for_default (get "repeat" workflow) >>= λ repeat.
      child_for_entry (get "review" repeat) >>= λ review.
      ok (with_cycles n policy workflow repeat review)

  unfoldable pub put_max_retries : String → Object R → Result (Object R)
  put_max_retries raw policy = legacy_env_int raw >>= λ n.
      child_for_default (get "workflow" policy) >>= λ workflow.
      child_for_entry (get "crash" workflow) >>= λ crash. ok (with_retries n policy workflow crash)

  -- An environment variable that is not set, or is empty, changes nothing.
  abbrev pub when_set :
      (String → Object R → Result (Object R)) → Option String → Object R → Result (Object R)
  when_set assign none policy = ok policy
  when_set assign (some String.[]) policy = ok policy
  when_set assign (some (String.◌∷◌ c s)) policy = assign (String.◌∷◌ c s) policy

  -- `review_cycles` and `crash_retries` are MAX_REVIEW_CYCLES and MAX_CRASH_RETRIES.
  unfoldable pub apply_legacy_env : Option String → Option String → Object R → Result (Object R)
  apply_legacy_env review_cycles crash_retries policy =
      when_set put_max_cycles review_cycles policy >>= λ policy'.
      when_set put_max_retries crash_retries policy'
