-- ===== src/Automator/Policy/Tests.antt =====
-- Witnesses of the orchestration policy.
use bowerbird.Base.{
  ℕ, suc, String, true, false, ◌≡◌, refl, none, some, [], ◌∷◌, ok, err, attribute_error,
}
use bowerbird.Base.Int.{pos}
use bowerbird.Config.Value.{scalar, array, table, nil, cons, end, field, get, put}
use bowerbird.Automator.Json.{Json, Object, boolean, int, text, null, is_truthy, text_or_empty}
use bowerbird.Automator.Policy.{
  Python, validate_policy_shape, validate_runtime, read_workflow, validate_steps, validate_contract,
  validate_contracts, parser_runtime_config,
}
use bowerbird.Automator.Policy.Shape.{IsUsable, validate_policy_shape-IsUsable}
use bowerbird.Automator.Policy.Merge.{
  pop, deep_merge, merge_fields, put_max_cycles, with_cycles, apply_legacy_env,
  clear_resolved_fields,
}
use bowerbird.Automator.Policy.Load.Effective.{IsEffective, load_effective_policy-IsEffective}
use bowerbird.Automator.Policy.StateFile.{
  Surroundings, resolve_policy_state_file, load_runtime_policy,
}
use bowerbird.Automator.Policy.StateFile.Chosen.{IsRunPolicy, load_runtime_policy-IsRunPolicy}
use bowerbird.Automator.Policy.Disk.{Disk, ensure_within}
use bowerbird.Automator.Policy.Assets.{
  AssetFiles, resolve_required_file, find_candidate, resolve_candidate_file, files_in,
  resolve_step_assets,
}
use bowerbird.Automator.Policy.Paths.{search_roots, resolve_data_path, resolve_part, resolve_paths}
use bowerbird.Automator.Policy.Paths.Inside.{IsDataFile, resolve_data_path_lem}
use bowerbird.Automator.Policy.Assets.Required.{AllFound, resolve_step_assets-AllFound}
use bowerbird.Automator.Policy.Load.{
  Sources, read_json, load_bundled_policy, load_effective_policy, load_policy_snapshot,
  state_policy_mode, load_policy_for_state,
}
use bowerbird.Automator.Policy.Load.Pinned.{IsLoaded, load_policy_for_state-pinned}

abbrev python : Python ℕ
python = record {
  truthy = λ x. false;
  shown_as = λ v. "";
  strip = λ s. s;
  lower = λ s. s;
  whole = λ x. ok (pos x);
  whole_text = λ s. some (pos 7);
}

abbrev word : String → Json ℕ
word s = scalar (text s)

abbrev entry : String → Json ℕ → Object ℕ
entry key v = field key v end

abbrev runtime : Object ℕ
runtime = entry "parser" (
    table (
      field "provider" (word "claude")
        (field "model" (word "haiku") (entry "timeoutSeconds" (scalar (int (pos 120)))))))

-- A Boolean passes for the number of cycles.
abbrev workflow : Object ℕ
workflow =
    field "sequence" (array (cons (word "create") nil))
      (entry "repeat" (table (entry "review" (table (entry "maxCycles" (scalar (boolean true)))))))

abbrev create_assets : Object ℕ
create_assets =
    field "skillName" (word "create-story")
      (entry "required" (array (cons (word "skill") (cons (word "workflow") nil))))

abbrev create : Object ℕ
create =
    field "assets" (table create_assets)
      (entry "success" (table (entry "verifier" (word "create_story_artifact"))))

abbrev policy : Object ℕ
policy =
    field "runtime" (table runtime)
      (field "workflow" (table workflow) (entry "steps" (table (entry "create" (table create)))))

validate_policy_shape-IsUsable_example : IsUsable python policy
unfolding validate_policy_shape validate_runtime read_workflow validate_steps validate_contracts
    validate_contract parser_runtime_config get text_or_empty is_truthy
validate_policy_shape-IsUsable_example = validate_policy_shape-IsUsable python policy refl

-- Every path is a file, and inside of every root.
abbrev disk : Disk ℕ
disk = record {
  project_root = 0;
  join = λ p s. suc p;
  path_of = λ s. 5;
  is_absolute = λ s. false;
  resolve = λ p. p;
  is_inside = λ p root. true;
  relative = λ p root. "file";
  shown = λ p. "shown";
  is_file = λ p. true;
  read_text = λ p. ok "{}";
  md5_hex8 = λ s. "0123abcd";
  resolve_skill_dir = λ s. some 3;
  resolve_portable_path = λ s. none;
}

-- `null` for the prompt passes, and resolving the paths then raises an AttributeError.
abbrev null_prompt : Object ℕ
null_prompt = field "prompt" (scalar null) create

null_prompt_valid : validate_contract python (table null_prompt) ≡ ok tt
unfolding validate_contract get text_or_empty is_truthy
null_prompt_valid = refl

null_prompt_raises :
    resolve_paths disk python true 8 (entry "steps" (table (entry "create" (table null_prompt))))
    ≡ err attribute_error
unfolding resolve_paths resolve_part resolve_step_assets files_in resolve_required_file
    resolve_candidate_file find_candidate get put text_or_empty is_truthy
null_prompt_raises = refl

resolve_data_path_lem_example : IsDataFile disk 8 "data/prompts/create.md" "shown"
unfolding resolve_data_path search_roots
resolve_data_path_lem_example = resolve_data_path_lem disk 8 "data/prompts/create.md" "shown" refl

abbrev create_files : AssetFiles
create_files = record {
  skill = "file";
  workflow = "file";
  instructions = "";
  checklist = "";
  template = "";
}

resolve_step_assets-AllFound_example : AllFound python disk ("skill" ∷ "workflow" ∷ []) create_files
unfolding resolve_step_assets files_in resolve_required_file resolve_candidate_file find_candidate
    get text_or_empty is_truthy
resolve_step_assets-AllFound_example =
    resolve_step_assets-AllFound python disk (λ p. refl) create_assets ("skill" ∷ "workflow" ∷ [])
      create_files refl refl refl

-- A state file with a snapshot, which holds the policy.
abbrev sources : Sources ℕ ℕ
sources = record {
  loads = λ s. some (table policy);
  parse_simple_frontmatter = λ s.
      field "policySnapshotFile" (word "snapshots/1.json")
        (entry "policySnapshotHash" (word "0123abcd"));
  bundled_story_skill_root = some 8;
}

load_policy_for_state-pinned_example : IsLoaded python disk sources 9 false policy
unfolding load_policy_for_state load_policy_snapshot state_policy_mode ensure_within resolve_paths
    resolve_part validate_policy_shape validate_runtime read_workflow validate_steps
    validate_contracts validate_contract parser_runtime_config get put text_or_empty is_truthy
load_policy_for_state-pinned_example =
    load_policy_for_state-pinned python disk sources 9 false policy refl

-- The override is the policy again; then the environment has its say.
abbrev effective_policy : Object ℕ
effective_policy =
    with_cycles python (pos 7) policy workflow
      (entry "review" (table (entry "maxCycles" (scalar (boolean true)))))
      (entry "maxCycles" (scalar (boolean true)))

load_effective_policy-IsEffective_example :
    IsEffective python disk sources (some "7") (some "") effective_policy
unfolding load_effective_policy load_bundled_policy read_json apply_legacy_env put_max_cycles
    merge_fields deep_merge pop clear_resolved_fields resolve_paths resolve_part
    validate_policy_shape validate_runtime read_workflow validate_steps validate_contracts
    validate_contract parser_runtime_config get put text_or_empty is_truthy
load_effective_policy-IsEffective_example =
    load_effective_policy-IsEffective python disk sources (some "7") (some "") false
      effective_policy refl

-- The state file is named in the environment.
abbrev around : Surroundings ℕ
around = record {
  state_file_variable = "_bmad-output/state.md";
  max_review_cycles = none;
  max_crash_retries = none;
  expanduser = λ s. 9;
  is_absolute_path = λ p. false;
  in_project = λ p. p;
  active_marker_path = 4;
}

load_runtime_policy-IsRunPolicy_example : IsRunPolicy python disk sources around "" false policy
unfolding load_runtime_policy resolve_policy_state_file load_policy_for_state load_policy_snapshot
    state_policy_mode ensure_within resolve_paths resolve_part validate_policy_shape
    validate_runtime read_workflow validate_steps validate_contracts validate_contract
    parser_runtime_config get put text_or_empty is_truthy
load_runtime_policy-IsRunPolicy_example =
    load_runtime_policy-IsRunPolicy python disk sources around "" false policy refl
