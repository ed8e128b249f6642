-- ===== src/Automator/Policy/Assets.antt =====
-- The assets of a step: `_resolve_step_assets` and what it calls, of
-- .agents/skills/bmad-story-automator/src/story_automator/core/runtime_policy.py.
pub mod Required
use bowerbird.Base.{
  String, str_eq, Bool, true, false, not, ◌&&◌, ◌||◌, Option, none, some, List, [], ◌∷◌, exists,
  if◌then◌else◌, Result, ok, err, ◌>>=◌, attribute_error, policy_error,
}
use bowerbird.Config.Value.{
  Value, scalar, array, table, Items, nil, cons, Fields, end, field, get, put,
}
use bowerbird.Automator.Json.{Json, Object, Scalar, text, is_truthy, text_or_empty}
use bowerbird.Automator.Policy.{Python, dict_or_empty, list_or_empty, texts_of, stripped}
use bowerbird.Automator.Policy.Merge.{child_for_default}
use bowerbird.Automator.Policy.Disk.{Disk, is_within, ensure_within, display_path, existing}

abbrev pub is_in : List String → String → Bool
is_in required asset = exists (λ s. str_eq s asset) required

-- What `_resolve_step_assets` returns.
pub record AssetFiles : Type 0 where
  pub skill : String
  pub workflow : String
  pub instructions : String
  pub checklist : String
  pub template : String

module _ {P : Type 0} (disk : Disk P) where
  open disk use {join, is_file, resolve_skill_dir}

  unfoldable pub resolve_required_file : P → List String → String → Result String
  resolve_required_file path required asset =
      if is_file path
      then ok (display_path disk path)
      else if is_in required asset
      then err policy_error
      else ok ""

  module _ {R : Type 0} (python : Python R) where
    -- The loop over the candidates.
    unfoldable pub find_candidate : P → Items (Scalar R) → Result (Option String)
    find_candidate skill_dir nil = ok none
    find_candidate skill_dir (cons (scalar (text name)) names) =
        let rest = find_candidate skill_dir names in
        if str_eq name ""
        then rest
        else ensure_within disk (join skill_dir name) skill_dir >>= λ path.
            if is_file path then ok (some (display_path disk path)) else rest
    find_candidate skill_dir (cons _ names) = find_candidate skill_dir names

    abbrev pub candidate_list : Option (Json R) → Items (Scalar R)
    candidate_list (some (array names)) = names
    candidate_list _ = nil

    -- No candidate was found.
    abbrev pub without_candidate : P → List String → String → Result String
    without_candidate skill_dir required asset =
        let skill_file = join skill_dir "SKILL.md" in
        if str_eq asset "workflow" && is_in required asset && is_file skill_file
        then ok (display_path disk skill_file)
        else if is_in required asset
        then err policy_error
        else ok ""

    unfoldable pub resolve_candidate_file :
        P → Option (Json R) → List String → String → Result String
    resolve_candidate_file skill_dir candidates required asset =
        find_candidate skill_dir (candidate_list candidates) >>= λ found. elim found [
          | some name ↦ ok name
          | none ↦ without_candidate skill_dir required asset
        ]

    -- Without the skill file no other asset is kept.
    abbrev pub kept_files : AssetFiles → AssetFiles
    kept_files files =
        if str_eq files.skill ""
        then record files { workflow = ""; instructions = ""; checklist = ""; template = "" }
        else files

    abbrev pub skill_dir_of : String → Result P
    skill_dir_of skill_name =
        if str_eq skill_name ""
        then err policy_error
        else elim (resolve_skill_dir skill_name) [ some dir ↦ ok dir | none ↦ err policy_error ]

    -- `set(assets.get("required") or [])`, a list of texts in a validated policy
    abbrev pub required_of : Object R → Result (List String)
    required_of assets = list_or_empty python (get "required" assets) >>= λ items. texts_of items

    -- The five files of a step, in a directory.
    unfoldable pub files_in : P → List String → Object R → Result AssetFiles
    files_in dir required assets =
        resolve_required_file (join dir "SKILL.md") required "skill" >>= λ skill.
        resolve_candidate_file dir (get "workflowCandidates" assets) required "workflow"
        >>= λ workflow.
            resolve_candidate_file dir (get "instructionsCandidates" assets) required "instructions"
            >>= λ instructions.
                resolve_candidate_file dir (get "checklistCandidates" assets) required "checklist"
                >>= λ checklist.
                    resolve_candidate_file dir (get "templateCandidates" assets) required "template"
                    >>= λ template. ok (
                        kept_files record {
                          skill = skill;
                          workflow = workflow;
                          instructions = instructions;
                          checklist = checklist;
                          template = template;
                        })

    unfoldable pub resolve_step_assets : Object R → Result AssetFiles
    resolve_step_assets assets = skill_dir_of (stripped python "skillName" assets) >>= λ dir.
        required_of assets >>= λ required. files_in dir required assets
