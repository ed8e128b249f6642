-- ===== src/Automator/Policy/Paths.antt =====
-- The files that a policy names: `_resolve_policy_paths`, `_resolve_success_paths` and what they
-- call, of .agents/skills/bmad-story-automator/src/story_automator/core/runtime_policy.py.
pub mod Inside
use bowerbird.Base.{
  String, str_eq, Bool, true, false, not, ◌&&◌, ◌||◌, Option, none, some, List, [], ◌∷◌, exists,
  if◌then◌else◌, Result, ok, err, ◌>>=◌, attribute_error, policy_error,
}
use bowerbird.Config.Value.{
  Value, scalar, array, table, Items, nil, cons, Fields, end, field, get, put,
}
use bowerbird.Automator.Json.{Json, Object, Scalar, text, is_truthy, text_or_empty}
use bowerbird.Automator.Policy.{Python, dict_or_empty, list_or_empty, texts_of, stripped}
use bowerbird.Automator.Policy.Merge.{child_for_default}
use bowerbird.Automator.Policy.Disk.{Disk, is_within, ensure_within, display_path, existing}
use bowerbird.Automator.Policy.Assets.{AssetFiles, resolve_step_assets}

module _ {P : Type 0} (disk : Disk P) where
  open disk use {
    project_root, join, path_of, is_absolute, resolve, shown, is_file, read_text, md5_hex8,
    resolve_portable_path,
  }

  -- The loop over the roots, with `escaped_all` before it; both ends of it are PolicyErrors.
  unfoldable pub search_roots : String → List P → Result String
  search_roots raw [] = err policy_error
  search_roots raw (base ∷ bases) =
      let candidate = resolve (join base raw) in
      let rest = search_roots raw bases in
      if is_within disk candidate base && is_file candidate then ok (shown candidate) else rest

  unfoldable pub resolve_data_path : P → String → Result String
  resolve_data_path bundle_root path_value =
      let roots : List P = resolve bundle_root ∷ resolve project_root ∷ [] in
      elim (resolve_portable_path path_value) [
        | some portable ↦ existing disk portable
        | none ↦
            if is_absolute path_value
            then (if exists (is_within disk (resolve (path_of path_value))) roots
                then existing disk (resolve (path_of path_value))
                else err policy_error)
            else search_roots path_value roots
      ]

  module _ {R : Type 0} (python : Python R) where
    open python use {truthy, shown_as}

    abbrev pub words : String → Json R
    words s = scalar (text s)

    abbrev pub files_json : AssetFiles → Json R
    files_json files = table (
        field "skill" (words files.skill) (
          field "workflow" (words files.workflow) (
            field "instructions" (words files.instructions) (
              field "checklist" (words files.checklist)
                (field "template" (words files.template) end)))))

    unfoldable pub set_or_verify_hash : Object R → String → String → Result (Object R)
    set_or_verify_hash payload path_key hash_key =
        let path = stripped python path_key payload in
        let expected = stripped python hash_key payload in
        if str_eq path ""
        then ok payload
        else read_text (path_of path) >>= λ raw.
            if not (str_eq expected "") && not (str_eq expected (md5_hex8 raw))
            then err policy_error
            else ok (put hash_key (words (md5_hex8 raw)) payload)

    -- The same statements for the prompt, the parser and the success contract of a step.
    unfoldable pub resolve_part :
        P → Bool → String → String → String → String → Object R → Result (Object R)
    resolve_part bundle_root is_required part file_key path_key hash_key contract =
        child_for_default python (get part contract) >>= λ payload.
        let file = stripped python file_key payload in
        if str_eq file ""
        then (if is_required then err policy_error else ok (put part (table payload) contract))
        else resolve_data_path bundle_root file >>= λ path.
            set_or_verify_hash (put path_key (words path) payload) path_key hash_key >>= λ payload'.
            ok (put part (table payload') contract)

    abbrev pub resolve_success : P → Object R → Result (Object R)
    resolve_success bundle_root =
        resolve_part bundle_root false "success" "contractFile" "contractPath" "contractHash"

    abbrev pub resolve_contract : P → Object R → Result (Object R)
    resolve_contract bundle_root contract =
        child_for_default python (get "assets" contract) >>= λ assets.
        resolve_step_assets disk python assets >>= λ files.
        let contract' = put "assets" (table (put "files" (files_json files) assets)) contract in
        resolve_part bundle_root true "prompt" "templateFile" "templatePath" "templateHash"
          contract'
        >>= λ prompted.
            resolve_part bundle_root true "parse" "schemaFile" "schemaPath" "schemaHash" prompted
            >>= λ parsed. resolve_success bundle_root parsed

    -- The loop over the contracts, which are changed in place.
    abbrev pub each_contract : (Object R → Result (Object R)) → Object R → Result (Object R)
    each_contract change end = ok end
    each_contract change (field name (table contract) rest) = change contract >>= λ contract'.
        each_contract change rest >>= λ rest'. ok (field name (table contract') rest')
    each_contract change (field name _ rest) = err attribute_error

    abbrev pub in_steps : (Object R → Result (Object R)) → Object R → Result (Object R)
    in_steps change policy = elim (get "steps" policy) [
      | some (table steps) ↦
          each_contract change steps >>= λ steps'. ok (put "steps" (table steps') policy)
      | value ↦ if is_truthy truthy shown_as value then err attribute_error else ok policy
    ]

    -- `_resolve_policy_paths`, or `_resolve_success_paths` without the assets.
    unfoldable pub resolve_paths : Bool → P → Object R → Result (Object R)
    resolve_paths resolve_assets bundle_root =
        in_steps
          (if resolve_assets then resolve_contract bundle_root else resolve_success bundle_root)
