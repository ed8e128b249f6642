-- ===== src/Automator/Policy/Assets/Required.antt =====
-- Required assets are found.
use bowerbird.Base.{
  String, str_eq, true, false, ◌≡◌, refl, ap, sym, ◌∙◌, inl, inr, Option, none, some, List,
  if◌then◌else◌, ◌&&◌, err, policy_error, if-then, if-else, Bool-cases, Result, ok, ok-injective,
  ◌>>=◌, >>=-eq-ok, >>=-ok, subst, arith,
}
use bowerbird.Config.Value.{scalar, array, table, Items, nil, cons, get}
use bowerbird.Automator.Json.{Json, Object, Scalar, null, boolean, int, real, text}
use bowerbird.Automator.Policy.{Python, stripped}
use bowerbird.Automator.Policy.Disk.{Disk, display_path, ensure_within}
use bowerbird.Automator.Policy.Assets.{
  AssetFiles, is_in, resolve_required_file, find_candidate, candidate_list, without_candidate,
  resolve_candidate_file, kept_files, skill_dir_of, required_of, resolve_step_assets, files_in,
}

module _ {R P : Type 0} (python : Python R) (disk : Disk P) where
  open disk use {join, is_file}

  -- A path is never displayed as an empty text.
  abbrev pub IsShown : Type 0
  IsShown = (path : P) → str_eq (display_path disk path) "" ≡ false

  -- The text displays the path of a file.
  abbrev pub IsFile : String → Type 0
  IsFile file = (path : P) × (is_file path ≡ true) × (display_path disk path ≡ file)

  -- A required asset has a file.
  abbrev pub IsFound : List String → String → String → Type 0
  IsFound required asset file = is_in required asset ≡ true → IsFile file

  required-IsFound :
      (path : P) (required : List String) (asset file : String)
      → resolve_required_file disk path required asset ≡ ok file
      → IsFound required asset file
  unfolding resolve_required_file
  required-IsFound path required asset file h k = elim (Bool-cases (is_file path)) [
    | inl there ↦
        let same : ok (display_path disk path) ≡ ok file = sym (if-then _ _ there) ∙ h in
        (path, there, ok-injective same)
    | inr missing ↦
        let refused : err policy_error ≡ ok file = sym (if-else _ _ missing ∙ if-then _ _ k) ∙ h in
        cc
  ]

  shown_or :
      (path : P) (rest : Result (Option String)) (name : String)
      → (rest ≡ ok (some name) → IsFile name)
      → (if is_file path then ok (some (display_path disk path)) else rest) ≡ ok (some name)
      → IsFile name
  shown_or path rest name f h = elim (Bool-cases (is_file path)) [
    | inl there ↦ let same : display_path disk path ≡ name = cc in (path, there, same)
    | inr other ↦ f (cc)
  ]

  find_candidate-IsFile :
      (dir : P) (names : Items (Scalar R)) (name : String)
      → find_candidate disk python dir names ≡ ok (some name)
      → IsFile name
  unfolding find_candidate
  find_candidate-IsFile dir nil name h = cc
  find_candidate-IsFile dir (cons (scalar null) names) name h =
      find_candidate-IsFile dir names name h
  find_candidate-IsFile dir (cons (scalar (boolean b)) names) name h =
      find_candidate-IsFile dir names name h
  find_candidate-IsFile dir (cons (scalar (int n)) names) name h =
      find_candidate-IsFile dir names name h
  find_candidate-IsFile dir (cons (scalar (real x)) names) name h =
      find_candidate-IsFile dir names name h
  find_candidate-IsFile dir (cons (array vs) names) name h = find_candidate-IsFile dir names name h
  find_candidate-IsFile dir (cons (table d) names) name h = find_candidate-IsFile dir names name h
  find_candidate-IsFile dir (cons (scalar (text s)) names) name h =
      elim (Bool-cases (str_eq s "")) [
        | inl empty ↦ find_candidate-IsFile dir names name (cc)
        | inr other ↦
            let step : (ensure_within disk (join dir s) dir >>= λ path.
            if is_file path
            then ok (some (display_path disk path))
            else find_candidate disk python dir names)
                ≡ ok (some name) =
              cc in
            let (path, _, h1) = >>=-eq-ok (ensure_within disk (join dir s) dir) _ step in
            shown_or path _ name (find_candidate-IsFile dir names name) h1
      ]

  without_candidate-IsFound :
      (dir : P) (required : List String) (asset file : String)
      → without_candidate disk python dir required asset ≡ ok file
      → IsFound required asset file
  without_candidate-IsFound dir required asset file h k =
      let skill_file = join dir "SKILL.md" in
      elim (Bool-cases (str_eq asset "workflow" && is_in required asset && is_file skill_file)) [
        | inl there ↦
            let same : ok (display_path disk skill_file) ≡ ok file = sym (if-then _ _ there) ∙ h in
            (skill_file, ground (arith, there), ok-injective same)
        | inr missing ↦
            let refused : err policy_error ≡ ok file =
              sym (if-else _ _ missing ∙ if-then _ _ k) ∙ h in
            cc
      ]

  result-IsFound :
      (dir : P) (required : List String) (asset file : String) (found : Option String)
      → (names : Items (Scalar R)) → find_candidate disk python dir names ≡ ok found
      → elim found [ some name ↦ ok name | none ↦ without_candidate disk python dir required asset ]
        ≡ ok file
      → IsFound required asset file
  result-IsFound dir required asset file none names is h k =
      without_candidate-IsFound dir required asset file h k
  result-IsFound dir required asset file (some name) names is h k =
      subst IsFile (ok-injective h) (find_candidate-IsFile dir names name is)

  candidate-IsFound :
      (dir : P) (candidates : Option (Json R)) (required : List String) (asset file : String)
      → resolve_candidate_file disk python dir candidates required asset ≡ ok file
      → IsFound required asset file
  unfolding resolve_candidate_file
  candidate-IsFound dir candidates required asset file h k =
      let (found, is, h1) =
        >>=-eq-ok (find_candidate disk python dir (candidate_list disk python candidates)) _ h in
      result-IsFound dir required asset file found _ is h1 k

  kept-skill :
      (files : AssetFiles) → str_eq files.skill "" ≡ false → kept_files disk python files ≡ files
  kept-skill files h = rw h

  abbrev pub AllFound : List String → AssetFiles → Type 0
  AllFound required files =
      IsFound required "skill" files.skill
      × IsFound required "workflow" files.workflow
      × IsFound required "instructions" files.instructions
      × IsFound required "checklist" files.checklist
      × IsFound required "template" files.template

  files_in-AllFound :
      IsShown
      → (dir : P) (required : List String) (assets : Object R) (files : AssetFiles)
      → is_in required "skill" ≡ true
      → files_in disk python dir required assets ≡ ok files
      → AllFound required files
  unfolding files_in
  files_in-AllFound shows dir required assets files skilled h =
      let candidate : String → String → Result String =
        λ key asset. resolve_candidate_file disk python dir (get key assets) required asset in
      let (skill, is1, h1) =
        >>=-eq-ok (resolve_required_file disk (join dir "SKILL.md") required "skill") _ h in
      let (workflow, is2, h2) = >>=-eq-ok (candidate "workflowCandidates" "workflow") _ h1 in
      let (instructions, is3, h3) =
        >>=-eq-ok (candidate "instructionsCandidates" "instructions") _ h2 in
      let (checklist, is4, h4) = >>=-eq-ok (candidate "checklistCandidates" "checklist") _ h3 in
      let (template, is5, h5) = >>=-eq-ok (candidate "templateCandidates" "template") _ h4 in
      let raw : AssetFiles = record {
        skill = skill;
        workflow = workflow;
        instructions = instructions;
        checklist = checklist;
        template = template;
      } in
      let found_skill = required-IsFound (join dir "SKILL.md") required "skill" skill is1 in
      let (path, _, shown) = found_skill skilled in
      let set : str_eq skill "" ≡ false = ap (λ s. str_eq s "") (sym shown) ∙ shows path in
      let same : raw ≡ files = sym (kept-skill raw set) ∙ ok-injective h5 in
      subst (AllFound required) same (
        found_skill,
        candidate-IsFound dir _ required "workflow" workflow is2,
        candidate-IsFound dir _ required "instructions" instructions is3,
        candidate-IsFound dir _ required "checklist" checklist is4,
        candidate-IsFound dir _ required "template" template is5,
      )

  -- Where the assets of a step are resolved and the list of required assets has the skill file, what is
  -- answered for each required asset among the five is the displayed path of a file that exists, if
  -- no path is displayed as an empty text.
  pub resolve_step_assets-AllFound :
      IsShown
      → (assets : Object R) (required : List String) (files : AssetFiles)
      → required_of disk python assets ≡ ok required
      → is_in required "skill" ≡ true
      → resolve_step_assets disk python assets ≡ ok files
      → AllFound required files
  unfolding resolve_step_assets
  resolve_step_assets-AllFound shows assets required files is_required skilled h =
      let (dir, _, h1) =
        >>=-eq-ok (skill_dir_of disk python (stripped python "skillName" assets)) _ h in
      files_in-AllFound shows dir required assets files skilled (
        sym (
          >>=-ok (required_of disk python assets) (λ r. files_in disk python dir r assets)
            is_required refl)
        ∙ h1)
