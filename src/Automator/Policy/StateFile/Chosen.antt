-- ===== src/Automator/Policy/StateFile/Chosen.antt =====
-- Where the policy of a run comes from.
use bowerbird.Base.{
  String, str_eq, Bool, true, false, ◌≡◌, refl, subst, inl, inr, Option, none, some, if◌then◌else◌,
  Bool-cases, ok, err, ok-injective, ◌>>=◌, >>=-eq-ok, policy_error,
}
use bowerbird.Automator.Json.{Object}
use bowerbird.Automator.Policy.{Python, stripped}
use bowerbird.Automator.Policy.Disk.{Disk, is_within, ensure_within}
use bowerbird.Automator.Policy.Load.{Sources, read_json, load_policy_for_state}
use bowerbird.Automator.Policy.Load.Pinned.{
  IsLoaded, ensure_within-ok, load_policy_for_state-pinned,
}
use bowerbird.Automator.Policy.StateFile.{
  Source, explicit, env, marker, Surroundings, candidate, resolve_anywhere, resolve_within,
  named_by_marker, from_marker, resolve_policy_state_file, effective, load_found,
  load_runtime_policy,
}

module _ {R P : Type 0} (python : Python R) (disk : Disk P) (sources : Sources R P)
    (around : Surroundings P) where
  open python use {strip}
  open disk use {project_root, resolve, is_file}
  open around use {state_file_variable, active_marker_path}

  -- The path of a name, within the project.
  abbrev pub IsWithin : String → P → Type 0
  IsWithin name path =
      (resolve (candidate python disk sources around name) ≡ path)
      × (is_within disk (candidate python disk sources around name) (resolve project_root) ≡ true)

  -- What the state file that was found, or none, promises.
  abbrev pub IsFrom : String → Option (Source × P) → Type 0
  IsFrom state_file none =
      (str_eq state_file "" ≡ true)
      × (str_eq (strip state_file_variable) "" ≡ true)
      × (is_file active_marker_path ≡ false)
  IsFrom state_file (some (explicit, path)) =
      (str_eq state_file "" ≡ false)
      × (resolve_anywhere python disk sources around state_file ≡ path)
  IsFrom state_file (some (env, path)) =
      (str_eq state_file "" ≡ true)
      × (str_eq (strip state_file_variable) "" ≡ false)
      × IsWithin (strip state_file_variable) path
  IsFrom state_file (some (marker, path)) =
      (str_eq state_file "" ≡ true)
      × (str_eq (strip state_file_variable) "" ≡ true)
      × (is_file active_marker_path ≡ true)
      × (payload : Object R) × (read_json python disk sources active_marker_path ≡ ok payload)
      × (str_eq (stripped python "stateFile" payload) "" ≡ false)
      × IsWithin (stripped python "stateFile" payload) path

  -- The policy that was loaded.
  abbrev pub IsChosen : Bool → Object R → Option (Source × P) → Type 0
  IsChosen resolve_assets policy none =
      effective python disk sources around resolve_assets ≡ ok policy
  IsChosen resolve_assets policy (some (explicit, path)) =
      IsLoaded python disk sources path resolve_assets policy
  IsChosen resolve_assets policy (some (source, path)) =
      (is_file path ≡ true) × IsLoaded python disk sources path resolve_assets policy

  -- A path that was found within the project.
  resolve_within-ok :
      (source : Source) (name : String) (found : Option (Source × P))
      → resolve_within python disk sources around source name ≡ ok found
      → (path : P) × (some (source, path) ≡ found)
        × (resolve (candidate python disk sources around name) ≡ path)
        × (is_within disk (candidate python disk sources around name) (resolve project_root) ≡ true)
  resolve_within-ok source name found h =
      let at = candidate python disk sources around name in
      let (path, is, same) = >>=-eq-ok (ensure_within disk at (resolve project_root)) _ h in
      let (inside, here) = ensure_within-ok python disk sources at (resolve project_root) path is in
      (path, ok-injective same, here, inside)

  env-IsFrom :
      (state_file : String) (found : Option (Source × P))
      → str_eq state_file "" ≡ true
      → str_eq (strip state_file_variable) "" ≡ false
      → resolve_within python disk sources around env (strip state_file_variable) ≡ ok found
      → IsFrom state_file found
  env-IsFrom state_file found empty set h =
      let (path, same, here, inside) = resolve_within-ok env (strip state_file_variable) found h in
      subst (IsFrom state_file) same (empty, set, (here, inside))

  named-IsFrom :
      (state_file : String) (payload : Object R) (found : Option (Source × P))
      → str_eq state_file "" ≡ true
      → str_eq (strip state_file_variable) "" ≡ true
      → is_file active_marker_path ≡ true
      → read_json python disk sources active_marker_path ≡ ok payload
      → named_by_marker python disk sources around (stripped python "stateFile" payload) ≡ ok found
      → IsFrom state_file found
  named-IsFrom state_file payload found empty unset there read h =
      let name = stripped python "stateFile" payload in
      elim (Bool-cases (str_eq name "")) [
        | inl nameless ↦ cc
        | inr named ↦
            let (path, same, here, inside) = resolve_within-ok marker name found (cc) in
            subst (IsFrom state_file) same
              (empty, unset, there, payload, read, named, (here, inside))
      ]

  from_marker-IsFrom :
      (state_file : String) (found : Option (Source × P))
      → str_eq state_file "" ≡ true
      → str_eq (strip state_file_variable) "" ≡ true
      → from_marker python disk sources around ≡ ok found
      → IsFrom state_file found
  from_marker-IsFrom state_file found empty unset h =
      elim (Bool-cases (is_file active_marker_path)) [
        | inl there ↦
            let read : (read_json python disk sources active_marker_path >>= λ payload.
            named_by_marker python disk sources around (stripped python "stateFile" payload))
                ≡ ok found =
              cc in
            let (payload, is_read, named) =
              >>=-eq-ok (read_json python disk sources active_marker_path) _ read in
            named-IsFrom state_file payload found empty unset there is_read named
        | inr missing ↦
            let none_found : ok none ≡ ok found = cc in
            subst (IsFrom state_file) (ok-injective none_found) (empty, unset, missing)
      ]

  resolve_policy_state_file-IsFrom :
      (state_file : String) (found : Option (Source × P))
      → resolve_policy_state_file python disk sources around state_file ≡ ok found
      → IsFrom state_file found
  unfolding resolve_policy_state_file
  resolve_policy_state_file-IsFrom state_file found h = elim (Bool-cases (str_eq state_file "")) [
    | inl empty ↦ elim (Bool-cases (str_eq (strip state_file_variable) "")) [
      | inl unset ↦ from_marker-IsFrom state_file found empty unset (cc)
      | inr set ↦ env-IsFrom state_file found empty set (cc)
    ]
    | inr given ↦
        let same : ok (some (explicit, resolve_anywhere python disk sources around state_file))
            ≡ ok found =
          cc in
        subst (IsFrom state_file) (ok-injective same) (given, refl)
  ]

  existing-IsLoaded :
      (resolve_assets : Bool) (policy : Object R) (path : P)
      → (if is_file path
          then load_policy_for_state python disk sources path resolve_assets
          else err policy_error)
        ≡ ok policy
      → (is_file path ≡ true) × IsLoaded python disk sources path resolve_assets policy
  existing-IsLoaded resolve_assets policy path h = elim (Bool-cases (is_file path)) [
    | inl there ↦
        (there, load_policy_for_state-pinned python disk sources path resolve_assets policy (cc))
    | inr missing ↦ cc
  ]

  load_found-IsChosen :
      (resolve_assets : Bool) (policy : Object R) (found : Option (Source × P))
      → load_found python disk sources around resolve_assets found ≡ ok policy
      → IsChosen resolve_assets policy found
  load_found-IsChosen resolve_assets policy none h = h
  load_found-IsChosen resolve_assets policy (some (explicit, path)) h =
      load_policy_for_state-pinned python disk sources path resolve_assets policy h
  load_found-IsChosen resolve_assets policy (some (env, path)) h =
      existing-IsLoaded resolve_assets policy path h
  load_found-IsChosen resolve_assets policy (some (marker, path)) h =
      existing-IsLoaded resolve_assets policy path h

  abbrev pub IsRunPolicy : String → Bool → Object R → Type 0
  IsRunPolicy state_file resolve_assets policy =
      (found : Option (Source × P)) × IsFrom state_file found × IsChosen resolve_assets policy found

  -- Where the policy of a run is loaded, one of four holds. No state file is given, in an argument or
  -- in the environment, and there is no marker file: it is the effective policy. A state file is given
  -- in an argument: it is the policy for that file, wherever the file lies. No argument is given, and
  -- the environment names a file; or neither, and the marker file is JSON for an object whose
  -- `stateFile` names one: the file of that name exists, lies within the project, and the policy is
  -- the one for it.
  pub load_runtime_policy-IsRunPolicy :
      (state_file : String) (resolve_assets : Bool) (policy : Object R)
      → load_runtime_policy python disk sources around state_file resolve_assets ≡ ok policy
      → IsRunPolicy state_file resolve_assets policy
  unfolding load_runtime_policy
  load_runtime_policy-IsRunPolicy state_file resolve_assets policy h =
      let (found, is_found, loads) =
        >>=-eq-ok (resolve_policy_state_file python disk sources around state_file) _ h in
      (
        found,
        resolve_policy_state_file-IsFrom state_file found is_found,
        load_found-IsChosen resolve_assets policy found loads,
      )
