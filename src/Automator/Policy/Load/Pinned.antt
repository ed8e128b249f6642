-- ===== src/Automator/Policy/Load/Pinned.antt =====
-- A state file that pins a snapshot gets that snapshot, and no other policy.
use bowerbird.Base.{
  String, str_eq, eq_iff, Bool, true, false, ◌≡◌, refl, sym, ap, ◌∙◌, subst, not, ◌||◌, inl, inr,
  some, if◌then◌else◌, Result, ok, err, >>=-eq-ok, ok-injective, Bool-cases, Option-cases,
  type_error, value_error, key_error, overflow_error, os_error, index_error, attribute_error,
  policy_error,
}
use bowerbird.Config.Value.{scalar, array, table}
use bowerbird.Automator.Json.{Json, Object}
use bowerbird.Automator.Policy.{Python, stripped, validate_policy_shape}
use bowerbird.Automator.Policy.Disk.{Disk, is_within, ensure_within}
use bowerbird.Automator.Policy.Load.{
  Mode, legacy, pinned, Sources, as_policy_error, loaded, validated, resolved, snapshot_path,
  check_hash, load_bundled_policy, load_policy_snapshot, state_policy_mode, load_in_mode,
  load_policy_for_state,
}

module _ {R P : Type 0} (python : Python R) (disk : Disk P) (sources : Sources R P) where
  open python use {lower}
  open disk use {project_root, resolve, is_file, read_text, md5_hex8}
  open sources use {loads, parse_simple_frontmatter}

  -- The policy is the content of a file within the project, with that hash, that was validated.
  abbrev pub IsSnapshot : String → String → Bool → Object R → Type 0
  IsSnapshot file hash resolve_assets policy =
      let path = snapshot_path python disk sources file in
      (raw : String) × (stored : Object R) × (is_within disk path project_root ≡ true)
      × (is_file (resolve path) ≡ true)
      × (read_text (resolve path) ≡ ok raw)
      × (md5_hex8 raw ≡ hash)
      × (loads raw ≡ some (table stored))
      × (validate_policy_shape python stored ≡ ok tt)
      × (resolved python disk sources resolve_assets stored ≡ ok policy)

  -- The fields of a state file that ask for a mode: no field of a policy and no `false` for the
  -- legacy mode, or a file and a hash and no `true` for it.
  abbrev pub IsMode : Object R → Mode → Type 0
  IsMode fields legacy =
      (str_eq (stripped python "policySnapshotFile" fields) "" ≡ true)
      × (str_eq (stripped python "policySnapshotHash" fields) "" ≡ true)
      × (str_eq (stripped python "policyVersion" fields) "" ≡ true)
      × (str_eq (lower (stripped python "legacyPolicy" fields)) "false" ≡ false)
  IsMode fields (pinned file hash) =
      (stripped python "policySnapshotFile" fields ≡ file)
      × (stripped python "policySnapshotHash" fields ≡ hash)
      × (str_eq file "" ≡ false)
      × (str_eq hash "" ≡ false)
      × (str_eq (lower (stripped python "legacyPolicy" fields)) "true" ≡ false)

  -- What the mode asks for.
  abbrev pub IsOfMode : Bool → Object R → Mode → Type 0
  IsOfMode resolve_assets policy legacy =
      load_bundled_policy python disk sources resolve_assets ≡ ok policy
  IsOfMode resolve_assets policy (pinned file hash) = IsSnapshot file hash resolve_assets policy

  abbrev pub IsLoaded : P → Bool → Object R → Type 0
  IsLoaded state_file resolve_assets policy =
      (raw : String) × (mode : Mode) × (read_text state_file ≡ ok raw)
      × IsMode (parse_simple_frontmatter raw) mode
      × IsOfMode resolve_assets policy mode

  as_policy_error-ok : {V : Type 0} (r : Result V) (v : V) → as_policy_error r ≡ ok v → r ≡ ok v
  as_policy_error-ok (ok w) v h = h
  as_policy_error-ok (err type_error) v h = cc
  as_policy_error-ok (err value_error) v h = cc
  as_policy_error-ok (err key_error) v h = cc
  as_policy_error-ok (err overflow_error) v h = cc
  as_policy_error-ok (err os_error) v h = cc
  as_policy_error-ok (err index_error) v h = cc
  as_policy_error-ok (err attribute_error) v h = cc
  as_policy_error-ok (err policy_error) v h = cc

  validated-ok :
      (v : Json R) (d : Object R)
      → validated python disk sources v ≡ ok d
      → (v ≡ table d) × (validate_policy_shape python d ≡ ok tt)
  validated-ok (scalar s) d h = cc
  validated-ok (array vs) d h = cc
  validated-ok (table e) d h =
      let (_, valid, same) = >>=-eq-ok (validate_policy_shape python e) _ h in
      let here : e ≡ d = ok-injective same in
      (ap table here, ap (validate_policy_shape python) (sym here) ∙ valid)

  pub ensure_within-ok :
      (path root found : P)
      → ensure_within disk path root ≡ ok found
      → (is_within disk path root ≡ true) × (resolve path ≡ found)
  unfolding ensure_within
  ensure_within-ok path root found h = elim (Bool-cases (is_within disk path root)) [
    | inl inside ↦ let same : ok (resolve path) ≡ ok found = cc in (inside, ok-injective same)
    | inr other ↦ cc
  ]

  read-ok :
      (path : P) (raw : String)
      → (if is_file path then as_policy_error (read_text path) else err policy_error) ≡ ok raw
      → (is_file path ≡ true) × (read_text path ≡ ok raw)
  read-ok path raw h = elim (Bool-cases (is_file path)) [
    | inl there ↦ (there, as_policy_error-ok (read_text path) raw (cc))
    | inr other ↦ cc
  ]

  check_hash-ok :
      (hash raw : String) {u : Unit {0}}
      → str_eq hash "" ≡ false
      → check_hash python disk sources hash raw ≡ ok u
      → md5_hex8 raw ≡ hash
  check_hash-ok hash raw set h = elim (Bool-cases (str_eq (md5_hex8 raw) hash)) [
    | inl same ↦ (eq_iff (md5_hex8 raw) hash).0 same
    | inr other ↦ cc
  ]

  loaded-ok :
      (raw : String) (v : Json R) → loaded python disk sources raw ≡ ok v → loads raw ≡ some v
  loaded-ok raw v h = elim (Option-cases (loads raw)) [ inl other ↦ cc | inr (w, is) ↦ cc ]

  load_policy_snapshot-IsSnapshot :
      (file hash : String) (resolve_assets : Bool) (policy : Object R)
      → str_eq hash "" ≡ false
      → load_policy_snapshot python disk sources file hash resolve_assets ≡ ok policy
      → IsSnapshot file hash resolve_assets policy
  unfolding load_policy_snapshot
  load_policy_snapshot-IsSnapshot file hash resolve_assets policy set h =
      let located = ensure_within disk (snapshot_path python disk sources file) project_root in
      let (path, is_path, h1) = >>=-eq-ok located _ h in
      let (raw, is_raw, h2) =
        >>=-eq-ok (if is_file path then as_policy_error (read_text path) else err policy_error) _
          h1 in
      let (_, fits, h3) = >>=-eq-ok (check_hash python disk sources hash raw) _ h2 in
      let (v, is_v, h4) = >>=-eq-ok (loaded python disk sources raw) _ h3 in
      let (stored, is_stored, h5) = >>=-eq-ok (validated python disk sources v) _ h4 in
      let (within, here) =
        ensure_within-ok (snapshot_path python disk sources file) project_root path is_path in
      let (found, read) = read-ok path raw is_raw in
      let (is_table, valid) = validated-ok v stored is_stored in
      (
        raw,
        stored,
        within,
        ap is_file here ∙ found,
        ap read_text here ∙ read,
        check_hash-ok hash raw set fits,
        loaded-ok raw v is_v ∙ ap some is_table,
        valid,
        h5,
      )

  state_policy_mode-IsMode :
      (fields : Object R) (mode : Mode)
      → state_policy_mode python disk sources fields ≡ ok mode
      → IsMode fields mode
  unfolding state_policy_mode
  state_policy_mode-IsMode fields mode h =
      let file = stripped python "policySnapshotFile" fields in
      let hash = stripped python "policySnapshotHash" fields in
      let version = stripped python "policyVersion" fields in
      let legacy_policy = lower (stripped python "legacyPolicy" fields) in
      mode_of (str_eq file "") (str_eq hash "") (str_eq version "") (str_eq legacy_policy "true")
        (str_eq legacy_policy "false") refl refl refl refl refl h
    where
      mode_of :
          (f g v t l : Bool)
          → str_eq (stripped python "policySnapshotFile" fields) "" ≡ f
          → str_eq (stripped python "policySnapshotHash" fields) "" ≡ g
          → str_eq (stripped python "policyVersion" fields) "" ≡ v
          → str_eq (lower (stripped python "legacyPolicy" fields)) "true" ≡ t
          → str_eq (lower (stripped python "legacyPolicy" fields)) "false" ≡ l
          → (if not f || not g
              then (if f || g || t
                  then err policy_error
                  else ok (
                      pinned
                        (stripped python "policySnapshotFile" fields)
                        (stripped python "policySnapshotHash" fields)))
              else if l || not v
              then err policy_error
              else ok legacy)
            ≡ ok mode
          → IsMode fields mode
      mode_of true true true t false a b c d e h =
          subst (IsMode fields) (ok-injective h) (a, b, c, e)
      mode_of false false v false l a b c d e h =
          subst (IsMode fields) (ok-injective h) (refl, refl, a, b, d)
      mode_of true true false t false a b c d e h = cc
      mode_of true true v t true a b c d e h = cc
      mode_of true false v t l a b c d e h = cc
      mode_of false true v t l a b c d e h = cc
      mode_of false false v true l a b c d e h = cc

  load_in_mode-IsOfMode :
      (resolve_assets : Bool) (policy fields : Object R) (mode : Mode)
      → IsMode fields mode
      → load_in_mode python disk sources resolve_assets mode ≡ ok policy
      → IsOfMode resolve_assets policy mode
  load_in_mode-IsOfMode resolve_assets policy fields legacy is h = h
  load_in_mode-IsOfMode resolve_assets policy fields (pinned file hash) (_, _, _, set, _) h =
      load_policy_snapshot-IsSnapshot file hash resolve_assets policy set h

  -- Where a policy is loaded for a state file, the file was read, and one of two holds. Its
  -- frontmatter has no snapshot file, no hash and no version, and does not say `false` for the legacy
  -- mode: the policy is the bundled one. Or it has a file and a hash, and does not say `true` for the
  -- legacy mode: the policy is the content of that file, which is a file within the project, has the
  -- hash, is JSON for an object, passed the validation, and had its paths resolved.
  pub load_policy_for_state-pinned :
      (state_file : P) (resolve_assets : Bool) (policy : Object R)
      → load_policy_for_state python disk sources state_file resolve_assets ≡ ok policy
      → IsLoaded state_file resolve_assets policy
  unfolding load_policy_for_state
  load_policy_for_state-pinned state_file resolve_assets policy h =
      let (raw, is_raw, h1) = >>=-eq-ok (as_policy_error (read_text state_file)) _ h in
      let fields = parse_simple_frontmatter raw in
      let (mode, is_mode, h2) = >>=-eq-ok (state_policy_mode python disk sources fields) _ h1 in
      let asks = state_policy_mode-IsMode fields mode is_mode in
      (
        raw,
        mode,
        as_policy_error-ok (read_text state_file) raw is_raw,
        asks,
        load_in_mode-IsOfMode resolve_assets policy fields mode asks h2,
      )
