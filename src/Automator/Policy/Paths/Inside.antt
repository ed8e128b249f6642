-- ===== src/Automator/Policy/Paths/Inside.antt =====
-- Data files lie within the allowed roots.
use bowerbird.Base.{
  String, Bool, true, false, ◌&&◌, ◌≡◌, ◌⊎◌, inl, inr, some, List, [], ◌∷◌, exists, if◌then◌else◌,
  Bool-cases, Option-cases, Result, ok, err, ok-injective, policy_error, arith,
}
use bowerbird.Automator.Policy.Disk.{Disk, is_within, existing}
use bowerbird.Automator.Policy.Paths.{search_roots, resolve_data_path}

module _ {P : Type 0} (disk : Disk P) where
  open disk use {
    project_root, join, path_of, is_absolute, resolve, shown, is_file, resolve_portable_path,
  }

  -- The text names a file within one of the roots.
  abbrev IsInside : List P → String → Type 0
  IsInside roots name =
      (path : P) × (shown path ≡ name)
      × (is_file path ≡ true)
      × (exists (is_within disk path) roots ≡ true)

  abbrev pub IsDataFile : P → String → String → Type 0
  IsDataFile bundle_root path_value name =
      (path : P) × (shown path ≡ name)
      × (is_file path ≡ true)
      × ((resolve_portable_path path_value ≡ some path)
          ⊎ (exists (is_within disk path) (resolve bundle_root ∷ resolve project_root ∷ []) ≡ true))

  existing-ok :
      (path : P) (name : String)
      → existing disk path ≡ ok name
      → (shown path ≡ name) × (is_file path ≡ true)
  existing-ok path name h = elim (Bool-cases (is_file path)) [
    | inl there ↦ let same : ok (shown path) ≡ ok name = cc in (ok-injective same, there)
    | inr other ↦ cc
  ]

  search_roots-IsInside :
      (raw : String) (roots : List P) (name : String)
      → search_roots disk raw roots ≡ ok name
      → IsInside roots name
  unfolding search_roots
  search_roots-IsInside raw [] name h = cc
  search_roots-IsInside raw (base ∷ bases) name h =
      let candidate = resolve (join base raw) in
      elim (Bool-cases (is_within disk candidate base && is_file candidate)) [
        | inl holds ↦
            let same : ok (shown candidate) ≡ ok name = cc in
            (candidate, ok-injective same, ground (arith, holds), ground (arith, holds))
        | inr other ↦
            let (path, is, there, inside) = search_roots-IsInside raw bases name (cc) in
            (path, is, there, ground (arith, inside))
      ]

  absolute-IsInside :
      (path : P) (roots : List P) (name : String)
      → (if exists (is_within disk path) roots then existing disk path else err policy_error)
        ≡ ok name
      → IsInside roots name
  absolute-IsInside path roots name h = elim (Bool-cases (exists (is_within disk path) roots)) [
    | inl inside ↦ let (is, there) = existing-ok path name (cc) in (path, is, there, inside)
    | inr other ↦ cc
  ]

  relative-IsInside :
      (b : Bool) (first second : Result String) (roots : List P) (name : String)
      → (first ≡ ok name → IsInside roots name)
      → (second ≡ ok name → IsInside roots name)
      → (if b then first else second) ≡ ok name
      → IsInside roots name
  relative-IsInside true first second roots name f g h = f h
  relative-IsInside false first second roots name f g h = g h

  -- A data path that is resolved is an existing file. Where it is not a portable path, the file lies
  -- within the root of the skill or within the root of the project.
  pub resolve_data_path_lem :
      (bundle_root : P) (path_value name : String)
      → resolve_data_path disk bundle_root path_value ≡ ok name
      → IsDataFile bundle_root path_value name
  unfolding resolve_data_path
  resolve_data_path_lem bundle_root path_value name h =
      let roots : List P = resolve bundle_root ∷ resolve project_root ∷ [] in
      elim (Option-cases (resolve_portable_path path_value)) [
        | inr (portable, is_portable) ↦
            let (is, there) = existing-ok portable name (cc) in
            (portable, is, there, inl is_portable)
        | inl none_portable ↦
            let (path, is, there, inside) =
              relative-IsInside (is_absolute path_value) _ _ roots name
                (absolute-IsInside (resolve (path_of path_value)) roots name)
                (search_roots-IsInside path_value roots name) (cc) in
            (path, is, there, inr inside)
      ]
