-- ===== src/Config/Merge.antt =====
-- The structural merge, `_detect_keyed_merge_field` to `deep_merge` and `extract_key`, which
-- _bmad/scripts/resolve_config.py and _bmad/scripts/resolve_customization.py have in common.
-- `same` is Python's equality of two hashable scalars, as a `dict` compares its keys.
pub mod Index
pub mod Total
pub mod Keyed
pub mod Places
pub mod Paths
pub mod Shape
pub mod Tables
use Prim.Native.Char.{Char, code}
use bowerbird.Base.{
  ℕ, String, str_eq, ◌==◌, Bool, true, false, ◌&&◌, Option, none, some, List, [], ◌∷◌, ◌++◌,
  if◌then◌else◌, length, get_elem?, set, every, is_some, Result, ok, err, ◌>>=◌, foldl, type_error,
  index_error, ltb,
}
use bowerbird.Config.Value.{
  Value, scalar, array, table, Items, Fields, end, field, to_list, of_list, get, put,
}

abbrev pub keyed_merge_fields : List String
keyed_merge_fields = "code" ∷ "id" ∷ []

module _ {S : Type 0} where
  -- `isinstance(item, dict)`
  abbrev pub is_table : Value S → Bool
  is_table (table fs) = true
  is_table _ = false

  -- `item.get(candidate) is not None`
  abbrev pub has_key : String → Value S → Bool
  has_key candidate (table fs) = is_some (get candidate fs)
  has_key candidate _ = false

  abbrev pub detect_among : List String → List (Value S) → Option String
  detect_among [] items = none
  detect_among (c ∷ cs) items = if every (has_key c) items then some c else detect_among cs items

  unfoldable pub detect_keyed_merge_field : List (Value S) → Option String
  detect_keyed_merge_field [] = none
  detect_keyed_merge_field (x ∷ xs) =
      if every is_table (x ∷ xs) then detect_among keyed_merge_fields (x ∷ xs) else none

  -- A `dict` key must be hashable; a list or a `dict` is not.
  abbrev pub hashed : Value S → Result S
  hashed (scalar s) = ok s
  hashed _ = err type_error

  -- `xs[i] = v`
  abbrev pub assign : List (Value S) → ℕ → Value S → Result (List (Value S))
  assign xs i v = if ltb i (length xs) then ok (set xs i v) else err index_error

-- The variables of `_merge_by_key`.
pub record Merging (S : Type 0) : Type 0 where
  pub result : List (Value S)
  pub index_by_key : List (S × ℕ)

abbrev pub push : {S : Type 0} → Merging S → Value S → Merging S
push m v = record m { result = m.result ++ (v ∷ []) }

module _ {S : Type 0} (same : S → S → Bool) where
  unfoldable pub index_get : S → List (S × ℕ) → Option ℕ
  index_get s [] = none
  index_get s ((t, i) ∷ r) = if same t s then some i else index_get s r

  unfoldable pub index_put : S → ℕ → List (S × ℕ) → List (S × ℕ)
  index_put s n [] = (s, n) ∷ []
  index_put s n ((t, i) ∷ r) = if same t s then (t, n) ∷ r else (t, i) ∷ index_put s n r

  abbrev pub remember : Merging S → S → Merging S
  remember m s = record m { index_by_key = index_put s (length m.result) m.index_by_key }

  abbrev pub base_item : Merging S → Value S → Option (Value S) → Result (Merging S)
  base_item m item none = ok (push m item)
  base_item m item (some key) = hashed key >>= λ s. ok (push (remember m s) item)

  -- The body of the loop over `base`.
  unfoldable pub base_step : String → Merging S → Value S → Result (Merging S)
  base_step key_name m (table fs) = base_item m (table fs) (get key_name fs)
  base_step key_name m _ = ok m

  -- `result[index_by_key[key]] = …`, or a new entry.
  abbrev pub place : Merging S → Value S → S → Option ℕ → Result (Merging S)
  place m item s none = ok (push (remember m s) item)
  place m item s (some i) = assign m.result i item >>= λ xs. ok (record m { result = xs })

  abbrev pub override_item : Merging S → Value S → Option (Value S) → Result (Merging S)
  override_item m item none = ok (push m item)
  override_item m item (some key) = hashed key >>= λ s. place m item s (index_get s m.index_by_key)

  -- The body of the loop over `override`.
  unfoldable pub override_step : String → Merging S → Value S → Result (Merging S)
  override_step key_name m (table fs) = override_item m (table fs) (get key_name fs)
  override_step key_name m item = ok (push m item)

  abbrev pub start : Merging S
  start = record { result = []; index_by_key = [] }

  unfoldable pub merge_by_key : List (Value S) → List (Value S) → String → Result (List (Value S))
  merge_by_key base override key_name = foldl (base_step key_name) start base >>= λ m.
      foldl (override_step key_name) m override >>= λ m'. ok m'.result

  abbrev pub merge_detected :
      Option String → List (Value S) → List (Value S) → Result (List (Value S))
  merge_detected none base override = ok (base ++ override)
  merge_detected (some key_name) base override = merge_by_key base override key_name

  unfoldable pub merge_arrays : List (Value S) → List (Value S) → Result (List (Value S))
  merge_arrays base override =
      merge_detected (detect_keyed_merge_field (base ++ override)) base override

  -- Recursion on the override, whose entries are visited in order.
  unfoldable mutual
    pub deep_merge : Value S → Value S → Result (Value S)
    deep_merge (table base) (table override) =
        merge_fields base override >>= λ result. ok (table result)
    deep_merge (array base) (array override) =
        merge_arrays (to_list base) (to_list override) >>= λ result. ok (array (of_list result))
    deep_merge _ override = ok override

    pub merge_fields : Fields S → Fields S → Result (Fields S)
    merge_fields result end = ok result
    merge_fields result (field key over_val rest) =
        elim (get key result) [ none ↦ ok over_val | some old ↦ deep_merge old over_val ] >>= λ v.
        merge_fields (put key v result) rest

-- A separator starts a new part; any other character goes to the part that follows.
abbrev cut : Bool → Char → List String → List String
cut true c parts = "" ∷ parts
cut false c [] = []
cut false c (part ∷ parts) = String.◌∷◌ c part ∷ parts

-- `dotted_key.split(".")`
unfoldable pub split_dots : String → List String
split_dots String.[] = "" ∷ []
split_dots (String.◌∷◌ c s) = cut (code c == b'.') c (split_dots s)

-- `none` is `_MISSING`.
module _ {S : Type 0} where
  unfoldable pub extract : Value S → List String → Option (Value S)
  extract current [] = some current
  extract (table fs) (part ∷ parts) = elim (get part fs) [ none ↦ none | some v ↦ extract v parts ]
  extract _ (part ∷ parts) = none

  abbrev pub extract_key : Value S → String → Option (Value S)
  extract_key root dotted_key = extract root (split_dots dotted_key)
