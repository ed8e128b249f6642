-- ===== src/Config/Merge/Total.antt =====
-- When the merge does not raise: no table of an array has a list or a table for its `code` or `id`.
use bowerbird.Base.{
  ℕ, String, str_eq, ◌≡◌, refl, sym, ◌∙◌, ◌⊎◌, subst, Bool, true, false, Option, none, some,
  some-injective, List, [], ◌∷◌, ◌++◌, arith, if◌then◌else◌, Bool-cases, inl, inr, All, Result, ok,
  foldl_total, every,
}
use bowerbird.Config.Value.{
  Value, scalar, array, table, Fields, end, field, get, put, to_list, of_list, to_list-of_list,
}
use bowerbird.Config.Merge.{
  Merging, start, base_item, base_step, place, override_item, override_step, merge_by_key,
  merge_detected, merge_arrays, deep_merge, merge_fields, index_get, detect_keyed_merge_field,
  is_table,
}
use bowerbird.Config.Merge.Index.{IsKeyEquality, last_index-lt}
use bowerbird.Config.Merge.Keyed.{Tracks, assign_in_range, base_step-Round, override_step-Round}
use bowerbird.Config.Merge.Shape.{All-merge_arrays}

detected_cases :
    (tables with_code with_id : Bool) {key_name : String}
    → (if tables
        then (if with_code then some "code" else if with_id then some "id" else none)
        else none)
      ≡ some key_name
    → (key_name ≡ "code") ⊎ (key_name ≡ "id")
detected_cases true true i h = inl (sym (some-injective _ _ h))
detected_cases true false true h = inr (sym (some-injective _ _ h))
detected_cases true false false h = cc
detected_cases false c i h = cc

module _ {S : Type 0} where
  abbrev pub IsHashable : Option (Value S) → Type 0
  IsHashable none = Unit
  IsHashable (some (scalar s)) = Unit
  IsHashable (some _) = ⊥

  -- What the merge of arrays may hash of an item.
  abbrev pub HasHashableKeys : Value S → Type 0
  HasHashableKeys (table fs) = IsHashable (get "code" fs) × IsHashable (get "id" fs)
  HasHashableKeys _ = Unit

  abbrev HashableAt : String → Value S → Type 0
  HashableAt key_name (table fs) = IsHashable (get key_name fs)
  HashableAt key_name _ = Unit

  HashableAt-of_keys :
      (key_name : String) (items : List (Value S))
      → (key_name ≡ "code") ⊎ (key_name ≡ "id")
      → All HasHashableKeys items
      → All (HashableAt key_name) items
  HashableAt-of_keys key_name [] k h = tt
  HashableAt-of_keys key_name (scalar s ∷ items) k h = (tt, HashableAt-of_keys key_name items k h.1)
  HashableAt-of_keys key_name (array vs ∷ items) k h = (tt, HashableAt-of_keys key_name items k h.1)
  HashableAt-of_keys key_name (table fs ∷ items) (inl k) h = (
    subst (λ j. IsHashable (get j fs)) (sym k) h.0.0,
    HashableAt-of_keys key_name items (inl k) h.1,
  )
  HashableAt-of_keys key_name (table fs ∷ items) (inr k) h = (
    subst (λ j. IsHashable (get j fs)) (sym k) h.0.1,
    HashableAt-of_keys key_name items (inr k) h.1,
  )

  -- The field that is detected is `code` or `id`.
  pub detect_keyed_merge_field_cases :
      (items : List (Value S)) {key_name : String}
      → detect_keyed_merge_field items ≡ some key_name
      → (key_name ≡ "code") ⊎ (key_name ≡ "id")
  unfolding detect_keyed_merge_field
  detect_keyed_merge_field_cases [] h = cc
  detect_keyed_merge_field_cases (x ∷ xs) h = detected_cases (every is_table (x ∷ xs)) _ _ h

module _ {S : Type 0} (same : S → S → Bool) (E : IsKeyEquality same) (key_name : String) where
  abbrev Returns : Result (Merging S) → Type 0
  Returns r = (m' : Merging S) × (r ≡ ok m')

  base_item_total :
      (m : Merging S) (item : Value S) (key : Option (Value S))
      → IsHashable key
      → Returns (base_item same m item key)
  base_item_total m item none h = (_, refl)
  base_item_total m item (some (scalar s)) h = (_, refl)
  base_item_total m item (some (array _)) h = absurd h
  base_item_total m item (some (table _)) h = absurd h

  base_step_total :
      (m : Merging S) (item : Value S)
      → HashableAt key_name item
      → Returns (base_step same key_name m item)
  unfolding base_step
  base_step_total m (table fs) h = base_item_total m (table fs) (get key_name fs) h
  base_step_total m _ h = (m, refl)

  place_total :
      (m : Merging S) (item : Value S) (k : S) (at : Option ℕ)
      → Tracks same E key_name m
      → index_get same k m.index_by_key ≡ at
      → Returns (place same m item k at)
  place_total m item k none t a = (_, refl)
  place_total m item k (some i) t a = (
    _,
    assign_in_range same E key_name m item i
        (last_index-lt same E key_name k i m.result (sym (t k) ∙ a)),
  )

  override_item_total :
      (m : Merging S) (item : Value S) (key : Option (Value S))
      → Tracks same E key_name m
      → IsHashable key
      → Returns (override_item same m item key)
  override_item_total m item none t h = (_, refl)
  override_item_total m item (some (scalar s)) t h = place_total m item s _ t refl
  override_item_total m item (some (array _)) t h = absurd h
  override_item_total m item (some (table _)) t h = absurd h

  override_step_total :
      (m : Merging S) (item : Value S)
      → Tracks same E key_name m
      → HashableAt key_name item
      → Returns (override_step same key_name m item)
  unfolding override_step
  override_step_total m (table fs) t h = override_item_total m (table fs) (get key_name fs) t h
  override_step_total m _ t h = (_, refl)

  merge_by_key_total :
      (base override : List (Value S))
      → All (HashableAt key_name) base
      → All (HashableAt key_name) override
      → (r : List (Value S)) × (merge_by_key same base override key_name ≡ ok r)
  unfolding merge_by_key index_get
  merge_by_key_total base override hb ho =
      let (m, first, t) =
        foldl_total (Tracks same E key_name) (HashableAt key_name) (base_step same key_name)
          (λ m item t h.
            let (m', e) = base_step_total m item h in
            (m', e, (base_step-Round same E key_name m item m' t e).0))
          base (start same) hb (λ _. refl) in
      let (m', second, _) =
        foldl_total (Tracks same E key_name) (HashableAt key_name) (override_step same key_name)
          (λ m item t h.
            let (m', e) = override_step_total m item t h in
            (m', e, (override_step-Round same E key_name m item m' t e).0))
          override m ho t in
      (m'.result, rw (first, second))

module _ {S : Type 0} (same : S → S → Bool) (E : IsKeyEquality same) where
  merge_detected_total :
      (k : Option String) (base override : List (Value S))
      → detect_keyed_merge_field (base ++ override) ≡ k
      → All HasHashableKeys base
      → All HasHashableKeys override
      → (r : List (Value S)) × (merge_detected same k base override ≡ ok r)
  merge_detected_total none base override d hb ho = (_, refl)
  merge_detected_total (some key_name) base override d hb ho =
      let which = detect_keyed_merge_field_cases (base ++ override) d in
      merge_by_key_total same E key_name base override (HashableAt-of_keys key_name base which hb)
        (HashableAt-of_keys key_name override which ho)

  merge_arrays_total :
      (base override : List (Value S))
      → All HasHashableKeys base
      → All HasHashableKeys override
      → (r : List (Value S)) × (merge_arrays same base override ≡ ok r)
  unfolding merge_arrays
  merge_arrays_total base override hb ho = merge_detected_total _ base override refl hb ho

-- Every array outside other arrays holds items whose keys can be hashed.
unfoldable mutual
  pub IsMergeable : {S : Type 0} → Value S → Type 0
  IsMergeable (scalar s) = Unit {0}
  IsMergeable (array vs) = All HasHashableKeys (to_list vs)
  IsMergeable (table fs) = IsMergeableFields fs

  pub IsMergeableFields : {S : Type 0} → Fields S → Type 0
  IsMergeableFields end = Unit {0}
  IsMergeableFields (field k v fs) = IsMergeable v × IsMergeableFields fs

module _ {S : Type 0} where
  get-IsMergeable :
      (key : String) (fs : Fields S) {v : Value S}
      → IsMergeableFields fs
      → get key fs ≡ some v
      → IsMergeable v
  unfolding get IsMergeable
  get-IsMergeable key end h e = cc
  get-IsMergeable key (field j w fs) h e = elim (Bool-cases (str_eq j key)) [
    | inl c ↦ subst IsMergeable (some-injective _ _ (rw c at e)) h.0
    | inr c ↦ get-IsMergeable key fs h.1 (rw c at e)
  ]

  put-IsMergeableFields :
      (key : String) (v : Value S) (fs : Fields S)
      → IsMergeable v
      → IsMergeableFields fs
      → IsMergeableFields (put key v fs)
  unfolding put IsMergeable
  put-IsMergeableFields key v end d h = (d, tt)
  put-IsMergeableFields key v (field j w fs) d (h, hs) =
      ground (arith, put-IsMergeableFields key v fs d hs)

module _ {S : Type 0} (same : S → S → Bool) (E : IsKeyEquality same) where
  mutual
    unfolding deep_merge IsMergeable

    deep_merge_total_at :
        (base override : Value S)
        → IsMergeable base
        → IsMergeable override
        → (r : Value S) × (deep_merge same base override ≡ ok r) × IsMergeable r
    deep_merge_total_at (table bs) (table fs) hb ho =
        let (rs, merged, h) = merge_fields_total bs fs hb ho in (table rs, rw merged, h)
    deep_merge_total_at (array bs) (array os) hb ho =
        let (rs, merged) = merge_arrays_total same E (to_list bs) (to_list os) hb ho in
        (
          array (of_list rs),
          rw merged,
          rw to_list-of_list
              (All-merge_arrays same HasHashableKeys (to_list bs) (to_list os) hb ho merged),
        )
    deep_merge_total_at base override hb ho = (override, refl, ho)

    merge_fields_total :
        (bs fs : Fields S)
        → IsMergeableFields bs
        → IsMergeableFields fs
        → (r : Fields S) × (merge_fields same bs fs ≡ ok r) × IsMergeableFields r
    merge_fields_total bs end hb ho = (bs, refl, hb)
    merge_fields_total bs (field k v fs) hb ho =
        let (w, e, hw) =
          (elim (get k bs)
              as (λ old.
                (old ≡ get k bs)
                → (w : Value S) × (elim old [ none ↦ ok v | some o ↦ deep_merge same o v ] ≡ ok w)
                  × IsMergeable w) [
                    | none ↦ λ _. (v, refl, ho.0)
                    | some o ↦ λ p. deep_merge_total_at o v (get-IsMergeable k bs hb (sym p)) ho.0
                  ])
            refl in
        let (r, rest, hr) =
          merge_fields_total (put k w bs) fs (put-IsMergeableFields k w bs hw hb) ho.1 in
        (r, rw e rest, hr)

  -- Two values whose arrays hold items with hashable keys merge without an exception, and the
  -- result is such a value again.
  pub deep_merge_total :
      (base override : Value S)
      → IsMergeable base
      → IsMergeable override
      → (r : Value S) × (deep_merge same base override ≡ ok r) × IsMergeable r
  deep_merge_total base override hb ho = deep_merge_total_at base override hb ho
