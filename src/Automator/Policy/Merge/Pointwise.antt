-- ===== src/Automator/Policy/Merge/Pointwise.antt =====
-- A merged policy, key by key.
use bowerbird.Base.{
  String, str_eq, eq_iff, ◌≡◌, refl, ap, ◌∙◌, subst, eq_refl, Option, none, some, if◌then◌else◌,
  Bool-cases, inl, inr,
}
use bowerbird.Config.Value.{Value, Fields, end, field, get, put, get-put}
use bowerbird.Automator.Policy.Merge.{deep_merge, merge_fields}

module _ {S : Type 0} where
  -- No key stands twice, as in every `dict`.
  abbrev pub IsUnique : Fields S → Type 0
  IsUnique end = Unit
  IsUnique (field key v rest) = (get key rest ≡ none) × IsUnique rest

  -- What a key of the result holds, from what it holds on the two sides.
  abbrev pub merged_at : Option (Value S) → Option (Value S) → Option (Value S)
  merged_at old none = old
  merged_at none (some v) = some v
  merged_at (some old) (some v) = some (deep_merge old v)

  abbrev merged_value : Option (Value S) → Value S → Value S
  merged_value none v = v
  merged_value (some old) v = deep_merge old v

  merge_fields-field :
      (base : Fields S) (j : String) (v : Value S) (rest : Fields S)
      → merge_fields base (field j v rest)
        ≡ merge_fields (put j (merged_value (get j base) v) base) rest
  unfolding merge_fields deep_merge
  merge_fields-field base j v rest =
      elim (get j base)
        as (λ o.
          merge_fields (put j (elim o [ none ↦ v | some old ↦ deep_merge old v ]) base) rest
          ≡ merge_fields (put j (merged_value o v) base) rest) [ none ↦ refl | some old ↦ refl ]

  merge_fields-end : (base : Fields S) → merge_fields base end ≡ base
  unfolding merge_fields
  merge_fields-end base = refl

  merged_at-some :
      (old : Option (Value S)) (v : Value S) → some (merged_value old v) ≡ merged_at old (some v)
  merged_at-some none v = refl
  merged_at-some (some old) v = refl

  own-entry :
      (j : String) (v : Value S) (base rest : Fields S)
      → get j rest ≡ none
      → merged_at
          (if str_eq j j then some (merged_value (get j base) v) else get j base)
          (get j rest)
        ≡ merged_at (get j base) (if str_eq j j then some v else get j rest)
  own-entry j v base rest h = rw (eq_refl j) (rw h (merged_at-some (get j base) v))

  -- A key of the merged object holds the old value where the override has no such key, the value of
  -- the override where the base has none, and the merge of the two values where both have it; no
  -- key stands twice in the override.
  merge_fields-merged_at :
      (override base : Fields S) (key : String)
      → IsUnique override
      → get key (merge_fields base override) ≡ merged_at (get key base) (get key override)
  unfolding get
  merge_fields-merged_at end base key h = ap (get key) (merge_fields-end base)
  merge_fields-merged_at (field j v rest) base key h =
      let w = merged_value (get j base) v in
      ap (get key) (merge_fields-field base j v rest)
      ∙ merge_fields-merged_at rest (put j w base) key h.1
      ∙ ap (λ o. merged_at o (get key rest)) (get-put key j w base)
      ∙ elim (Bool-cases (str_eq j key)) [
        | inl same ↦
            let here : j ≡ key = (eq_iff j key).0 same in
            subst
              (λ k.
                merged_at (if str_eq j k then some w else get k base) (get k rest)
                ≡ merged_at (get k base) (if str_eq j k then some v else get k rest))
              here (own-entry j v base rest h.0)
        | inr other ↦ rw other
      ]
