-- ===== src/Config/Merge/Tables.antt =====
-- What `deep_merge` makes of two tables, key by key and path by path.
use bowerbird.Base.{
  String, str_eq, ◌≡◌, refl, ◌∙◌, Bool, Option, none, some, arith, eq_iff, Bool-cases, inl, inr, ok,
  >>=-eq-ok, subst,
}
use bowerbird.Config.Value.{Value, Fields, end, field, get, put, get-put}
use bowerbird.Config.Merge.{deep_merge, merge_fields}

-- A `dict` has each key once.
abbrev pub NodupKeys : {S : Type 0} → Fields S → Type 0
NodupKeys end = Unit
NodupKeys (field key v fs) = (get key fs ≡ none) × NodupKeys fs

module _ {S : Type 0} (same : S → S → Bool) where
  -- What stands under one key of the result, given what the two tables have under it.
  abbrev pub MergedAt : Option (Value S) → Option (Value S) → Option (Value S) → Type 0
  MergedAt base none result = result ≡ base
  MergedAt none (some v) result = result ≡ some v
  MergedAt (some b) (some v) result =
      (w : Value S) × (deep_merge same b v ≡ ok w) × (result ≡ some w)

  MergedAt-of_value :
      (old : Option (Value S)) (v w : Value S)
      → elim old [ none ↦ ok v | some o ↦ deep_merge same o v ] ≡ ok w
      → MergedAt old (some v) (some w)
  MergedAt-of_value none v w h = cc
  MergedAt-of_value (some o) v w h = (w, h, refl)

  -- One round of the loop over the override's entries.
  merge_fields-field :
      (j : String) (v : Value S) (base fs : Fields S) {result : Fields S}
      → merge_fields same base (field j v fs) ≡ ok result
      → (w : Value S) × MergedAt (get j base) (some v) (some w)
        × (merge_fields same (put j w base) fs ≡ ok result)
  unfolding deep_merge
  merge_fields-field j v base fs h =
      let (w, first, rest) = >>=-eq-ok _ (λ w. merge_fields same (put j w base) fs) h in
      (w, MergedAt-of_value (get j base) v w first, rest)

  MergedAt-absent : (b b' o r : Option (Value S)) → o ≡ none → b' ≡ b → MergedAt b' o r → r ≡ b
  MergedAt-absent b b' none r e p m = m ∙ p
  MergedAt-absent b b' (some _) r e p m = cc

  -- Key by key: an absent key keeps the base value, a new one gets the override's, and a
  -- key of both gets their merge.
  pub get-merge_fields :
      (key : String) (base override : Fields S) {result : Fields S}
      → NodupKeys override
      → merge_fields same base override ≡ ok result
      → MergedAt (get key base) (get key override) (get key result)
  unfolding deep_merge get
  get-merge_fields key base end u h = ground arith
  get-merge_fields key base (field j v fs) {result} (fresh, u) h =
      let (w, merged, rest) = merge_fields-field j v base fs h in
      let ih = get-merge_fields key (put j w base) fs u rest in
      elim (Bool-cases (str_eq j key)) [
        | inl e ↦
            let here : get key result ≡ some w =
              MergedAt-absent (some w) (get key (put j w base)) (get key fs) (get key result)
                (ground (arith, eq_iff j key)) (rw (get-put, e)) ih in
            let k : j ≡ key = (eq_iff j key).0 e in
            rw e (rw here (subst (λ i. MergedAt (get i base) (some v) (some w)) k merged))
        | inr e ↦ rw e (subst (λ b. MergedAt b (get key fs) (get key result)) (rw (get-put, e)) ih)
      ]
