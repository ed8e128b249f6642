-- ===== src/Config/Merge/Shape.antt =====
-- Each key once, at any depth: the shape of what `tomllib` returns, and what the merge keeps.
use bowerbird.Base.{
  ℕ, String, str_eq, ◌≡◌, refl, sym, Bool, Option, none, some, some-injective, Bool-cases, inl, inr,
  List, [], ◌∷◌, ◌++◌, arith, eq_iff, Result, ok, ok-injective, >>=-eq-ok, subst, All, All-append,
  All-set, foldl_inv, ltb, length,
}
use bowerbird.Config.Value.{
  Value, scalar, array, table, Items, nil, cons, Fields, end, field, get, put, get-put, to_list,
  of_list,
}
use bowerbird.Config.Merge.{
  Merging, start, base_item, base_step, place, override_item, override_step, merge_detected,
  merge_by_key, merge_arrays, deep_merge, merge_fields, detect_keyed_merge_field,
}
use bowerbird.Config.Merge.Tables.{NodupKeys}

unfoldable mutual
  pub IsDict : {S : Type 0} → Value S → Type 0
  IsDict (scalar s) = Unit {0}
  IsDict (array vs) = IsDictItems vs
  IsDict (table fs) = NodupKeys fs × IsDictFields fs

  pub IsDictItems : {S : Type 0} → Items S → Type 0
  IsDictItems nil = Unit {0}
  IsDictItems (cons v vs) = IsDict v × IsDictItems vs

  pub IsDictFields : {S : Type 0} → Fields S → Type 0
  IsDictFields end = Unit {0}
  IsDictFields (field k v fs) = IsDict v × IsDictFields fs

module _ {S : Type 0} where
  pub get-IsDict :
      (key : String) (fs : Fields S) {v : Value S}
      → IsDictFields fs
      → get key fs ≡ some v
      → IsDict v
  unfolding get IsDict
  get-IsDict key end h e = cc
  get-IsDict key (field j w fs) h e = elim (Bool-cases (str_eq j key)) [
    | inl c ↦ subst IsDict (some-injective _ _ (rw c at e)) h.0
    | inr c ↦ get-IsDict key fs h.1 (rw c at e)
  ]

  put-NodupKeys :
      (key : String) (v : Value S) (fs : Fields S) → NodupKeys fs → NodupKeys (put key v fs)
  unfolding put get
  put-NodupKeys key v end u = (refl, tt)
  put-NodupKeys key v (field j w fs) (fresh, u) =
      ground (arith, put-NodupKeys key v fs u, get-put j key v fs, eq_iff key j, eq_iff j key)

  put-IsDictFields :
      (key : String) (v : Value S) (fs : Fields S)
      → IsDict v
      → IsDictFields fs
      → IsDictFields (put key v fs)
  unfolding put IsDict
  put-IsDictFields key v end d h = (d, tt)
  put-IsDictFields key v (field j w fs) d (h, hs) = ground (arith, put-IsDictFields key v fs d hs)

  All-to_list : (vs : Items S) → IsDictItems vs → All IsDict (to_list vs)
  unfolding IsDict
  All-to_list nil h = tt
  All-to_list (cons v vs) h = (h.0, All-to_list vs h.1)

  IsDictItems-of_list : (vs : List (Value S)) → All IsDict vs → IsDictItems (of_list vs)
  unfolding IsDict
  IsDictItems-of_list [] h = tt
  IsDictItems-of_list (v ∷ vs) h = (h.0, IsDictItems-of_list vs h.1)

module _ {S : Type 0} (same : S → S → Bool) (P : Value S → Type 0) where
  -- Every entry of the result comes from one of the two arrays.
  All-base_item :
      (m : Merging S) (item : Value S) (key : Option (Value S)) (m' : Merging S)
      → All P m.result
      → P item
      → base_item same m item key ≡ ok m'
      → All P m'.result
  All-base_item m item none m' h p e =
      subst (λ (n : Merging S). All P n.result) (ok-injective e) (All-append P m.result _ h (p, tt))
  All-base_item m item (some (scalar s)) m' h p e =
      subst (λ (n : Merging S). All P n.result) (ok-injective e) (All-append P m.result _ h (p, tt))
  All-base_item m item (some (array _)) m' h p e = cc
  All-base_item m item (some (table _)) m' h p e = cc

  All-place :
      (m : Merging S) (item : Value S) (s : S) (at : Option ℕ) (m' : Merging S)
      → All P m.result
      → P item
      → place same m item s at ≡ ok m'
      → All P m'.result
  All-place m item s none m' h p e =
      subst (λ (n : Merging S). All P n.result) (ok-injective e) (All-append P m.result _ h (p, tt))
  All-place m item s (some i) m' h p e = elim (Bool-cases (ltb i (length m.result))) [
    | inl c ↦
        subst (λ (n : Merging S). All P n.result) (ok-injective (rw c at e))
          (All-set P m.result i item h p)
    | inr c ↦ let raised : _ ≡ ok m' = rw c at e in cc raised
  ]

  All-override_item :
      (m : Merging S) (item : Value S) (key : Option (Value S)) (m' : Merging S)
      → All P m.result
      → P item
      → override_item same m item key ≡ ok m'
      → All P m'.result
  All-override_item m item none m' h p e =
      subst (λ (n : Merging S). All P n.result) (ok-injective e) (All-append P m.result _ h (p, tt))
  All-override_item m item (some (scalar s)) m' h p e = All-place m item s _ m' h p e
  All-override_item m item (some (array _)) m' h p e = cc
  All-override_item m item (some (table _)) m' h p e = cc

  All-base_step :
      (key_name : String) (m : Merging S) (item : Value S) (m' : Merging S)
      → All P m.result
      → P item
      → base_step same key_name m item ≡ ok m'
      → All P m'.result
  unfolding base_step
  All-base_step key_name m (table fs) m' h p e = All-base_item m (table fs) _ m' h p e
  All-base_step key_name m _ m' h p e = subst (λ (n : Merging S). All P n.result) (ok-injective e) h

  All-override_step :
      (key_name : String) (m : Merging S) (item : Value S) (m' : Merging S)
      → All P m.result
      → P item
      → override_step same key_name m item ≡ ok m'
      → All P m'.result
  unfolding override_step
  All-override_step key_name m (table fs) m' h p e = All-override_item m (table fs) _ m' h p e
  All-override_step key_name m _ m' h p e =
      subst (λ (n : Merging S). All P n.result) (ok-injective e) (All-append P m.result _ h (p, tt))

  All-merge_by_key :
      (base override : List (Value S)) (key_name : String) {result : List (Value S)}
      → All P base
      → All P override
      → merge_by_key same base override key_name ≡ ok result
      → All P result
  unfolding merge_by_key
  All-merge_by_key base override key_name hb ho e =
      let (m, first, rest) = >>=-eq-ok _ _ e in
      let (m', second, last) = >>=-eq-ok _ _ rest in
      let All-result : Merging S → Type 0 = λ n. All P n.result in
      subst (All P) (ok-injective last) (
        foldl_inv All-result P (override_step same key_name) (All-override_step key_name) override m
          ho
          (foldl_inv All-result P (base_step same key_name) (All-base_step key_name) base
            (start same) hb tt first)
          second)

  All-merge_detected :
      (k : Option String) (base override : List (Value S)) {result : List (Value S)}
      → All P base
      → All P override
      → merge_detected same k base override ≡ ok result
      → All P result
  All-merge_detected none base override hb ho e =
      subst (All P) (ok-injective e) (All-append P base override hb ho)
  All-merge_detected (some key_name) base override hb ho e =
      All-merge_by_key base override key_name hb ho e

  pub All-merge_arrays :
      (base override : List (Value S)) {result : List (Value S)}
      → All P base
      → All P override
      → merge_arrays same base override ≡ ok result
      → All P result
  unfolding merge_arrays
  All-merge_arrays base override hb ho e =
      All-merge_detected (detect_keyed_merge_field (base ++ override)) base override hb ho e

module _ {S : Type 0} (same : S → S → Bool) where
  abbrev value_at : Option (Value S) → Value S → Result (Value S)
  value_at old v = elim old [ none ↦ ok v | some o ↦ deep_merge same o v ]

  mutual
    unfolding deep_merge IsDict

    deep_merge-IsDict_at :
        (base override : Value S) {result : Value S}
        → IsDict base
        → IsDict override
        → deep_merge same base override ≡ ok result
        → IsDict result
    deep_merge-IsDict_at (table bs) (table fs) hb ho e =
        let (rs, merged, last) = >>=-eq-ok (merge_fields same bs fs) (λ r. ok (table r)) e in
        subst IsDict (ok-injective last) (merge_fields-IsDict bs fs hb.0 hb.1 ho.1 merged)
    deep_merge-IsDict_at (array bs) (array os) hb ho e =
        let (rs, merged, last) =
          >>=-eq-ok (merge_arrays same (to_list bs) (to_list os)) (λ r. ok (array (of_list r))) e in
        subst IsDict (ok-injective last) (
          IsDictItems-of_list rs (
            All-merge_arrays same IsDict (to_list bs) (to_list os) (All-to_list bs hb)
              (All-to_list os ho) merged))
    deep_merge-IsDict_at base override hb ho e = subst IsDict (ok-injective e) ho

    merge_fields-IsDict :
        (bs fs : Fields S) {rs : Fields S}
        → NodupKeys bs
        → IsDictFields bs
        → IsDictFields fs
        → merge_fields same bs fs ≡ ok rs
        → NodupKeys rs × IsDictFields rs
    merge_fields-IsDict bs end u hb ho e =
        subst (λ r. NodupKeys r × IsDictFields r) (ok-injective e) (u, hb)
    merge_fields-IsDict bs (field k v fs) u hb ho e =
        let (w, first, rest) =
          >>=-eq-ok (value_at (get k bs) v) (λ w. merge_fields same (put k w bs) fs) e in
        merge_fields-IsDict (put k w bs) fs (put-NodupKeys k w bs u)
          (put-IsDictFields k w bs
            (elim (get k bs) as (λ old. (old ≡ get k bs) → value_at old v ≡ ok w → IsDict w) [
              | none ↦ λ _ f. subst IsDict (ok-injective f) ho.0
              | some o ↦ λ p f. deep_merge-IsDict_at o v (get-IsDict k bs hb (sym p)) ho.0 f
            ]
              refl first)
            hb)
          ho.1 rest

  -- The merge of two values in which every table has each key once, at any depth, is again one,
  -- whenever the merge does not raise.
  deep_merge-IsDict :
      (base override : Value S) {result : Value S}
      → IsDict base
      → IsDict override
      → deep_merge same base override ≡ ok result
      → IsDict result
  deep_merge-IsDict base override hb ho e = deep_merge-IsDict_at base override hb ho e
