-- ===== src/Config/Merge/Places.antt =====
-- `_merge_by_key` replaces an item of the base where it stands.
use bowerbird.Base.{
  ℕ, String, ◌≡◌, refl, sym, ap, ◌∙◌, subst, Bool, true, Option, none, some, List, [], ◌∷◌, ◌++◌,
  append-nil, append_assoc, arith, length, or_else, Bool-cases, inl, inr, ok, ok-injective,
  >>=-eq-ok, foldl,
}
use bowerbird.Config.Value.{Value, scalar, array, table, get}
use bowerbird.Config.Merge.{
  Merging, start, base_item, base_step, place, override_item, override_step, merge_by_key,
  index_get,
}
use bowerbird.Config.Merge.Index.{
  IsKeyEquality, last_with, last_index, last_index-lt, index_get-index_put,
}
use bowerbird.Config.Merge.Keyed.{
  Tracks, base_step-Round, override_step-Round, assign_in_range, rounds, last_with-merge_by_key,
}

-- The items that are tables; the loop over the base leaves out the others.
abbrev pub only_tables : {S : Type 0} → List (Value S) → List (Value S)
only_tables [] = []
only_tables (table fs ∷ xs) = table fs ∷ only_tables xs
only_tables (_ ∷ xs) = only_tables xs

module _ {S : Type 0} (same : S → S → Bool) (E : IsKeyEquality same) (key_name : String) where
  base_item-push :
      (m : Merging S) (item : Value S) (key : Option (Value S)) (m' : Merging S)
      → base_item same m item key ≡ ok m'
      → m'.result ≡ m.result ++ (item ∷ [])
  base_item-push m item none m' h = ap (λ r. r.result) (sym (ok-injective h))
  base_item-push m item (some (scalar k)) m' h = ap (λ r. r.result) (sym (ok-injective h))
  base_item-push m item (some (array _)) m' h = cc
  base_item-push m item (some (table _)) m' h = cc

  -- The loop over the base appends its tables.
  base_loop :
      (xs : List (Value S)) (m m' : Merging S)
      → foldl (base_step same key_name) m xs ≡ ok m'
      → m'.result ≡ m.result ++ only_tables xs
  unfolding base_step
  base_loop [] m m' h = ap (λ r. r.result) (sym (ok-injective h)) ∙ sym (append-nil m.result)
  base_loop (table fs ∷ xs) m m' h =
      let (m1, first, rest) =
        >>=-eq-ok (base_step same key_name m (table fs)) (λ n. foldl (base_step same key_name) n xs)
          h in
      base_loop xs m1 m' rest
      ∙ (ap (λ r. r ++ only_tables xs) (base_item-push m (table fs) (get key_name fs) m1 first)
          ∙ append_assoc m.result (table fs ∷ []) (only_tables xs))
  base_loop (scalar v ∷ xs) m m' h = base_loop xs m m' h
  base_loop (array vs ∷ xs) m m' h = base_loop xs m m' h

  index_get_agree :
      (k s : S) (index : List (S × ℕ))
      → same k s ≡ true
      → index_get same k index ≡ index_get same s index
  unfolding index_get
  index_get_agree k s [] h = refl
  index_get_agree k s ((u, j) ∷ r) h =
      ground (arith, h, E.trans k s u, E.symm k u, E.symm s u, index_get_agree k s r h)

  -- The dictionary keeps the place of each key that it has.
  abbrev Keeps : Merging S → Merging S → Type 0
  Keeps m m' =
      (s : S) (i : ℕ)
      → index_get same s m.index_by_key ≡ some i
      → index_get same s m'.index_by_key ≡ some i

  place-Keeps :
      (m : Merging S) (item : Value S) (k : S) (at : Option ℕ) (m' : Merging S)
      → Tracks same E key_name m
      → index_get same k m.index_by_key ≡ at
      → place same m item k at ≡ ok m'
      → Keeps m m'
  place-Keeps m item k none m' t a h = subst (Keeps m) (ok-injective h) (λ s i found.
      index_get-index_put same E s k (length m.result) m.index_by_key
      ∙ elim (Bool-cases (same k s)) [
        | inl agree ↦
            let known : none ≡ some i =
              sym a ∙ (index_get_agree k s m.index_by_key agree ∙ found) in
            cc
        | inr differ ↦ rw differ found
      ])
  place-Keeps m item k (some i) m' t a h =
      let found : last_index same key_name k m.result ≡ some i = sym (t k) ∙ a in
      let done =
        assign_in_range same E key_name m item i
          (last_index-lt same E key_name k i m.result found) in
      subst (Keeps m) (ok-injective (sym done ∙ h)) (λ s j known. known)

  override_step-Keeps :
      (m : Merging S) (item : Value S) (m' : Merging S)
      → Tracks same E key_name m
      → override_step same key_name m item ≡ ok m'
      → Keeps m m'
  unfolding override_step
  override_step-Keeps m (scalar v) m' t h = subst (Keeps m) (ok-injective h) (λ s i known. known)
  override_step-Keeps m (array vs) m' t h = subst (Keeps m) (ok-injective h) (λ s i known. known)
  override_step-Keeps m (table fs) m' t h = at_key (get key_name fs) h
    where
      at_key : (key : Option (Value S)) → override_item same m (table fs) key ≡ ok m' → Keeps m m'
      at_key none e = subst (Keeps m) (ok-injective e) (λ s i known. known)
      at_key (some (scalar k)) e = place-Keeps m (table fs) k _ m' t refl e
      at_key (some (array _)) e = cc
      at_key (some (table _)) e = cc

  override_loop :
      (xs : List (Value S)) (m m' : Merging S)
      → Tracks same E key_name m
      → foldl (override_step same key_name) m xs ≡ ok m'
      → Keeps m m'
  override_loop [] m m' t h = subst (Keeps m) (ok-injective h) (λ s i known. known)
  override_loop (x ∷ xs) m m' t h =
      let (m1, first, rest) =
        >>=-eq-ok (override_step same key_name m x) (λ n. foldl (override_step same key_name) n xs)
          h in
      let later =
        override_loop xs m1 m' (override_step-Round same E key_name m x m1 t first).0 rest in
      λ s i known. later s i (override_step-Keeps m x m1 t first s i known)

  same_place :
      (base : Option ℕ) (result : Option ℕ)
      → ((i : ℕ) → base ≡ some i → result ≡ some i)
      → result ≡ or_else base result
  same_place none result h = refl
  same_place (some i) result h = h i refl

  -- When `_merge_by_key` returns, the last item with a key is the override's last item with it, or
  -- the base's where the override has none; and where a table of the base has the key, it stands
  -- where the last of these stands among the base's tables, so that it has replaced that one.
  pub merge_by_key_lem :
      (base override result : List (Value S)) (s : S)
      → merge_by_key same base override key_name ≡ ok result
      → (last_with same key_name s result
          ≡ or_else (last_with same key_name s override) (last_with same key_name s base))
        × (last_index same key_name s result
            ≡ or_else
                (last_index same key_name s (only_tables base))
                (last_index same key_name s result))
  unfolding merge_by_key index_get
  merge_by_key_lem base override result s h =
      let (m, first, rest) = >>=-eq-ok _ _ h in
      let (m', second, last) = >>=-eq-ok _ _ rest in
      let (t, _) =
        rounds same E key_name (base_step same key_name) (base_step-Round same E key_name) base
          (start same) (λ _. refl) first in
      let (t', _) =
        rounds same E key_name (override_step same key_name) (override_step-Round same E key_name)
          override m t second in
      let whole : m'.result ≡ result = ok-injective last in
      let tables : m.result ≡ only_tables base = base_loop base (start same) m first in
      (
        last_with-merge_by_key same E key_name base override s h,
        same_place _ _ (λ i there.
            ap (last_index same key_name s) (sym whole)
            ∙ (sym (t' s)
                ∙ override_loop override m m' t second s i
                    (t s ∙ (ap (last_index same key_name s) tables ∙ there)))),
      )
