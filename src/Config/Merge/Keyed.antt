-- ===== src/Config/Merge/Keyed.antt =====
-- `_merge_by_key` as a map from keys to items, and when it does not raise.
use bowerbird.Base.{
  ℕ, ◌<◌, String, ◌≡◌, refl, sym, ◌∙◌, subst, Bool, true, Option, none, some, List, [], ◌∷◌, arith,
  if◌then◌else◌, length, or_else, Result, ok, ok-injective, ◌>>=◌, >>=-eq-ok, foldl, set,
}
use bowerbird.Config.Value.{Value, scalar, array, table, get}
use bowerbird.Config.Merge.{
  Merging, push, remember, start, base_item, base_step, assign, place, override_item, override_step,
  merge_by_key, index_get,
}
use bowerbird.Config.Merge.Index.{
  IsKeyEquality, scalar_key, key_of, bears, last_with, last_index, last_with-append,
  last_index-append, last_with-set, last_index-set, last_index-lt, index_get-index_put,
}

module _ {S : Type 0} (same : S → S → Bool) (E : IsKeyEquality same) (key_name : String) where
  -- The dictionary holds the place of the last item with each key.
  abbrev pub Tracks : Merging S → Type 0
  Tracks m = (s : S) → index_get same s m.index_by_key ≡ last_index same key_name s m.result

  -- After a round, the round's item is the last with its key.
  abbrev pub Adds : Merging S → Value S → Merging S → Type 0
  Adds m item m' =
      (s : S)
      → last_with same key_name s m'.result
        ≡ (if bears same key_name s item then some item else last_with same key_name s m.result)

  Adds-push : (m : Merging S) (item : Value S) → Adds m item (push m item)
  Adds-push m item s = last_with-append same key_name s m.result item

  Tracks-push :
      (m : Merging S) (item : Value S)
      → Tracks m
      → key_of key_name item ≡ none
      → Tracks (push m item)
  Tracks-push m item t e s = rw (last_index-append, e) (t s)

  Tracks-remember :
      (m : Merging S) (item : Value S) (k : S)
      → Tracks m
      → key_of key_name item ≡ some k
      → Tracks (push (remember same m k) item)
  Tracks-remember m item k t e s =
      rw
        (last_index-append, e, index_get-index_put same E s k (length m.result) m.index_by_key, t s)

  abbrev pub Round : Merging S → Value S → Merging S → Type 0
  Round m item m' = Tracks m' × Adds m item m'

  base_item-Round :
      (m : Merging S) (item : Value S) (key : Option (Value S)) (m' : Merging S)
      → Tracks m
      → key_of key_name item ≡ scalar_key key
      → base_item same m item key ≡ ok m'
      → Round m item m'
  base_item-Round m item none m' t e h =
      subst (Round m item) (ok-injective h) (Tracks-push m item t e, Adds-push m item)
  base_item-Round m item (some (scalar k)) m' t e h =
      subst (Round m item) (ok-injective h) (Tracks-remember m item k t e, Adds-push m item)
  base_item-Round m item (some (array _)) m' t e h = cc
  base_item-Round m item (some (table _)) m' t e h = cc

  pub base_step-Round :
      (m : Merging S) (item : Value S) (m' : Merging S)
      → Tracks m
      → base_step same key_name m item ≡ ok m'
      → Round m item m'
  unfolding base_step
  base_step-Round m (table fs) m' t h = base_item-Round m (table fs) (get key_name fs) m' t refl h
  base_step-Round m item m' t h = subst (Round m item) (ok-injective h) (t, λ s. refl)

  -- A key that is found is equal to itself.
  index_get_self :
      (k : S) (index : List (S × ℕ)) (i : ℕ) → index_get same k index ≡ some i → same k k ≡ true
  unfolding index_get
  index_get_self k [] i h = cc
  index_get_self k ((u, j) ∷ r) i h =
      ground (arith, index_get_self k r i, E.symm u k, E.trans k u k)

  pub assign_in_range :
      (m : Merging S) (item : Value S) (i : ℕ)
      → i < length m.result
      → (assign m.result i item >>= λ xs. ok (record m { result = xs }))
        ≡ ok (record m { result = set m.result i item })
  assign_in_range m item i l = ground arith

  place-Round :
      (m : Merging S) (item : Value S) (k : S) (at : Option ℕ) (m' : Merging S)
      → Tracks m
      → key_of key_name item ≡ some k
      → index_get same k m.index_by_key ≡ at
      → place same m item k at ≡ ok m'
      → Round m item m'
  place-Round m item k none m' t e a h =
      subst (Round m item) (ok-injective h) (Tracks-remember m item k t e, Adds-push m item)
  place-Round m item k (some i) m' t e a h =
      let found : last_index same key_name k m.result ≡ some i = sym (t k) ∙ a in
      let self : bears same key_name k item ≡ true = rw e (index_get_self k m.index_by_key i a) in
      let done = assign_in_range m item i (last_index-lt same E key_name k i m.result found) in
      subst (Round m item) (ok-injective (sym done ∙ h)) (
        λ s. t s ∙ sym (last_index-set same E key_name s k i item m.result found self),
        λ s. last_with-set same E key_name s k i item m.result found self,
      )

  override_item-Round :
      (m : Merging S) (item : Value S) (key : Option (Value S)) (m' : Merging S)
      → Tracks m
      → key_of key_name item ≡ scalar_key key
      → override_item same m item key ≡ ok m'
      → Round m item m'
  override_item-Round m item none m' t e h =
      subst (Round m item) (ok-injective h) (Tracks-push m item t e, Adds-push m item)
  override_item-Round m item (some (scalar k)) m' t e h = place-Round m item k _ m' t e refl h
  override_item-Round m item (some (array _)) m' t e h = cc
  override_item-Round m item (some (table _)) m' t e h = cc

  pub override_step-Round :
      (m : Merging S) (item : Value S) (m' : Merging S)
      → Tracks m
      → override_step same key_name m item ≡ ok m'
      → Round m item m'
  unfolding override_step
  override_step-Round m (table fs) m' t h =
      override_item-Round m (table fs) (get key_name fs) m' t refl h
  override_step-Round m (scalar v) m' t h =
      subst (Round m (scalar v)) (ok-injective h)
        (Tracks-push m (scalar v) t refl, Adds-push m (scalar v))
  override_step-Round m (array vs) m' t h =
      subst (Round m (array vs)) (ok-injective h)
        (Tracks-push m (array vs) t refl, Adds-push m (array vs))

  -- A loop of such rounds.
  pub rounds :
      (step : Merging S → Value S → Result (Merging S))
      → ((m : Merging S) (item : Value S) (m' : Merging S)
          → Tracks m
          → step m item ≡ ok m'
          → Round m item m')
      → (xs : List (Value S)) (m : Merging S) {r : Merging S} → Tracks m
      → foldl step m xs ≡ ok r
      → Tracks r
        × ((s : S)
            → last_with same key_name s r.result
              ≡ or_else (last_with same key_name s xs) (last_with same key_name s m.result))
  rounds step round [] m t h =
      subst
        (λ (r : Merging S).
          Tracks r
          × ((s : S) → last_with same key_name s r.result ≡ last_with same key_name s m.result))
        (ok-injective h) (t, λ s. refl)
  rounds step round (x ∷ xs) m t h =
      let (m1, first, rest) = >>=-eq-ok (step m x) (λ n. foldl step n xs) h in
      let (t1, adds) = round m x m1 t first in
      let (tr, found) = rounds step round xs m1 t1 rest in
      (tr, λ s. ground (arith, found s, adds s))

  -- When `_merge_by_key` returns, the last item with a key is the override's last item with it,
  -- or the base's where the override has none.
  pub last_with-merge_by_key :
      (base override : List (Value S)) {result : List (Value S)} (s : S)
      → merge_by_key same base override key_name ≡ ok result
      → last_with same key_name s result
        ≡ or_else (last_with same key_name s override) (last_with same key_name s base)
  unfolding merge_by_key index_get
  last_with-merge_by_key base override s h =
      let (m, first, rest) = >>=-eq-ok _ _ h in
      let (m', second, last) = >>=-eq-ok _ _ rest in
      let (t, in_base) =
        rounds (base_step same key_name) base_step-Round base (start same) (λ _. refl) first in
      let (_, in_both) =
        rounds (override_step same key_name) override_step-Round override m t second in
      subst
        (λ r.
          last_with same key_name s r
          ≡ or_else (last_with same key_name s override) (last_with same key_name s base))
        (ok-injective last) (ground (arith, in_both s, in_base s))
