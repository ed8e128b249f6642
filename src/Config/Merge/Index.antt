-- ===== src/Config/Merge/Index.antt =====
-- The dictionary `index_by_key` of `_merge_by_key`, and the last item that bears a key.
use bowerbird.Base.{
  ℕ, zero, suc, ◌<◌, String, ◌≡◌, refl, Bool, true, false, Option, none, some, List, [], ◌∷◌, ◌++◌,
  arith, if◌then◌else◌, length, set, or_else, Bool-cases, inl, inr,
}
use bowerbird.Config.Value.{Value, scalar, table, get}
use bowerbird.Config.Merge.{index_get, index_put}

-- What a `dict` relies on in the equality of its keys. A NaN is not equal to itself.
pub record IsKeyEquality {S : Type 0} (same : S → S → Bool) : Type 0 where
  pub symm : (a b : S) → same a b ≡ same b a
  pub trans : (a b c : S) → same a b ≡ true → same b c ≡ same a c

module _ {S : Type 0} where
  -- The scalar under `key_name`, of an item that is a table.
  abbrev pub scalar_key : Option (Value S) → Option S
  scalar_key (some (scalar s)) = some s
  scalar_key _ = none

  abbrev pub key_of : String → Value S → Option S
  key_of key_name (table fs) = scalar_key (get key_name fs)
  key_of key_name _ = none

module _ {S : Type 0} (same : S → S → Bool) where
  abbrev pub key_is : S → Option S → Bool
  key_is s none = false
  key_is s (some k) = same k s

  abbrev pub bears : String → S → Value S → Bool
  bears key_name s item = key_is s (key_of key_name item)

  -- The last of the items that bear the key `s`, and where it stands.
  abbrev pub last_with : String → S → List (Value S) → Option (Value S)
  last_with key_name s [] = none
  last_with key_name s (x ∷ xs) =
      or_else (last_with key_name s xs) (if bears key_name s x then some x else none)

  abbrev shifted : Option ℕ → Bool → Option ℕ
  shifted (some i) here = some (suc i)
  shifted none true = some zero
  shifted none false = none

  abbrev pub last_index : String → S → List (Value S) → Option ℕ
  last_index key_name s [] = none
  last_index key_name s (x ∷ xs) = shifted (last_index key_name s xs) (bears key_name s x)

module _ {S : Type 0} (same : S → S → Bool) (E : IsKeyEquality same) where
  pub index_get-index_put :
      (s t : S) (n : ℕ) (index : List (S × ℕ))
      → index_get same s (index_put same t n index)
        ≡ (if same t s then some n else index_get same s index)
  unfolding index_get index_put
  index_get-index_put s t n [] = refl
  index_get-index_put s t n ((u, i) ∷ r) =
      ground (arith, index_get-index_put s t n r, E.trans u t s, E.trans u s t, E.symm s t)

module _ {S : Type 0} (same : S → S → Bool) (key_name : String) (s : S) where
  pub last_with-append :
      (xs : List (Value S)) (x : Value S)
      → last_with same key_name s (xs ++ (x ∷ []))
        ≡ (if bears same key_name s x then some x else last_with same key_name s xs)
  last_with-append [] x = refl
  last_with-append (y ∷ xs) x =
      rw (last_with-append xs x)
        (elim (Bool-cases (bears same key_name s x)) [ inl e ↦ rw e | inr e ↦ rw e ])

  pub last_index-append :
      (xs : List (Value S)) (x : Value S)
      → last_index same key_name s (xs ++ (x ∷ []))
        ≡ (if bears same key_name s x then some (length xs) else last_index same key_name s xs)
  last_index-append [] x = elim (Bool-cases (bears same key_name s x)) [
    | inl e ↦ rw e
    | inr e ↦ rw e
  ]
  last_index-append (y ∷ xs) x =
      rw (last_index-append xs x)
        (elim (Bool-cases (bears same key_name s x)) [ inl e ↦ rw e | inr e ↦ rw e ])

module _ {S : Type 0} (same : S → S → Bool) (E : IsKeyEquality same) where
  -- Two items that bear one key bear the same keys.
  key_is_agree :
      (t s : S) (j k : Option S)
      → key_is same t j ≡ true
      → key_is same t k ≡ true
      → key_is same s j ≡ key_is same s k
  key_is_agree t s none k hj hk = cc
  key_is_agree t s (some a) none hj hk = cc
  key_is_agree t s (some a) (some b) hj hk =
      ground (arith, E.trans a t b, E.trans a b s, E.symm t b)

  -- Two keys that one item bears are borne by the same items.
  key_is_agree_keys :
      (t s : S) (j k : Option S)
      → key_is same t j ≡ true
      → key_is same s j ≡ true
      → key_is same s k ≡ key_is same t k
  key_is_agree_keys t s none k ht hs = cc
  key_is_agree_keys t s (some a) none ht hs = refl
  key_is_agree_keys t s (some a) (some b) ht hs =
      ground
        (arith, E.symm a s, E.symm a t, E.trans s a t, E.trans t a s, E.trans b s t, E.trans b t s)

  last_with_agree :
      (key_name : String) (t s : S) (j : Option S) (xs : List (Value S))
      → key_is same t j ≡ true
      → key_is same s j ≡ true
      → last_with same key_name s xs ≡ last_with same key_name t xs
  last_with_agree key_name t s j [] ht hs = refl
  last_with_agree key_name t s j (x ∷ xs) ht hs =
      rw
        (last_with_agree key_name t s j xs ht hs, key_is_agree_keys t s j (key_of key_name x) ht hs)

  last_with_of_no_index :
      (key_name : String) (t : S) (xs : List (Value S))
      → last_index same key_name t xs ≡ none
      → last_with same key_name t xs ≡ none
  last_with_of_no_index key_name t [] h = refl
  last_with_of_no_index key_name t (x ∷ xs) h = ground (arith, last_with_of_no_index key_name t xs)

  -- An item replaced at the last place that bears `t` by one that bears a key equal to `t`.
  pub last_with-set :
      (key_name : String) (s t : S) (i : ℕ) (x : Value S) (xs : List (Value S))
      → last_index same key_name t xs ≡ some i
      → bears same key_name t x ≡ true
      → last_with same key_name s (set xs i x)
        ≡ (if bears same key_name s x then some x else last_with same key_name s xs)
  last_with-set key_name s t i x [] h b = cc
  last_with-set key_name s t zero x (y ∷ xs) h b = ground (
    arith,
    key_is_agree t s (key_of key_name x) (key_of key_name y) b,
    last_with_agree key_name t s (key_of key_name x) xs b,
    last_with_of_no_index key_name t xs,
  )
  last_with-set key_name s t (suc i) x (y ∷ xs) h b =
      ground (arith, last_with-set key_name s t i x xs)

  pub last_index-set :
      (key_name : String) (s t : S) (i : ℕ) (x : Value S) (xs : List (Value S))
      → last_index same key_name t xs ≡ some i
      → bears same key_name t x ≡ true
      → last_index same key_name s (set xs i x) ≡ last_index same key_name s xs
  last_index-set key_name s t i x [] h b = cc
  last_index-set key_name s t zero x (y ∷ xs) h b =
      ground (arith, key_is_agree t s (key_of key_name x) (key_of key_name y) b)
  last_index-set key_name s t (suc i) x (y ∷ xs) h b =
      ground (arith, last_index-set key_name s t i x xs)

  -- The place that the index names lies in the list.
  pub last_index-lt :
      (key_name : String) (t : S) (i : ℕ) (xs : List (Value S))
      → last_index same key_name t xs ≡ some i
      → i < length xs
  last_index-lt key_name t i [] h = cc
  last_index-lt key_name t zero (x ∷ xs) h = omega arith
  last_index-lt key_name t (suc i) (x ∷ xs) h = ground (arith, last_index-lt key_name t i xs)
