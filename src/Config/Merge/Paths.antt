-- ===== src/Config/Merge/Paths.antt =====
-- What `extract_key` finds in a merge: at each dotted path the override decides, and where it
-- says nothing the base does.
use bowerbird.Base.{
  String, Bool, ◌≡◌, refl, sym, Option, none, some, some-injective, List, [], ◌∷◌, inl, inr, ◌⊎◌,
  ok, ok-injective, >>=-eq-ok, subst,
}
use bowerbird.Config.Value.{Value, scalar, array, table, get}
use bowerbird.Config.Merge.{deep_merge, merge_fields, extract}
use bowerbird.Config.Merge.Tables.{MergedAt, get-merge_fields}
use bowerbird.Config.Merge.Shape.{IsDict, get-IsDict}

-- The override says nothing of a path: a table on the way lacks the next key.
abbrev pub IsUntouched : {S : Type 0} → Value S → List String → Type 0
IsUntouched override [] = ⊥
IsUntouched {S} (table fs) (part ∷ parts) =
    (get part fs ≡ none) ⊎ ((v : Value S) × (get part fs ≡ some v) × IsUntouched v parts)
IsUntouched _ (part ∷ parts) = ⊥

-- `extract` under a key that may be absent.
abbrev below : {S : Type 0} → Option (Value S) → List String → Option (Value S)
below o parts = elim o [ none ↦ none | some v ↦ extract v parts ]

module _ {S : Type 0} (same : S → S → Bool) where
  MergedAt-below :
      (parts : List String) (b o r : Option (Value S)) {v : Value S}
      → MergedAt same b o r
      → below o parts ≡ some v
      → ((b' o' r' : Value S)
          → o ≡ some o'
          → deep_merge same b' o' ≡ ok r'
          → extract o' parts ≡ some v
          → MergedAt same (extract b' parts) (some v) (extract r' parts))
      → MergedAt same (below b parts) (some v) (below r parts)
  MergedAt-below parts b none r m x ih = cc
  MergedAt-below parts none (some o) r m x ih = rw m x
  MergedAt-below parts (some b) (some o) r (w, merged, e) x ih = rw e (ih b o w refl merged x)

  -- A path that the override has: the merge has there what `deep_merge` makes of the two values,
  -- and the override's own value where the base has none.
  pub extract-deep_merge :
      (parts : List String) (base override : Value S) {result v : Value S}
      → IsDict override
      → deep_merge same base override ≡ ok result
      → extract override parts ≡ some v
      → MergedAt same (extract base parts) (some v) (extract result parts)
  unfolding extract IsDict deep_merge
  extract-deep_merge [] base override {result} d e x =
      (result, subst (λ o. deep_merge same base o ≡ ok result) (some-injective _ _ x) e, refl)
  extract-deep_merge (p ∷ ps) (table bs) (table fs) {v = v} d e x =
      let (rs, merged, last) = >>=-eq-ok (merge_fields same bs fs) (λ r. ok (table r)) e in
      subst (λ r. MergedAt same (below (get p bs) ps) (some v) (extract r (p ∷ ps)))
        (ok-injective last)
        (MergedAt-below ps (get p bs) (get p fs) (get p rs)
          (get-merge_fields same p bs fs d.0 merged) x
          λ b o r found. extract-deep_merge ps b o (get-IsDict p fs d.1 found))
  extract-deep_merge (p ∷ ps) (scalar s) override d e x = rw (← ok-injective e) x
  extract-deep_merge (p ∷ ps) (array vs) (table fs) d e x = rw (← ok-injective e) x
  extract-deep_merge (p ∷ ps) base override d e x = cc

  MergedAt-untouched :
      (parts : List String) (b o r : Option (Value S))
      → MergedAt same b o r
      → (o ≡ none) ⊎ ((v : Value S) × (o ≡ some v) × IsUntouched v parts)
      → ((b' o' r' : Value S)
          → o ≡ some o'
          → deep_merge same b' o' ≡ ok r'
          → IsUntouched o' parts
          → extract r' parts ≡ extract b' parts)
      → ((o' : Value S) → IsUntouched o' parts → extract o' parts ≡ none)
      → below r parts ≡ below b parts
  MergedAt-untouched parts b none r m u ih lacks = rw m
  MergedAt-untouched parts none (some o) r m (inl e) ih lacks = cc
  MergedAt-untouched parts none (some o) r m (inr (v, e, u)) ih lacks =
      rw m (lacks o (subst (λ w. IsUntouched w parts) (sym (some-injective _ _ e)) u))
  MergedAt-untouched parts (some b) (some o) r m (inl e) ih lacks = cc
  MergedAt-untouched parts (some b) (some o) r (w, merged, e) (inr (v, f, u)) ih lacks =
      rw e (ih b o w refl merged (subst (λ w. IsUntouched w parts) (sym (some-injective _ _ f)) u))

  extract_untouched :
      (parts : List String) (v : Value S) → IsUntouched v parts → extract v parts ≡ none
  unfolding extract
  extract_untouched (p ∷ ps) (table fs) (inl e) = rw (e, extract)
  extract_untouched (p ∷ ps) (table fs) (inr (v, e, u)) = rw (e, extract) (extract_untouched ps v u)
  extract_untouched (p ∷ ps) (scalar s) u = absurd u
  extract_untouched (p ∷ ps) (array vs) u = absurd u
  extract_untouched [] v u = absurd u

  -- A path of which the override says nothing: the merge has there what the base has.
  pub extract-deep_merge_untouched :
      (parts : List String) (base override : Value S) {result : Value S}
      → IsDict override
      → deep_merge same base override ≡ ok result
      → IsUntouched override parts
      → extract result parts ≡ extract base parts
  unfolding extract IsDict deep_merge
  extract-deep_merge_untouched [] base override d e u = absurd u
  extract-deep_merge_untouched (p ∷ ps) (table bs) (table fs) d e u =
      let (rs, merged, last) = >>=-eq-ok (merge_fields same bs fs) (λ r. ok (table r)) e in
      subst (λ r. extract r (p ∷ ps) ≡ below (get p bs) ps) (ok-injective last)
        (MergedAt-untouched ps (get p bs) (get p fs) (get p rs)
          (get-merge_fields same p bs fs d.0 merged) u
          (λ b o r found. extract-deep_merge_untouched ps b o (get-IsDict p fs d.1 found))
          (extract_untouched ps))
  extract-deep_merge_untouched (p ∷ ps) (scalar s) (table fs) d e u =
      rw (← ok-injective e) (extract_untouched (p ∷ ps) (table fs) u)
  extract-deep_merge_untouched (p ∷ ps) (array vs) (table fs) d e u =
      rw (← ok-injective e) (extract_untouched (p ∷ ps) (table fs) u)
  extract-deep_merge_untouched (p ∷ ps) base override d e u = absurd u
