-- ===== src/Automator/Verify/Keys.antt =====
-- What the keys of a merged review contract hold.
use bowerbird.Base.{
  String, str_eq, eq_iff, Bool, true, false, ◌||◌, ◌≡◌, refl, sym, ap, subst, ◌∙◌, inl, inr, Option,
  none, some, or_else, List, [], ◌∷◌, if◌then◌else◌, Bool-cases, if-then, arith,
}
use bowerbird.Config.Value.{end, field, get, put, get-put}
use bowerbird.Automator.Json.{Json, Object}
use bowerbird.Automator.Policy.{is_among}
use bowerbird.Automator.Policy.Merge.Pointwise.{IsUnique}
use bowerbird.Automator.Verify.{
  allowed_review_contract_keys, update_with, picked, pick_keys, config_of, inline_review_contract,
}

module _ {R : Type 0} where
  IsUnique-put : (key : String) (v : Json R) (d : Object R) → IsUnique d → IsUnique (put key v d)
  unfolding put get
  IsUnique-put key v end h = (refl, tt)
  IsUnique-put key v (field j w d) (h, u) = elim (Bool-cases (str_eq j key)) [
    | inl same ↦
        subst (λ b. IsUnique (if b then field j v d else field j w (put key v d))) (sym same) (h, u)
    | inr other ↦
        let absent : get j (put key v d) ≡ none =
          ground (arith, get-put j key v d, eq_iff j key, eq_iff key j, h) in
        subst (λ b. IsUnique (if b then field j v d else field j w (put key v d))) (sym other)
          (absent, IsUnique-put key v d u)
  ]

  pub get-update_with :
      (d merged : Object R) (key : String)
      → IsUnique d
      → get key (update_with d merged) ≡ or_else (get key d) (get key merged)
  unfolding update_with get
  get-update_with end merged key u = refl
  get-update_with (field j v d) merged key (h, u) =
      get-update_with d (put j v merged) key u
      ∙ (let gone : str_eq j key ≡ true → get key d ≡ none =
            λ same. ap (λ k. get k d) (sym ((eq_iff j key).0 same)) ∙ h in
          ground (arith, get-put key j v merged, gone))

  get-picked :
      (k key : String) (o : Option (Json R)) (inline : Object R)
      → get key (picked k o inline)
        ≡ (if str_eq k key then or_else o (get key inline) else get key inline)
  get-picked k key none inline = ground arith
  get-picked k key (some v) inline = get-put key k v inline

  pick-again :
      (b m : Bool) (o a y : Option (Json R))
      → (b ≡ true → o ≡ a)
      → (if m then or_else a (if b then or_else o y else y) else if b then or_else o y else y)
        ≡ (if b || m then or_else a y else y)
  pick-again true true o none y h = rw (h refl)
  pick-again true true o (some v) y h = refl
  pick-again true false o a y h = rw (h refl)
  pick-again false true o a y h = refl
  pick-again false false o a y h = refl

  get-pick_keys :
      (keys : List String) (d inline : Object R) (key : String)
      → get key (pick_keys keys d inline)
        ≡ (if is_among keys key then or_else (get key d) (get key inline) else get key inline)
  unfolding pick_keys
  get-pick_keys [] d inline key = refl
  get-pick_keys (k ∷ keys) d inline key =
      get-pick_keys keys d (picked k (get k d) inline) key
      ∙ ap (λ x. if is_among keys key then or_else (get key d) x else x)
          (get-picked k key (get k d) inline)
      ∙ pick-again (str_eq k key) (is_among keys key) (get k d) (get key d) (get key inline)
          (λ same. ap (λ j. get j d) ((eq_iff k key).0 same))

  IsUnique-picked :
      (k : String) (o : Option (Json R)) (inline : Object R)
      → IsUnique inline
      → IsUnique (picked k o inline)
  IsUnique-picked k none inline u = u
  IsUnique-picked k (some v) inline u = IsUnique-put k v inline u

  IsUnique-pick_keys :
      (keys : List String) (d inline : Object R)
      → IsUnique inline
      → IsUnique (pick_keys keys d inline)
  unfolding pick_keys
  IsUnique-pick_keys [] d inline u = u
  IsUnique-pick_keys (k ∷ keys) d inline u =
      IsUnique-pick_keys keys d (picked k (get k d) inline) (IsUnique-picked k (get k d) inline u)

  -- What a key of the contract holds: the contract's own value, or the one in its configuration, or
  -- the one below both.
  abbrev pub layered : Object R → Object R → String → Option (Json R)
  layered contract base key =
      or_else (get key contract)
        (or_else (get key (config_of (get "config" contract))) (get key base))

  or_else_assoc : (a b c : Option (Json R)) → or_else (or_else a b) c ≡ or_else a (or_else b c)
  or_else_assoc none b c = refl
  or_else_assoc (some v) b c = refl

  or_else-none : (a : Option (Json R)) → or_else a none ≡ a
  or_else-none none = refl
  or_else-none (some v) = refl

  inline-IsUnique : (contract : Object R) → IsUnique (inline_review_contract contract)
  unfolding inline_review_contract
  inline-IsUnique contract =
      let keys = allowed_review_contract_keys in
      IsUnique-pick_keys keys contract _
        (IsUnique-pick_keys keys (config_of (get "config" contract)) end tt)

  get-inline :
      (contract : Object R) (key : String)
      → is_among allowed_review_contract_keys key ≡ true
      → get key (inline_review_contract contract)
        ≡ or_else (get key contract) (get key (config_of (get "config" contract)))
  unfolding inline_review_contract get
  get-inline contract key h =
      let keys = allowed_review_contract_keys in
      let config = config_of (get "config" contract) in
      get-pick_keys keys contract (pick_keys keys config end) key
      ∙ if-then _ _ h
      ∙ ap (or_else (get key contract))
          (get-pick_keys keys config end key ∙ if-then _ _ h ∙ or_else-none (get key config))

  pub get-layered :
      (contract base : Object R) (key : String)
      → is_among allowed_review_contract_keys key ≡ true
      → get key (update_with (inline_review_contract contract) base) ≡ layered contract base key
  get-layered contract base key h =
      get-update_with (inline_review_contract contract) base key (inline-IsUnique contract)
      ∙ ap (λ o. or_else o (get key base)) (get-inline contract key h)
      ∙ or_else_assoc (get key contract) _ (get key base)
