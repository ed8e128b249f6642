-- ===== src/Automator/StoryKeys/Digits.antt =====
-- Two numbers with a separator between them, read and rewritten.
use bowerbird.Base.{
  ℕ, Bool, true, false, not, ◌&&◌, ◌==◌, ==_iff, ◌≡◌, refl, sym, ap, subst, ◌∙◌, inl, inr, Option,
  none, some, [], ◌∷◌, ◌++◌, every, if◌then◌else◌, Bool-cases, if-then, Option-cases, arith,
}
use bowerbird.Base.Text.{Text, drop_while, take_while}
use bowerbird.Automator.StoryKeys.{
  is_empty, replace, behind_digits, number_before, is_number, two_numbers, both_numbers, with_name,
  number_and_name, numbers_of_key,
}

take-drop : (test : ℕ → Bool) (s : Text) → take_while test s ++ drop_while test s ≡ s
unfolding take_while drop_while
take-drop test [] = refl
take-drop test (c ∷ s) = ground (arith, take-drop test s)

every-take_while : (test : ℕ → Bool) (s : Text) → every test (take_while test s) ≡ true
unfolding take_while
every-take_while test [] = refl
every-take_while test (c ∷ s) = ground (arith, every-take_while test s)

module _ (is_digit : ℕ → Bool) where
  -- The separators are no digits.
  abbrev pub IsSeparated : Type 0
  IsSeparated = (is_digit 46 ≡ false) × (is_digit 45 ≡ false)

  abbrev pub IsNumber : Text → Type 0
  IsNumber s = is_number is_digit s ≡ true

  take_while-number :
      (a t : Text) (c : ℕ)
      → every is_digit a ≡ true
      → is_digit c ≡ false
      → take_while is_digit (a ++ (c ∷ t)) ≡ a
  unfolding take_while
  take_while-number [] t c h k = rw k
  take_while-number (d ∷ a) t c h k = ground (arith, h, k, take_while-number a t c)

  drop_while-number :
      (a t : Text) (c : ℕ)
      → every is_digit a ≡ true
      → is_digit c ≡ false
      → drop_while is_digit (a ++ (c ∷ t)) ≡ c ∷ t
  unfolding drop_while
  drop_while-number [] t c h k = rw k
  drop_while-number (d ∷ a) t c h k = ground (arith, h, k, drop_while-number a t c)

  pub number_before-joined :
      (separator c : ℕ) (a t : Text)
      → IsNumber a
      → is_digit c ≡ false
      → number_before is_digit separator (a ++ (c ∷ t))
        ≡ (if c == separator then some (a, t) else none)
  unfolding number_before
  number_before-joined separator c a t h k =
      rw (take_while-number a t c (ground (arith, h)) k)
        (rw (drop_while-number a t c (ground (arith, h)) k) (ground (arith, h)))

  behind_digits-some :
      (separator : ℕ) (number rest a t : Text)
      → behind_digits is_digit separator number rest ≡ some (a, t)
      → (not (is_empty number) ≡ true) × (number ≡ a) × (rest ≡ separator ∷ t)
  behind_digits-some separator number [] a t h = cc
  behind_digits-some separator number (c ∷ s) a t h =
      elim (Bool-cases (c == separator && not (is_empty number))) [
        | inl both ↦
            let same : ◌≡◌ {A = Option (Text × Text)} (some (number, s)) (some (a, t)) = cc in
            let here : c ≡ separator = (==_iff c separator).0 (ground (arith, both)) in
            (ground (arith, both), cc, cc)
        | inr other ↦ cc
      ]

  pub number_before-some :
      (separator : ℕ) (s a t : Text)
      → number_before is_digit separator s ≡ some (a, t)
      → IsNumber a × (s ≡ a ++ (separator ∷ t))
  unfolding number_before
  number_before-some separator s a t h =
      let (set, same, rest) =
        behind_digits-some separator (take_while is_digit s) (drop_while is_digit s) a t h in
      let is : IsNumber (take_while is_digit s) =
        ground (arith, set, every-take_while is_digit s) in
      (
        subst IsNumber same is,
        sym (take-drop is_digit s)
            ∙ ap (λ x. x ++ drop_while is_digit s) same
            ∙ ap (λ x. a ++ x) rest,
      )

  pub two_numbers-joined :
      (separator c : ℕ) (a b : Text)
      → IsNumber a
      → IsNumber b
      → is_digit c ≡ false
      → two_numbers is_digit separator (a ++ (c ∷ b))
        ≡ (if c == separator then some (a, b) else none)
  unfolding two_numbers
  two_numbers-joined separator c a b h k e =
      ap (both_numbers is_digit) (number_before-joined separator c a b h e)
      ∙ elim (Bool-cases (c == separator)) [
        | inl same ↦ rw same (if-then _ _ k)
        | inr other ↦ rw other
      ]

  passed-both :
      (first rest a b : Text)
      → both_numbers is_digit (some (first, rest)) ≡ some (a, b)
      → IsNumber rest × (first ≡ a) × (rest ≡ b)
  passed-both first rest a b h = elim (Bool-cases (is_number is_digit rest)) [
    | inl is ↦
        let same : ◌≡◌ {A = Option (Text × Text)} (some (first, rest)) (some (a, b)) = cc in
        (is, cc, cc)
    | inr other ↦ cc
  ]

  pub two_numbers-some :
      (separator : ℕ) (s a b : Text)
      → two_numbers is_digit separator s ≡ some (a, b)
      → IsNumber a × IsNumber b × (s ≡ a ++ (separator ∷ b))
  unfolding two_numbers
  two_numbers-some separator s a b h = elim (Option-cases (number_before is_digit separator s)) [
    | inl missing ↦ cc
    | inr ((first, rest), found) ↦
        let passed : both_numbers is_digit (some (first, rest)) ≡ some (a, b) =
          sym (ap (both_numbers is_digit) found) ∙ h in
        let (is_first, whole) = number_before-some separator s first rest found in
        let (is_rest, same_first, same_rest) = passed-both first rest a b passed in
        (
          subst IsNumber same_first is_first,
          subst IsNumber same_rest is_rest,
          whole
              ∙ ap (λ x. x ++ (separator ∷ rest)) same_first
              ∙ ap (λ x. a ++ (separator ∷ x)) same_rest,
        )
  ]

  -- A digit is not a separator.
  not-same : (e c : ℕ) → is_digit e ≡ true → is_digit c ≡ false → (e == c) ≡ false
  not-same e c h k = elim (Bool-cases (e == c)) [
    | inl same ↦ let here : e ≡ c = (==_iff e c).0 same in cc
    | inr other ↦ other
  ]

  pub replace-number :
      (c d : ℕ) (s : Text) → every is_digit s ≡ true → is_digit c ≡ false → replace c d s ≡ s
  unfolding replace
  replace-number c d [] h k = refl
  replace-number c d (e ∷ s) h k =
      let other : (e == c) ≡ false = not-same e c (ground (arith, h)) k in
      rw other (ap (λ t. e ∷ t) (replace-number c d s (ground (arith, h)) k))

  pub replace-at :
      (c d : ℕ) (a b : Text)
      → every is_digit a ≡ true
      → every is_digit b ≡ true
      → is_digit c ≡ false
      → replace c d (a ++ (c ∷ b)) ≡ a ++ (d ∷ b)
  unfolding replace
  replace-at c d [] b h k e =
      let same : (c == c) ≡ true = (==_iff c c).1 refl in
      rw same (ap (λ t. d ∷ t) (replace-number c d b k e))
  replace-at c d (f ∷ a) b h k e =
      rw (not-same f c (ground (arith, h)) e)
        (ap (λ t. f ∷ t) (replace-at c d a b (ground (arith, h)) k e))

  pub replace-joined :
      (c d : ℕ) (a b : Text)
      → IsNumber a
      → IsNumber b
      → is_digit c ≡ false
      → replace c d (a ++ (c ∷ b)) ≡ a ++ (d ∷ b)
  replace-joined c d a b h k e = replace-at c d a b (ground (arith, h)) (ground (arith, k)) e

  named-both :
      (first second name a b : Text)
      → with_name is_digit first (some (second, name)) ≡ some (a, b)
      → (first ≡ a) × (second ≡ b)
  named-both first second name a b h =
      elim (Bool-cases (not (is_empty name) && every (λ c. not (c == 10)) name)) [
        | inl is ↦
            let same : ◌≡◌ {A = Option (Text × Text)} (some (first, second)) (some (a, b)) = cc in
            (cc, cc)
        | inr other ↦ cc
      ]

  pub numbers_of_key-some :
      (s a b : Text) → numbers_of_key is_digit s ≡ some (a, b) → IsNumber a × IsNumber b
  unfolding numbers_of_key
  numbers_of_key-some s a b h = elim (Option-cases (number_before is_digit 45 s)) [
    | inl missing ↦ cc
    | inr ((first, rest), found) ↦
        let (is_first, _) = number_before-some 45 s first rest found in
        let tail : with_name is_digit first (number_before is_digit 45 rest) ≡ some (a, b) =
          sym (ap (number_and_name is_digit) found) ∙ h in
        elim (Option-cases (number_before is_digit 45 rest)) [
          | inl missing ↦ cc
          | inr ((second, name), found') ↦
              let (is_second, _) = number_before-some 45 rest second name found' in
              let (same, same') =
                named-both first second name a b
                  (sym (ap (with_name is_digit first) found') ∙ tail) in
              (subst IsNumber same is_first, subst IsNumber same' is_second)
        ]
  ]
