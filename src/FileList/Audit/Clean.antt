-- ===== src/FileList/Audit/Clean.antt =====
-- When the audit reports a clean File List.
use bowerbird.Base.{
  Bool, true, false, not, ◌&&◌, ◌||◌, ◌≡◌, refl, sym, ◌∙◌, ◌↔◌, ◌⊎◌, inl, inr, is_some, List, [],
  ◌∷◌, ◌++◌, arith, exists, All, if◌then◌else◌, Bool-cases, ◌==◌,
}
use bowerbird.Base.Text.{Text, text_eq, text_eq_iff, after_prefix}
use bowerbird.FileList.Changes.{Label, Changes, Note}
use bowerbird.FileList.Audit.{
  starts, is_dir, keep, is_declared, is_satisfied, insert, sorted, text_lt, is_empty, compare_sides,
}

-- An entry of the File List stands for a path: its own, or any below it if it ends in a slash.
abbrev pub Covers : Text → Text → Type 0
Covers entry path =
    (entry ≡ path) ⊎ ((is_dir entry ≡ true) × ((rest : Text) × (path ≡ entry ++ rest)))

-- One of the listed has the property.
abbrev pub AnyOf {ℓ} : {A : Type ℓ} → (A → Type 0) → List A → Type 0
AnyOf P [] = ⊥
AnyOf P (x ∷ xs) = P x ⊎ AnyOf P xs

after_prefix-some :
    (t s : Text) → is_some (after_prefix t s) ≡ true → (rest : Text) × (s ≡ t ++ rest)
unfolding after_prefix
after_prefix-some [] s h = (s, refl)
after_prefix-some (c ∷ t) [] h = cc
after_prefix-some (c ∷ t) (d ∷ s) h = elim (Bool-cases (c == d)) [
  | inl e ↦ let found = after_prefix-some t s (ground arith) in (found.0, ground (arith, found.1))
  | inr e ↦ ground arith
]

starts-append : (t rest : Text) → starts (t ++ rest) t ≡ true
unfolding after_prefix
starts-append [] rest = refl
starts-append (c ∷ t) rest = ground (arith, starts-append t rest)

starts_self : (t : Text) → starts t t ≡ true
unfolding after_prefix
starts_self [] = refl
starts_self (c ∷ t) = ground (arith, starts_self t)

abbrev covers : Text → Text → Bool
covers entry path = text_eq entry path || (is_dir entry && starts path entry)

covers-Covers : (entry path : Text) → covers entry path ≡ true → Covers entry path
covers-Covers entry path h = elim (Bool-cases (text_eq entry path)) [
  | inl e ↦ inl ((text_eq_iff entry path).0 e)
  | inr e ↦ inr (ground arith, after_prefix-some entry path (ground arith))
]

Covers-covers : (entry path : Text) → Covers entry path → covers entry path ≡ true
Covers-covers entry path (inl e) = rw ((text_eq_iff entry path).1 e) refl
Covers-covers entry path (inr (dir, (rest, e))) =
    rw e (ground (arith, dir, starts-append entry rest))

module _ {ℓ} {A : Type ℓ} (test : A → Bool) (P : A → Type 0) where
  exists-AnyOf :
      ((x : A) → test x ≡ true → P x) → (xs : List A) → exists test xs ≡ true → AnyOf P xs
  exists-AnyOf f [] h = cc
  exists-AnyOf f (x ∷ xs) h = elim (Bool-cases (test x)) [
    | inl e ↦ inl (f x e)
    | inr e ↦ inr (exists-AnyOf f xs (ground arith))
  ]

  AnyOf-exists :
      ((x : A) → P x → test x ≡ true) → (xs : List A) → AnyOf P xs → exists test xs ≡ true
  AnyOf-exists f [] h = absurd h
  AnyOf-exists f (x ∷ xs) (inl h) = rw (f x h) refl
  AnyOf-exists f (x ∷ xs) (inr h) = ground (arith, AnyOf-exists f xs h)

is_declared-covers :
    (path : Text) (declared : List Text)
    → is_declared declared path ≡ exists (λ d. covers d path) declared
unfolding is_declared keep
is_declared-covers path [] = refl
is_declared-covers path (d ∷ declared) =
    ground (arith, text_eq_iff path d, text_eq_iff d path, is_declared-covers path declared)

exists_or {ℓ} :
    {A : Type ℓ} (f g : A → Bool) (xs : List A) → ((x : A) → f x ≡ g x) → exists f xs ≡ exists g xs
exists_or f g [] h = refl
exists_or f g (x ∷ xs) h = ground (arith, h x, exists_or f g xs h)

starts-covers : (entry path : Text) → is_dir entry ≡ true → starts path entry ≡ covers entry path
starts-covers entry path dir = elim (Bool-cases (text_eq entry path)) [
  | inl e ↦ rw (sym ((text_eq_iff entry path).0 e)) (ground (arith, dir, starts_self entry))
  | inr e ↦ ground (arith, dir)
]

satisfied_at :
    (entry : Text) (changed : Changes) (dir : Bool)
    → is_dir entry ≡ dir
    → (if dir
        then exists (λ e. starts e.0 entry) changed
        else exists (λ e. text_eq entry e.0) changed)
      ≡ exists (λ e. covers entry e.0) changed
satisfied_at entry changed true h = exists_or _ _ changed (λ e. starts-covers entry e.0 h)
satisfied_at entry changed false h =
    exists_or _ (λ e. covers entry e.0) changed (λ e. ground (arith, h))

is_satisfied-covers :
    (entry : Text) (changed : Changes)
    → is_satisfied changed entry ≡ exists (λ e. covers entry e.0) changed
unfolding is_satisfied
is_satisfied-covers entry changed = satisfied_at entry changed (is_dir entry) refl

pub is_declared_iff :
    (declared : List Text) (path : Text)
    → (is_declared declared path ≡ true) ↔ AnyOf (λ entry. Covers entry path) declared
is_declared_iff declared path = (
  λ h.
      exists-AnyOf _ _ (λ entry. covers-Covers entry path) declared
        (sym (is_declared-covers path declared) ∙ h),
  λ h.
      is_declared-covers path declared
      ∙ AnyOf-exists (λ entry. covers entry path) (λ entry. Covers entry path)
          (λ entry. Covers-covers entry path) declared h,
)

pub is_satisfied_iff :
    (changed : Changes) (entry : Text)
    → (is_satisfied changed entry ≡ true) ↔ AnyOf (λ e. Covers entry e.0) changed
is_satisfied_iff changed entry = (
  λ h.
      exists-AnyOf _ _ (λ e. covers-Covers entry e.0) changed
        (sym (is_satisfied-covers entry changed) ∙ h),
  λ h.
      is_satisfied-covers entry changed
      ∙ AnyOf-exists (λ e. covers entry e.0) (λ e. Covers entry e.0) (λ e. Covers-covers entry e.0)
          changed h,
)

-- Nothing fails the test.
module _ {ℓ} {A : Type ℓ} (test : A → Bool) (P : A → Type 0) where
  keep-All :
      ((x : A) → test x ≡ true → P x)
      → (xs : List A) → is_empty (keep (λ x. not (test x)) xs) ≡ true
      → All P xs
  unfolding keep
  keep-All f [] h = tt
  keep-All f (x ∷ xs) h = elim (Bool-cases (test x)) [
    | inl e ↦ (f x e, keep-All f xs (ground arith))
    | inr e ↦ ground arith
  ]

  All-keep :
      ((x : A) → P x → test x ≡ true)
      → (xs : List A) → All P xs
      → is_empty (keep (λ x. not (test x)) xs) ≡ true
  unfolding keep
  All-keep f [] h = refl
  All-keep f (x ∷ xs) h = ground (arith, f x h.0, All-keep f xs h.1)

module _ (P : Text × Label → Type 0) where
  All-insert :
      (path : Text) (label : Label) (d : Changes)
      → P (path, label)
      → All P d
      → All P (insert path label d)
  unfolding insert
  All-insert path label [] h k = (h, tt)
  All-insert path label ((p, l) ∷ d) h k = elim (Bool-cases (text_lt p path)) [
    | inl e ↦ rw e (k.0, All-insert path label d h k.1)
    | inr e ↦ rw e (h, k)
  ]

  insert-All :
      (path : Text) (label : Label) (d : Changes)
      → All P (insert path label d)
      → P (path, label) × All P d
  unfolding insert
  insert-All path label [] h = h
  insert-All path label ((p, l) ∷ d) h =
      inserted (text_lt p path) h (λ k. insert-All path label d k)
    where
      inserted :
          (lt : Bool)
          → All P (if lt then (p, l) ∷ insert path label d else (path, label) ∷ (p, l) ∷ d)
          → (All P (insert path label d) → P (path, label) × All P d)
          → P (path, label) × All P ((p, l) ∷ d)
      inserted true k rec = let later = rec k.1 in (later.0, (k.0, later.1))
      inserted false k rec = k

  All-sorted : (d : Changes) → All P d → All P (sorted d)
  unfolding sorted
  All-sorted [] h = tt
  All-sorted ((p, l) ∷ d) h = All-insert p l (sorted d) h.0 (All-sorted d h.1)

  sorted-All : (d : Changes) → All P (sorted d) → All P d
  unfolding sorted
  sorted-All [] h = tt
  sorted-All ((p, l) ∷ d) h =
      let found = insert-All p l (sorted d) h in (found.0, sorted-All d found.1)

and_true : (a b : Bool) → a && b ≡ true → (a ≡ true) × (b ≡ true)
and_true true b h = (refl, h)
and_true false b h = cc

-- The report is clean exactly when the section was found, each changed path is covered by an entry
-- of the File List, and each entry of the File List covers a changed path. An entry covers its own
-- path, and, if it ends in a slash, each path that begins with it.
pub clean-compare_sides :
    (declared : List Text) (found : Bool) (changed : Changes) (note : Note) (ignored : List Text)
    → ((compare_sides declared found changed note ignored).clean ≡ true) ↔ (
        (found ≡ true)
        × All (λ e. AnyOf (λ entry. Covers entry e.0) declared) changed
        × All (λ entry. AnyOf (λ e. Covers entry e.0) changed) declared)
unfolding compare_sides
clean-compare_sides declared found changed note ignored = (
  λ h.
      let both = and_true _ _ h in
      let sides = and_true _ _ both.0 in
      (
        both.1,
        sorted-All _ changed
            (keep-All _ _ (λ e. (is_declared_iff declared e.0).0) (sorted changed) sides.0),
        keep-All _ _ (λ entry. (is_satisfied_iff changed entry).0) declared sides.1,
      ),
  λ h.
      rw
        (All-keep (λ e. is_declared declared e.0) _ (λ e. (is_declared_iff declared e.0).1)
          (sorted changed) (All-sorted _ changed h.1))
        (rw
          (All-keep (is_satisfied changed) _ (λ entry. (is_satisfied_iff changed entry).1) declared
            h.2)
          h.0),
)
