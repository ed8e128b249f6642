-- ===== src/Automator/Range/Indices.antt =====
-- The indices that `parse_story_range` selects.
use bowerbird.Base.{
  ℕ, zero, suc, ◌+◌, ◌-◌, Bool, true, false, not, ◌&&◌, ◌||◌, ◌≡◌, ◌==◌, ltb, leb, refl, sym, ap,
  ◌∙◌, Option, none, some, List, [], ◌∷◌, length, exists, if◌then◌else◌, Result, ok, err, ◌>>=◌,
  >>=-eq-ok, ok-injective, foldl, value_error, arith, Bool-cases, inl, inr,
}
use bowerbird.Base.Int.{pos}
use bowerbird.Base.Text.{split_on, Text, codes, text_eq, cut_at}
use bowerbird.Automator.Range.{
  elem, add, add_range, without_blanks, between, insert, sorted, Selection, low_of, high_of,
  isdigit, select_from, select_part, select, selection, parse_story_range, ids_of, ids_at,
}

elem-add : (i x : ℕ) (s : List ℕ) → elem i (add x s) ≡ (x == i) || elem i s
unfolding add
elem-add i x s = elim (Bool-cases (x == i)) [
  | inl e ↦ let same : x ≡ i = ground (arith, e) in rw same (ground arith)
  | inr e ↦ ground (arith, e)
]

elem-add_range :
    (i low n : ℕ) (s : List ℕ)
    → elem i (add_range low n s) ≡ (leb low i && ltb i (low + n)) || elem i s
unfolding add_range
elem-add_range i low zero s = ground arith
elem-add_range i low (suc n) s =
    ground (arith, elem-add_range i (suc low) n (add low s), elem-add i low s)

elem-between :
    (i total : ℕ) (s : List ℕ) → elem i (between total s) ≡ (leb 1 i && leb i total) && elem i s
unfolding between
elem-between i total [] = ground arith
elem-between i total (x ∷ s) = ground (arith, elem-between i total s)

elem-insert : (i x : ℕ) (xs : List ℕ) → elem i (insert x xs) ≡ (x == i) || elem i xs
unfolding insert
elem-insert i x [] = refl
elem-insert i x (y ∷ ys) = ground (arith, elem-insert i x ys)

elem-sorted : (i : ℕ) (xs : List ℕ) → elem i (sorted xs) ≡ elem i xs
unfolding sorted
elem-sorted i [] = refl
elem-sorted i (x ∷ xs) = ground (arith, elem-insert i x (sorted xs), elem-sorted i xs)

-- Every number of the list is above the bound, and the list ascends.
abbrev pub above : ℕ → List ℕ → Bool
above b [] = true
above b (x ∷ xs) = ltb b x && above x xs

abbrev pub ascends : List ℕ → Bool
ascends [] = true
ascends (x ∷ xs) = above x xs

abbrev distinct : List ℕ → Bool
distinct [] = true
distinct (x ∷ xs) = not (elem x xs) && distinct xs

above-insert :
    (b x : ℕ) (xs : List ℕ)
    → above b xs ≡ true
    → ltb b x ≡ true
    → elem x xs ≡ false
    → above b (insert x xs) ≡ true
unfolding insert
above-insert b x [] h k e = ground arith
above-insert b x (y ∷ ys) h k e = elim (Bool-cases (ltb y x)) [
  | inl lt ↦ ground (arith, lt, above-insert y x ys (ground arith) lt (ground arith))
  | inr ge ↦ ground (arith, ge)
]

ascends-insert :
    (x : ℕ) (xs : List ℕ) → ascends xs ≡ true → elem x xs ≡ false → ascends (insert x xs) ≡ true
unfolding insert
ascends-insert x [] h e = refl
ascends-insert x (y ∷ ys) h e = elim (Bool-cases (ltb y x)) [
  | inl lt ↦ ground (arith, lt, above-insert y x ys h lt (ground arith))
  | inr ge ↦ ground (arith, ge)
]

ascends-sorted : (xs : List ℕ) → distinct xs ≡ true → ascends (sorted xs) ≡ true
unfolding sorted
ascends-sorted [] h = refl
ascends-sorted (x ∷ xs) h =
    ascends-insert x (sorted xs) (ascends-sorted xs (ground arith))
      (elem-sorted x xs ∙ ground arith)

distinct-add : (x : ℕ) (s : List ℕ) → distinct s ≡ true → distinct (add x s) ≡ true
unfolding add
distinct-add x s h = ground arith

distinct-add_range :
    (low n : ℕ) (s : List ℕ) → distinct s ≡ true → distinct (add_range low n s) ≡ true
unfolding add_range
distinct-add_range low zero s h = h
distinct-add_range low (suc n) s h =
    distinct-add_range (suc low) n (add low s) (distinct-add low s h)

distinct-between : (total : ℕ) (s : List ℕ) → distinct s ≡ true → distinct (between total s) ≡ true
unfolding between
distinct-between total [] h = refl
distinct-between total (x ∷ s) h =
    ground (arith, elem-between x total s, distinct-between total s (ground arith))

-- What the loop keeps: the numbers it has are those it had and those that the parts name.
abbrev Selects : (ℕ → Bool) → List ℕ → List ℕ → Type 0
Selects named s r =
    ((i : ℕ) → elem i r ≡ named i || elem i s) × (distinct s ≡ true → distinct r ≡ true)

abbrev pub parsed : Option ℕ → Result ℕ
parsed n = elim n [ none ↦ err value_error | some n ↦ ok n ]

-- A number, or the numbers between two, in either order.
abbrev pub is_number : ℕ → Option ℕ → Bool
is_number i none = false
is_number i (some n) = n == i

abbrev pub spans : ℕ → Option ℕ → Option ℕ → Bool
spans i (some m) (some n) = (leb m i && leb i n) || (leb n i && leb i m)
spans i _ _ = false

number-Selects :
    (digits : Bool) (n : Option ℕ) (s r : List ℕ)
    → (if digits then (parsed n >>= λ n. ok (add n s)) else ok s) ≡ ok r
    → Selects (λ i. digits && is_number i n) s r
number-Selects false n s r h = rw (sym (ok-injective h)) (λ i. refl, λ k. k)
number-Selects true none s r h = cc
number-Selects true (some n) s r h =
    rw (sym (ok-injective h)) (λ i. elem-add i n s, distinct-add n s)

spanned :
    (i m n : ℕ)
    → (leb (low_of m n) i && ltb i (low_of m n + (suc (high_of m n) - low_of m n)))
      ≡ spans i (some m) (some n)
spanned i m n = ground arith

span-Selects :
    (digits : Bool) (m n : Option ℕ) (s r : List ℕ)
    → (if digits
        then (parsed m >>= λ start. parsed n >>= λ end.
            let low = low_of start end in ok (add_range low (suc (high_of start end) - low) s))
        else ok s)
      ≡ ok r
    → Selects (λ i. digits && spans i m n) s r
span-Selects false m n s r h = rw (sym (ok-injective h)) (λ i. refl, λ k. k)
span-Selects true none n s r h = cc
span-Selects true (some m) none s r h = cc
span-Selects true (some m) (some n) s r h = rw (sym (ok-injective h)) (
  λ i.
      elem-add_range i (low_of m n) (suc (high_of m n) - low_of m n) s
      ∙ ap (λ b. b || elem i s) (spanned i m n),
  distinct-add_range (low_of m n) (suc (high_of m n) - low_of m n) s,
)

module _ (lower : Text → Text) (is_digit : ℕ → Bool) (int : Text → Option ℕ) where
  abbrev digits_in : Text → Bool
  digits_in = isdigit lower is_digit int

  abbrev pub cut_names : ℕ → Text → Option (Text × Text) → Bool
  cut_names i part none = digits_in part && is_number i (int part)
  cut_names i part (some (a, b)) = (digits_in a && digits_in b) && spans i (int a) (int b)

  -- A part of the input names a number: it is that number, or `a-b` with the number between.
  abbrev pub names : ℕ → Text → Bool
  names i part = cut_names i part (cut_at (codes "-") part)

  select_from-Selects :
      (part : Text) (cut : Option (Text × Text)) (s r : List ℕ)
      → select_from lower is_digit int s part cut ≡ ok r
      → Selects (λ i. cut_names i part cut) s r
  select_from-Selects part none s r h = number-Selects (digits_in part) (int part) s r h
  select_from-Selects part (some (a, b)) s r h =
      span-Selects (digits_in a && digits_in b) (int a) (int b) s r h

  select_part-Selects :
      (part : Text) (s r : List ℕ)
      → select_part lower is_digit int s part ≡ ok r
      → Selects (λ i. names i part) s r
  unfolding select_part cut_at
  select_part-Selects [] s r h = rw (sym (ok-injective h)) (λ i. refl, λ k. k)
  select_part-Selects (c ∷ part) s r h = select_from-Selects (c ∷ part) _ s r h

  loop-Selects :
      (parts : List Text) (s r : List ℕ)
      → foldl (select_part lower is_digit int) s parts ≡ ok r
      → Selects (λ i. exists (names i) parts) s r
  loop-Selects [] s r h = rw (sym (ok-injective h)) (λ i. refl, λ k. k)
  loop-Selects (part ∷ parts) s r h =
      let (m, first, rest) =
        >>=-eq-ok (select_part lower is_digit int s part)
          (λ m. foldl (select_part lower is_digit int) m parts) h in
      let (one, keeps) = select_part-Selects part s m first in
      let (others, kept) = loop-Selects parts m r rest in
      (λ i. ground (arith, one i, others i), λ k. kept (keeps k))

  -- Everything, for `all`; else what a part names.
  abbrev pub wanted : Text → ℕ → ℕ → Bool
  wanted normalized total i =
      if text_eq normalized (codes "all")
      then leb 1 i && leb i total
      else exists (names i) (split_on b',' normalized)

  branch-Selects :
      (all : Bool) (normalized : Text) (total : ℕ) (r : List ℕ)
      → (if all
          then ok (add_range 1 total [])
          else foldl (select_part lower is_digit int) [] (split_on b',' normalized))
        ≡ ok r
      → Selects
          (λ i. if all then leb 1 i && leb i total else exists (names i) (split_on b',' normalized))
          []
          r
  branch-Selects true normalized total r h =
      rw (sym (ok-injective h))
        (λ i. ground (arith, elem-add_range i 1 total []), λ _. distinct-add_range 1 total [] refl)
  branch-Selects false normalized total r h = loop-Selects (split_on b',' normalized) [] r h

  select-Selects :
      (normalized : Text) (total : ℕ) (r : List ℕ)
      → select lower is_digit int normalized total ≡ ok r
      → Selects (wanted normalized total) [] r
  unfolding select
  select-Selects normalized total r h =
      branch-Selects (text_eq normalized (codes "all")) normalized total r h

  -- Where the function returns, its indices ascend, each once, and are the numbers from 1 to the
  -- total that the input names: all of them for `all`, else those of its parts; `count` is their
  -- number and `story_ids` are the ids at those places, as far as there are that many.
  pub parse_story_range_lem :
      (user_input : Text) (total : ℕ) (ids_csv : Text) (result : Selection)
      → parse_story_range lower is_digit int user_input (pos total) ids_csv ≡ ok result
      → (ascends result.indices ≡ true)
        × ((i : ℕ)
            → elem i result.indices
              ≡ (leb 1 i && leb i total) && wanted (without_blanks (lower user_input)) total i)
        × (result.count ≡ length result.indices)
        × (result.story_ids ≡ ids_at (ids_of ids_csv) result.indices)
  unfolding parse_story_range
  parse_story_range_lem [] total ids_csv result h = cc
  parse_story_range_lem (c ∷ s) zero ids_csv result h = cc
  parse_story_range_lem (c ∷ s) (suc total) ids_csv result h =
      let normalized = without_blanks (lower (c ∷ s)) in
      let (selected, chosen, made) =
        >>=-eq-ok (select lower is_digit int normalized (suc total))
          (λ selected. ok (selection lower is_digit int (suc total) (ids_of ids_csv) selected)) h in
      let (members, keeps) = select-Selects normalized (suc total) selected chosen in
      let numbers = between (suc total) selected in
      rw (sym (ok-injective made)) (
        ascends-sorted numbers (distinct-between (suc total) selected (keeps refl)),
        λ i. elem-sorted i numbers ∙ ground (arith, elem-between i (suc total) selected, members i),
        refl,
        refl,
      )
