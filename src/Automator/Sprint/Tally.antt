-- ===== src/Automator/Sprint/Tally.antt =====
-- What `sprint_status_epic` counts.
use bowerbird.Base.{
  ℕ, suc, Bool, true, false, not, ◌&&◌, ◌||◌, ◌≡◌, refl, sym, ap, ◌∙◌, Option, none, some, List, [],
  ◌∷◌, ◌++◌, arith, subst, if◌then◌else◌, Bool-cases, inl, inr,
}
use bowerbird.Base.Text.{Text, text_eq, text_eq_iff, strip, is_space}
use bowerbird.FileList.Story.{has}
use bowerbird.Automator.Sprint.{
  trim_lines, entry_of, Counted, tally, count_lines, sprint_status_epic,
}

-- The entries of an epic, one for each line that the loop does not skip.
abbrev pub entries : Text → List Text → List (Text × Bool)
entries epic [] = []
entries epic (line ∷ lines) = elim (entry_of epic (strip is_space line)) [
  | none ↦ entries epic lines
  | some entry ↦ entry ∷ entries epic lines
]

-- Whether a key has an entry, and whether its first entry is done.
abbrev pub has_entry : Text → List (Text × Bool) → Bool
has_entry key [] = false
has_entry key ((k, d) ∷ es) = text_eq key k || has_entry key es

abbrev pub first_done : Text → List (Text × Bool) → Bool
first_done key [] = false
first_done key ((k, d) ∷ es) = if text_eq key k then d else first_done key es

-- The number of the stories whose first entry is done.
abbrev pub dones : List Text → List (Text × Bool) → ℕ
dones [] es = 0
dones (x ∷ xs) es = if first_done x es then suc (dones xs es) else dones xs es

abbrev pub distinct : List Text → Bool
distinct [] = true
distinct (x ∷ xs) = not (has xs x) && distinct xs

abbrev pub entered : List Text → List (Text × Bool) → Bool
entered [] es = true
entered (x ∷ xs) es = has_entry x es && entered xs es

has-append : (xs : List Text) (t k : Text) → has (xs ++ (t ∷ [])) k ≡ has xs k || text_eq k t
has-append [] t k = ground arith
has-append (x ∷ xs) t k = ground (arith, has-append xs t k)

has_entry-append :
    (es : List (Text × Bool)) (t k : Text) (d : Bool)
    → has_entry k (es ++ ((t, d) ∷ [])) ≡ has_entry k es || text_eq k t
has_entry-append [] t k d = ground arith
has_entry-append ((x, e) ∷ es) t k d = ground (arith, has_entry-append es t k d)

first_done-append :
    (es : List (Text × Bool)) (t k : Text) (d : Bool)
    → first_done k (es ++ ((t, d) ∷ []))
      ≡ (if has_entry k es then first_done k es else (text_eq k t && d))
first_done-append [] t k d = ground arith
first_done-append ((x, e) ∷ es) t k d = ground (arith, first_done-append es t k d)

dones-append :
    (xs : List Text) (t : Text) (es : List (Text × Bool))
    → dones (xs ++ (t ∷ [])) es ≡ (if first_done t es then suc (dones xs es) else dones xs es)
dones-append [] t es = refl
dones-append (x ∷ xs) t es = ground (arith, dones-append xs t es)

dones_later :
    (xs : List Text) (t : Text) (d : Bool) (es : List (Text × Bool))
    → entered xs es ≡ true
    → dones xs (es ++ ((t, d) ∷ [])) ≡ dones xs es
dones_later [] t d es h = refl
dones_later (x ∷ xs) t d es h =
    ground (arith, first_done-append es t x d, dones_later xs t d es (ground arith))

entered_later :
    (xs : List Text) (t : Text) (d : Bool) (es : List (Text × Bool))
    → entered xs es ≡ true
    → entered xs (es ++ ((t, d) ∷ [])) ≡ true
entered_later [] t d es h = refl
entered_later (x ∷ xs) t d es h =
    ground (arith, has_entry-append es t x d, entered_later xs t d es (ground arith))

entered-append :
    (xs : List Text) (t : Text) (es : List (Text × Bool))
    → entered xs es ≡ true
    → has_entry t es ≡ true
    → entered (xs ++ (t ∷ [])) es ≡ true
entered-append [] t es h k = ground (arith, k)
entered-append (x ∷ xs) t es h k = ground (arith, entered-append xs t es (ground arith) k)

distinct-append :
    (xs : List Text) (t : Text)
    → distinct xs ≡ true
    → has xs t ≡ false
    → distinct (xs ++ (t ∷ [])) ≡ true
distinct-append [] t h k = refl
distinct-append (x ∷ xs) t h k = ground (
  arith,
  has-append xs t x,
  text_eq_iff x t,
  text_eq_iff t x,
  distinct-append xs t (ground arith) (ground arith),
)

text_eq_self : (t : Text) → text_eq t t ≡ true
text_eq_self t = (text_eq_iff t t).1 refl

-- What the loop has counted of the entries that it has met.
abbrev IsTally : Counted → List (Text × Bool) → Type 0
IsTally m es =
    (distinct m.stories ≡ true)
    × ((k : Text) → has m.stories k ≡ has_entry k es)
    × (entered m.stories es ≡ true)
    × (m.done_count ≡ dones m.stories es)

tally-IsTally :
    (m : Counted) (key : Text) (d : Bool) (es : List (Text × Bool))
    → IsTally m es
    → IsTally (tally m (some (key, d))) (es ++ ((key, d) ∷ []))
tally-IsTally m key d es h =
    let (alone, members, all, number) = h in
    elim (Bool-cases (has m.stories key)) [
      | inl seen ↦ rw seen (
        alone,
        λ k. ground (
          arith,
          members k,
          members key,
          has_entry-append es key k d,
          text_eq_iff k key,
          ap (λ t. has m.stories t),
        ),
        entered_later m.stories key d es all,
        number ∙ sym (dones_later m.stories key d es all),
      )
      | inr new ↦ rw new (
        distinct-append m.stories key alone new,
        λ k. ground (arith, has-append m.stories key k, members k, has_entry-append es key k d),
        entered-append m.stories key (es ++ ((key, d) ∷ [])) (entered_later m.stories key d es all)
            (ground (arith, has_entry-append es key key d, text_eq_self key)),
        ground (
          arith,
          number,
          dones-append m.stories key (es ++ ((key, d) ∷ [])),
          dones_later m.stories key d es all,
          first_done-append es key key d,
          members key,
          new,
          text_eq_self key,
        ),
      )
    ]

regroup : (xs ys : List (Text × Bool)) (e : Text × Bool) → (xs ++ (e ∷ [])) ++ ys ≡ xs ++ (e ∷ ys)
regroup [] ys e = refl
regroup (x ∷ xs) ys e = ap (λ zs. x ∷ zs) (regroup xs ys e)

append_nil : (xs : List (Text × Bool)) → xs ++ [] ≡ xs
append_nil [] = refl
append_nil (x ∷ xs) = ap (λ zs. x ∷ zs) (append_nil xs)

-- The entry of a line, in front of those of the other lines.
abbrev in_front_of : Option (Text × Bool) → List (Text × Bool) → List (Text × Bool)
in_front_of o es = elim o [ none ↦ es | some entry ↦ entry ∷ es ]

line-IsTally :
    (o : Option (Text × Bool)) (m : Counted) (es rest : List (Text × Bool)) (P : Counted → Type 0)
    → IsTally m es
    → ((es' : List (Text × Bool))
        → IsTally (tally m o) es'
        → es' ++ rest ≡ es ++ in_front_of o rest
        → P (tally m o))
    → P (tally m o)
line-IsTally none m es rest P h f = f es h refl
line-IsTally (some (key, d)) m es rest P h f =
    f (es ++ ((key, d) ∷ [])) (tally-IsTally m key d es h) (regroup es rest (key, d))

count_lines-IsTally :
    (epic : Text) (lines : List Text) (m : Counted) (es : List (Text × Bool))
    → IsTally m es
    → IsTally (count_lines epic lines m) (es ++ entries epic lines)
unfolding count_lines
count_lines-IsTally epic [] m es h = subst (IsTally m) (sym (append_nil es)) h
count_lines-IsTally epic (line ∷ lines) m es h =
    let o = entry_of epic (strip is_space line) in
    line-IsTally o m es (entries epic lines)
      (λ m'. IsTally (count_lines epic lines m') (es ++ entries epic (line ∷ lines))) h
      (λ es' h' e.
        subst (IsTally (count_lines epic lines (tally m o))) e
          (count_lines-IsTally epic lines (tally m o) es' h'))

-- The entries that the epic has in a status file.
abbrev pub entries_of : Option Text → Text → List (Text × Bool)
entries_of none epic = []
entries_of (some content) epic = entries epic (trim_lines content)

-- The stories are the keys of the epic's entries, each once, and `done_count` is the number of
-- the stories whose first entry is done: a later entry for the same key counts for nothing.
pub sprint_status_epic_lem :
    (content : Option Text) (epic : Text)
    → (distinct (sprint_status_epic content epic).stories ≡ true)
      × ((key : Text)
          → has (sprint_status_epic content epic).stories key
            ≡ has_entry key (entries_of content epic))
      × ((sprint_status_epic content epic).done_count
          ≡ dones (sprint_status_epic content epic).stories (entries_of content epic))
unfolding sprint_status_epic
sprint_status_epic_lem none epic = (refl, λ key. refl, refl)
sprint_status_epic_lem (some content) epic =
    let (alone, members, _, number) =
      count_lines-IsTally epic (trim_lines content) (record { stories = []; done_count = 0 }) []
        (refl, λ k. refl, refl, refl) in
    (alone, members, number)
