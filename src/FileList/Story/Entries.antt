-- ===== src/FileList/Story/Entries.antt =====
-- What `extract_file_list` of scripts/check-file-list.py returns.
use bowerbird.Base.{
  ℕ, Bool, true, false, ◌≡◌, ◌≢◌, refl, sym, Option, none, some, List, [], ◌∷◌, ◌++◌, arith, every,
  All, All-append, if◌then◌else◌, Bool-cases, inl, inr,
}
use bowerbird.Base.Text.{Text, text_eq_iff, splitlines}
use bowerbird.FileList.Story.{
  is_path_char, accepted, first_path_token, token_of, has, collect, section_body, find_section,
  extract_file_list, bullet,
}

-- No entry is listed twice.
abbrev pub IsDistinct : List Text → Type 0
IsDistinct [] = Unit
IsDistinct (x ∷ xs) = All (λ y. x ≢ y) xs × IsDistinct xs

IsDistinct-append :
    (xs : List Text) (t : Text) → IsDistinct xs → All (λ x. x ≢ t) xs → IsDistinct (xs ++ (t ∷ []))
IsDistinct-append [] t h k = (tt, tt)
IsDistinct-append (x ∷ xs) t h k =
    (All-append (λ y. x ≢ y) xs (t ∷ []) h.0 (k.0, tt), IsDistinct-append xs t h.1 k.1)

module _ (is_word : ℕ → Bool) where
  -- A path of the file list: characters of PATH_CHARS, and at least one.
  abbrev pub IsEntry : Text → Type 0
  IsEntry t = (t ≢ []) × (every (is_path_char is_word) t ≡ true)

  taken-IsEntry :
      (c : ℕ) (s t : Text) → every (is_path_char is_word) (c ∷ s) ≡ true → c ∷ s ≡ t → IsEntry t
  taken-IsEntry c s t e h = rw (sym h) (λ k. cc, e)

  accepted-IsEntry : (s t : Text) → accepted is_word s ≡ some t → IsEntry t
  accepted-IsEntry [] t h = cc
  accepted-IsEntry (c ∷ s) t h = elim (Bool-cases (every (is_path_char is_word) (c ∷ s))) [
    | inl e ↦ taken-IsEntry c s t e (ground (arith, e))
    | inr e ↦ ground (arith, e)
  ]

  first_path_token-IsEntry :
      (content t : Text) → first_path_token is_word content ≡ some t → IsEntry t
  unfolding first_path_token
  first_path_token-IsEntry content t h = accepted-IsEntry _ t h

  token_of-IsEntry :
      (content : Option Text) (t : Text) → token_of is_word content ≡ some t → IsEntry t
  token_of-IsEntry none t h = cc
  token_of-IsEntry (some content) t h = first_path_token-IsEntry content t h

  has-All : (paths : List Text) (t : Text) → has paths t ≡ false → All (λ x. x ≢ t) paths
  has-All [] t h = tt
  has-All (x ∷ paths) t h =
      (λ e. ground (arith, (text_eq_iff t x).1 (sym e)), has-All paths t (ground arith))

  abbrev Entries : List Text → Type 0
  Entries paths = IsDistinct paths × All IsEntry paths

  step-Entries :
      (o : Option Text) (paths : List Text)
      → ((t : Text) → o ≡ some t → IsEntry t)
      → Entries paths
      → Entries (elim o [
        | none ↦ paths
        | some token ↦ if has paths token then paths else paths ++ (token ∷ [])
      ])
  step-Entries none paths f h = h
  step-Entries (some token) paths f h = elim (Bool-cases (has paths token)) [
    | inl e ↦ rw e h
    | inr e ↦ rw e (
      IsDistinct-append paths token h.0 (has-All paths token e),
      All-append IsEntry paths (token ∷ []) h.1 (f token refl, tt),
    )
  ]

  collect-Entries :
      (lines paths : List Text) → Entries paths → Entries (collect is_word lines paths)
  unfolding collect
  collect-Entries [] paths h = h
  collect-Entries (line ∷ lines) paths h =
      collect-Entries lines _
        (step-Entries (token_of is_word (bullet line)) paths (token_of-IsEntry (bullet line)) h)

  -- The answer of `extract_file_list`, for what `find_section` found.
  found-Entries :
      (found : Option (ℕ × List Text))
      → Entries
          (elim found as (λ _. List Text × Bool) [
            | none ↦ ([], false)
            | some (level, lines) ↦ (collect is_word (section_body is_word level lines) [], true)
          ]).0
  found-Entries none = (tt, tt)
  found-Entries (some (level, lines)) =
      collect-Entries (section_body is_word level lines) [] (tt, tt)

  -- The entries of the File List differ, and each is a text of PATH_CHARS that is not empty.
  pub extract_file_list-IsEntry :
      (story_text : Text)
      → IsDistinct (extract_file_list is_word story_text).0
        × All IsEntry (extract_file_list is_word story_text).0
  unfolding extract_file_list
  extract_file_list-IsEntry story_text =
      found-Entries (find_section is_word (splitlines story_text))
