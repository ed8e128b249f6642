-- ===== src/Automator/StoryKeys/Normal.antt =====
-- The id and the prefix of a story are names of it again.
use bowerbird.Base.{ℕ, Bool, ◌≡◌, refl, sym, ap, ◌∙◌, Option, none, some, ◌∷◌, ◌++◌}
use bowerbird.Base.Text.{Text}
use bowerbird.Automator.StoryKeys.{
  StoryKey, replace, two_numbers, numbers_of_key, key_of_prefix, named_by, normalize_story_key,
}
use bowerbird.Automator.StoryKeys.Digits.{
  IsSeparated, IsNumber, two_numbers-joined, two_numbers-some, numbers_of_key-some, replace-joined,
}

module _ (is_digit : ℕ → Bool) where
  module _ (artifact : Text → Option Text) (status : Option Text) where
    -- The story with the prefix, under the key that is looked up for it.
    abbrev pub story_of_prefix : Text → Text → StoryKey
    story_of_prefix id prefix = record {
      id = id;
      prefix = prefix;
      key = key_of_prefix is_digit artifact status prefix;
    }

    normalize-id :
        IsSeparated is_digit
        → (a b : Text) → IsNumber is_digit a
        → IsNumber is_digit b
        → normalize_story_key is_digit artifact status (a ++ (46 ∷ b))
          ≡ some (story_of_prefix (a ++ (46 ∷ b)) (a ++ (45 ∷ b)))
    unfolding normalize_story_key
    normalize-id (dot, dash) a b h k =
        let value = a ++ (46 ∷ b) in
        ap
          (λ o.
            named_by is_digit artifact status value o (two_numbers is_digit 45 value)
              (numbers_of_key is_digit value))
          (two_numbers-joined is_digit 46 46 a b h k dot)
        ∙ ap (λ p. some (story_of_prefix value p)) (replace-joined is_digit 46 45 a b h k dot)

    normalize-prefix :
        IsSeparated is_digit
        → (a b : Text) → IsNumber is_digit a
        → IsNumber is_digit b
        → normalize_story_key is_digit artifact status (a ++ (45 ∷ b))
          ≡ some (story_of_prefix (a ++ (46 ∷ b)) (a ++ (45 ∷ b)))
    unfolding normalize_story_key
    normalize-prefix (dot, dash) a b h k =
        let value = a ++ (45 ∷ b) in
        ap
          (λ o.
            named_by is_digit artifact status value o (two_numbers is_digit 45 value)
              (numbers_of_key is_digit value))
          (two_numbers-joined is_digit 46 45 a b h k dash)
        ∙ ap (λ o. named_by is_digit artifact status value none o (numbers_of_key is_digit value))
            (two_numbers-joined is_digit 45 45 a b h k dash)
        ∙ ap (λ i. some (story_of_prefix i value)) (replace-joined is_digit 45 46 a b h k dash)

    -- The id and the prefix are the two numbers of a story.
    HasNumbers : StoryKey → Type 0
    HasNumbers story =
        (a b : Text) × IsNumber is_digit a
        × IsNumber is_digit b
        × (story.id ≡ a ++ (46 ∷ b))
        × (story.prefix ≡ a ++ (45 ∷ b))

    named_by-HasNumbers :
        IsSeparated is_digit
        → (value : Text) (story : StoryKey) (x y z : Option (Text × Text))
        → two_numbers is_digit 46 value ≡ x
        → two_numbers is_digit 45 value ≡ y
        → numbers_of_key is_digit value ≡ z
        → named_by is_digit artifact status value x y z ≡ some story
        → HasNumbers story
    unfolding HasNumbers
    named_by-HasNumbers (dot, dash) value story (some (a, b)) y z hx hy hz h =
        let (ha, hb, whole) = two_numbers-some is_digit 46 value a b hx in
        let prefix : replace 46 45 value ≡ a ++ (45 ∷ b) =
          ap (replace 46 45) whole ∙ replace-joined is_digit 46 45 a b ha hb dot in
        let same : story_of_prefix value (replace 46 45 value) ≡ story = cc in
        (a, b, ha, hb, sym (ap (λ s. s.id) same) ∙ whole, sym (ap (λ s. s.prefix) same) ∙ prefix)
    named_by-HasNumbers (dot, dash) value story none (some (a, b)) z hx hy hz h =
        let (ha, hb, whole) = two_numbers-some is_digit 45 value a b hy in
        let id : replace 45 46 value ≡ a ++ (46 ∷ b) =
          ap (replace 45 46) whole ∙ replace-joined is_digit 45 46 a b ha hb dash in
        let same : story_of_prefix (replace 45 46 value) value ≡ story = cc in
        (a, b, ha, hb, sym (ap (λ s. s.id) same) ∙ id, sym (ap (λ s. s.prefix) same) ∙ whole)
    named_by-HasNumbers (dot, dash) value story none none (some (a, b)) hx hy hz h =
        let (ha, hb) = numbers_of_key-some is_digit value a b hz in
        let id = replace-joined is_digit 45 46 a b ha hb dash in
        let same : ◌≡◌ {A = StoryKey}
            record { id = replace 45 46 (a ++ (45 ∷ b)); prefix = a ++ (45 ∷ b); key = value }
            story =
          cc in
        (a, b, ha, hb, sym (ap (λ s. s.id) same) ∙ id, sym (ap (λ s. s.prefix) same))
    named_by-HasNumbers (dot, dash) value story none none none hx hy hz h = cc

    normalize_story_key-HasNumbers :
        IsSeparated is_digit
        → (value : Text) (story : StoryKey)
        → normalize_story_key is_digit artifact status value ≡ some story
        → HasNumbers story
    unfolding normalize_story_key
    normalize_story_key-HasNumbers separated value story h =
        named_by-HasNumbers separated value story _ _ _ refl refl refl h

    -- A story that was normalized has its id and its prefix as names: both normalize to one story, with
    -- that id and that prefix, under the key that is looked up for the prefix. Neither a full stop nor
    -- a hyphen is a digit.
    pub normalize_story_key_names :
        IsSeparated is_digit
        → (value : Text) (story : StoryKey)
        → normalize_story_key is_digit artifact status value ≡ some story
        → (normalize_story_key is_digit artifact status story.id
            ≡ some (story_of_prefix story.id story.prefix))
          × (normalize_story_key is_digit artifact status story.prefix
              ≡ some (story_of_prefix story.id story.prefix))
    unfolding HasNumbers
    normalize_story_key_names separated value story h =
        let (a, b, ha, hb, id, prefix) = normalize_story_key-HasNumbers separated value story h in
        let back : some (story_of_prefix (a ++ (46 ∷ b)) (a ++ (45 ∷ b)))
            ≡ some (story_of_prefix story.id story.prefix) =
          ap (λ i. some (story_of_prefix i (a ++ (45 ∷ b)))) (sym id)
          ∙ ap (λ p. some (story_of_prefix story.id p)) (sym prefix) in
        (
          ap (normalize_story_key is_digit artifact status) id
              ∙ normalize-id separated a b ha hb
              ∙ back,
          ap (normalize_story_key is_digit artifact status) prefix
              ∙ normalize-prefix separated a b ha hb
              ∙ back,
        )
