-- ===== src/Automator/Frontmatter/Change.antt =====
-- The lines of a frontmatter when a key is updated.
use bowerbird.Base.{
  Bool, true, false, not, ◌&&◌, ◌||◌, ◌≡◌, refl, ap, ◌∙◌, inl, inr, Option, some, List, [], ◌∷◌,
  ◌++◌, exists, if◌then◌else◌, Bool-cases, Option-cases, if-else, append_assoc, arith,
}
use bowerbird.Base.Text.{
  Text, codes, is_space, text_eq, text_eq_iff, after_prefix, drop_while, strip,
}
use bowerbird.Automator.Json.{Json}
use bowerbird.Automator.Sprint.{begins}
use bowerbird.Automator.StoryKeys.{is_empty}
use bowerbird.Automator.Frontmatter.{
  FieldValue, FrontFields, field_of, with_field, is_nil, FrontLine, entry, front_line, Parsing,
  value_of, parse_line, update_line, update_lines,
}
use bowerbird.Automator.Frontmatter.Lines.{IsKey, after_prefix-some, front_line-key}

pub field_of-with_field :
    (j key : Text) (v : FieldValue) (fields : FrontFields)
    → field_of j (with_field key v fields) ≡ (if text_eq key j then some v else field_of j fields)
unfolding field_of with_field
field_of-with_field j key v [] = refl
field_of-with_field j key v ((i, w) ∷ fields) = ground (
  arith,
  text_eq_iff key j,
  text_eq_iff i key,
  text_eq_iff i j,
  field_of-with_field j key v fields,
)

-- A line that says something of the key begins with it, and a colon.
abbrev pub says : Text → FrontLine → Bool
says key (entry k raw) = text_eq k key
says key _ = false

abbrev pub is_spelled : Text → Text → Bool
is_spelled key line = begins (key ++ codes ":") line || not (says key (front_line line))

module _ {R : Type 0} (loads : Text → Option (Json R)) (key value : Text) where
  abbrev pub changes : Text → Bool
  changes line = begins (key ++ codes ":") line

  abbrev pub new_line : Text → Text
  new_line line = if changes line then key ++ codes ": " ++ value else line

  abbrev pub new_lines : List Text → List Text
  new_lines [] = []
  new_lines (line ∷ lines) = new_line line ∷ new_lines lines

  pub new_lines-update_lines :
      (lines updated : List Text)
      → (update_lines ((key, value) ∷ []) lines updated).0 ≡ new_lines lines
  unfolding update_lines update_line
  new_lines-update_lines [] updated = refl
  new_lines-update_lines (line ∷ lines) updated = elim (Bool-cases (changes line)) [
    | inl hit ↦
        rw hit (ap (λ ls. (key ++ codes ": " ++ value) ∷ ls) (new_lines-update_lines lines _))
    | inr miss ↦ rw miss (ap (λ ls. line ∷ ls) (new_lines-update_lines lines _))
  ]

  is_nil-append : (updated : List Text) (s : Text) → is_nil (updated ++ (s ∷ [])) ≡ false
  is_nil-append [] s = refl
  is_nil-append (t ∷ updated) s = refl

  -- Keys are reported exactly where a line changes.
  pub is_nil-update_lines :
      (lines updated : List Text)
      → is_nil (update_lines ((key, value) ∷ []) lines updated).1
        ≡ (is_nil updated && not (exists changes lines))
  unfolding update_lines update_line
  is_nil-update_lines [] updated = ground arith
  is_nil-update_lines (line ∷ lines) updated = elim (Bool-cases (changes line)) [
    | inl hit ↦ rw hit (
        is_nil-update_lines lines (updated ++ (key ∷ []))
        ∙ ap (λ b. b && not (exists changes lines)) (is_nil-append updated key)
        ∙ ground arith)
    | inr miss ↦ rw miss (is_nil-update_lines lines updated)
  ]

  abbrev pub new_value : FieldValue
  new_value = value_of loads (strip is_space value)

  module _ (is : IsKey key) (set : is_empty (strip is_space value) ≡ false) where
    strip-space : strip is_space (32 ∷ value) ≡ strip is_space value
    unfolding strip drop_while is_space
    strip-space = refl

    front_line_new : front_line (key ++ codes ": " ++ value) ≡ entry key (strip is_space value)
    front_line_new =
        ap front_line (append_assoc key (codes ": ") value)
        ∙ front_line-key key (32 ∷ value) is
        ∙ ap (entry key) strip-space

    -- The new line sets the field, and no list follows it.
    pub parse_line_new :
        (m : Parsing)
        → parse_line loads m (front_line (key ++ codes ": " ++ value))
          ≡ record { fields = with_field key new_value m.fields; current_key = [] }
    unfolding parse_line
    parse_line_new m = ap (parse_line loads m) front_line_new ∙ if-else _ _ set

    pub front_line_old :
        (line : Text) → changes line ≡ true → (raw : Text) × (front_line line ≡ entry key raw)
    front_line_old line hit = elim (Option-cases (after_prefix (key ++ codes ":") line)) [
      | inl missing ↦ cc
      | inr (t, found) ↦ (
        strip is_space t,
        ap front_line
              (after_prefix-some (key ++ codes ":") line t found ∙ append_assoc key (codes ":") t)
            ∙ front_line-key key t is,
      )
    ]
