-- ===== src/Automator/Frontmatter/Update.antt =====
-- The lines of a frontmatter where a key is updated have its new value.
use bowerbird.Base.{
  true, false, not, ◌&&◌, ◌==◌, ◌≡◌, refl, sym, ap, subst, ◌∙◌, inl, inr, Option, some, List, [],
  ◌∷◌, every, exists, Bool-cases, if-then, if-else, arith,
}
use bowerbird.Base.Text.{Text, is_space, text_eq, text_eq_iff, strip}
use bowerbird.Automator.Json.{Json}
use bowerbird.Automator.StoryKeys.{is_empty}
use bowerbird.Automator.Frontmatter.{
  FieldValue, field_of, with_field, is_nil, FrontLine, comment, entry, other, front_line, Parsing,
  value_of, parse_line, parse_lines, fields_of_lines, update_lines,
}
use bowerbird.Automator.Frontmatter.Lines.{IsKey}
use bowerbird.Automator.Frontmatter.Change.{says, is_spelled}
use bowerbird.Automator.Frontmatter.Change.{
  changes, new_line, new_lines, new_value, new_lines-update_lines, is_nil-update_lines,
  parse_line_new, field_of-with_field,
}
use bowerbird.Automator.Frontmatter.Agree.{parse_lines-Agree}

module _ {R : Type 0} (loads : Text → Option (Json R)) (key value : Text) where
  module _ (is : IsKey key) (set : is_empty (strip is_space value) ≡ false) where
    -- The field holds the new value, and no item will be added to it.
    abbrev Holds : Parsing → Type 0
    Holds m =
        (field_of key m.fields ≡ some (new_value loads key value))
        × (text_eq m.current_key key ≡ false)

    not-empty : (k : Text) → IsKey k → text_eq [] k ≡ false
    unfolding text_eq
    not-empty [] h = elim h [ ]
    not-empty (c ∷ s) h = refl

    key-set : text_eq [] key ≡ false
    key-set = not-empty key is

    text_eq_self : text_eq key key ≡ true
    text_eq_self = (text_eq_iff key key).1 refl

    line-Holds :
        (line : Text) (m : Parsing)
        → changes loads key value line ≡ true
        → Holds (parse_line loads m (front_line (new_line loads key value line)))
    line-Holds line m hit =
        subst Holds
          (sym (
            ap (λ l. parse_line loads m (front_line l)) (if-then _ _ hit)
            ∙ parse_line_new loads key value is set m))
          (
            field_of-with_field key key (new_value loads key value) m.fields
                ∙ if-then _ _ text_eq_self,
            key-set,
          )

    other-Holds :
        (m : Parsing) (e : FrontLine) → says key e ≡ false → Holds m → Holds (parse_line loads m e)
    unfolding parse_line
    other-Holds m comment aside h = h
    other-Holds m (other []) aside h = h
    other-Holds m (other (c ∷ s)) aside (h, current) =
        elim (Bool-cases (c == 45 && not (is_empty m.current_key))) [
          | inl item ↦ (
            ap (field_of key) (if-then _ _ item)
                ∙ (field_of-with_field key m.current_key _ m.fields ∙ (if-else _ _ current ∙ h)),
            current,
          )
          | inr no_item ↦ (ap (field_of key) (if-else _ _ no_item) ∙ h, current)
        ]
    other-Holds m (entry k raw) aside (h, _) =
        let kept : (v : FieldValue)
            → field_of key (with_field k v m.fields) ≡ some (new_value loads key value) =
          λ v. field_of-with_field key k v m.fields ∙ (if-else _ _ aside ∙ h) in
        elim (Bool-cases (is_empty raw)) [
          | inl blank ↦ rw blank (kept _, aside)
          | inr filled ↦ rw filled (kept _, key-set)
        ]

    spelled-Holds :
        (line : Text) (m : Parsing)
        → is_spelled key line ≡ true
        → Holds m
        → Holds (parse_line loads m (front_line (new_line loads key value line)))
    spelled-Holds line m spelled h = elim (Bool-cases (changes loads key value line)) [
      | inl hit ↦ line-Holds line m hit
      | inr miss ↦
          subst (λ l. Holds (parse_line loads m (front_line l))) (sym (if-else _ _ miss))
            (other-Holds m (front_line line) (ground (arith, spelled, miss)) h)
    ]

    parse_lines-Holds :
        (lines : List Text) (m : Parsing)
        → every (is_spelled key) lines ≡ true
        → Holds m
        → Holds (parse_lines loads (new_lines loads key value lines) m)
    unfolding parse_lines
    parse_lines-Holds [] m spelled h = h
    parse_lines-Holds (line ∷ lines) m spelled h =
        parse_lines-Holds lines _ (ground (arith, spelled))
          (spelled-Holds line m (ground (arith, spelled)) h)

    parse_lines_changed :
        (lines : List Text) (m : Parsing)
        → every (is_spelled key) lines ≡ true
        → exists (changes loads key value) lines ≡ true
        → Holds (parse_lines loads (new_lines loads key value lines) m)
    unfolding parse_lines
    parse_lines_changed [] m spelled there = cc
    parse_lines_changed (line ∷ lines) m spelled there =
        elim (Bool-cases (changes loads key value line)) [
          | inl hit ↦ parse_lines-Holds lines _ (ground (arith, spelled)) (line-Holds line m hit)
          | inr miss ↦
              parse_lines_changed lines _ (ground (arith, spelled)) (ground (arith, there, miss))
        ]

    -- The lines after an update have the fields of the lines before, with the key set.
    pub fields_of_lines-update_lines :
        (lines : List Text)
        → is_nil (update_lines ((key, value) ∷ []) lines []).1 ≡ false
        → every (is_spelled key) lines ≡ true
        → (j : Text)
        → field_of j (fields_of_lines loads (update_lines ((key, value) ∷ []) lines []).0)
          ≡ field_of j
              (with_field key (value_of loads (strip is_space value)) (fields_of_lines loads lines))
    fields_of_lines-update_lines lines reported spelled j =
        let start : Parsing = record { fields = []; current_key = [] } in
        let there : exists (changes loads key value) lines ≡ true =
          ground (arith, sym (is_nil-update_lines loads key value lines []) ∙ reported) in
        ap (λ ls. field_of j (fields_of_lines loads ls))
          (new_lines-update_lines loads key value lines [])
        ∙ (elim (Bool-cases (text_eq key j)) [
          | inl same ↦
              ap (λ i. field_of i (fields_of_lines loads (new_lines loads key value lines)))
                (sym ((text_eq_iff key j).0 same))
              ∙ ((parse_lines_changed lines start spelled there).0 ∙ sym (if-then _ _ same))
          | inr differ ↦
              sym (
                (parse_lines-Agree loads key value is set lines start start
                    ((λ i hi. refl), inl refl)).0
                  j differ)
              ∙ sym (if-else _ _ differ)
        ]
            ∙ sym (
                field_of-with_field j key (new_value loads key value)
                  (fields_of_lines loads lines)))
