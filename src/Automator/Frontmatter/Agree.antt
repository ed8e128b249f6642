-- ===== src/Automator/Frontmatter/Agree.antt =====
-- An update leaves the other fields of the frontmatter as they are.
use bowerbird.Base.{
  ℕ, true, false, not, ◌&&◌, ◌==◌, ◌≡◌, refl, sym, ap, subst, ◌∙◌, ◌⊎◌, inl, inr, Option, some,
  List, [], ◌∷◌, Bool-cases, if-then, if-else, arith,
}
use bowerbird.Base.Text.{Text, is_space, text_eq, text_eq_iff, strip}
use bowerbird.Automator.Json.{Json}
use bowerbird.Automator.StoryKeys.{is_empty}
use bowerbird.Automator.Frontmatter.{
  FieldValue, FrontFields, field_of, with_field, FrontLine, comment, entry, other, front_line,
  Parsing, appended, unquote_scalar, item_fields, add_item, parse_line, parse_lines,
}
use bowerbird.Automator.Frontmatter.Lines.{IsKey}
use bowerbird.Automator.Frontmatter.Change.{
  changes, new_line, new_lines, new_value, parse_line_new, front_line_old, field_of-with_field,
}

module _ {R : Type 0} (loads : Text → Option (Json R)) (key value : Text) where
  module _ (is : IsKey key) (set : is_empty (strip is_space value) ≡ false) where
    -- The fields agree but for the key; and the current keys agree, unless the new one is empty and
    -- the old one is the key.
    abbrev pub Agree : Parsing → Parsing → Type 0
    Agree m m' =
        ((j : Text) → text_eq key j ≡ false → field_of j m.fields ≡ field_of j m'.fields)
        × ((m.current_key ≡ m'.current_key) ⊎ ((m.current_key ≡ key) × (m'.current_key ≡ [])))

    with_field_agree :
        (k j : Text) (v w : FieldValue) (fields fields' : FrontFields)
        → (text_eq k j ≡ true → v ≡ w)
        → field_of j fields ≡ field_of j fields'
        → field_of j (with_field k v fields) ≡ field_of j (with_field k w fields')
    with_field_agree k j v w fields fields' same h = elim (Bool-cases (text_eq k j)) [
      | inl here ↦
          field_of-with_field j k v fields
          ∙ (if-then _ _ here ∙ (ap some (same here) ∙ sym (if-then _ _ here)))
          ∙ sym (field_of-with_field j k w fields')
      | inr there ↦
          field_of-with_field j k v fields
          ∙ (if-else _ _ there ∙ (h ∙ sym (if-else _ _ there)))
          ∙ sym (field_of-with_field j k w fields')
    ]

    -- Setting the key on one side only.
    with_field_aside :
        (j : Text) (v : FieldValue) (fields : FrontFields)
        → text_eq key j ≡ false
        → field_of j (with_field key v fields) ≡ field_of j fields
    with_field_aside j v fields h = field_of-with_field j key v fields ∙ if-else _ _ h

    item_fields_agree :
        (k : Text) (c : ℕ) (s : Text) (fields fields' : FrontFields)
        → ((j : Text) → text_eq key j ≡ false → field_of j fields ≡ field_of j fields')
        → (j : Text) → text_eq key j ≡ false
        → field_of j (item_fields k c s fields) ≡ field_of j (item_fields k c s fields')
    item_fields_agree k c s fields fields' h j hj =
        elim (Bool-cases (c == 45 && not (is_empty k))) [
          | inl item ↦ rw item (
              with_field_agree k j _ _ fields fields'
                (λ here.
                  ap (appended (unquote_scalar (strip is_space s)))
                    (h k (subst (λ i. text_eq key i ≡ false) (sym ((text_eq_iff k j).0 here)) hj)))
                (h j hj))
          | inr no_item ↦ rw no_item (h j hj)
        ]

    item_fields_aside :
        (c : ℕ) (s : Text) (fields : FrontFields) (j : Text)
        → text_eq key j ≡ false
        → field_of j (item_fields key c s fields) ≡ field_of j fields
    item_fields_aside c s fields j hj = elim (Bool-cases (c == 45 && not (is_empty key))) [
      | inl item ↦ rw item (with_field_aside j _ fields hj)
      | inr no_item ↦ rw no_item refl
    ]

    item_fields-none :
        (c : ℕ) (s : Text) (fields : FrontFields) → item_fields [] c s fields ≡ fields
    item_fields-none c s fields = if-else {b = c == 45 && not (is_empty [])} _ _ (ground arith)

    add_item-Agree : (m m' : Parsing) (s : Text) → Agree m m' → Agree (add_item m s) (add_item m' s)
    add_item-Agree m m' [] h = h
    add_item-Agree m m' (c ∷ s) (h, inl same) = (
      λ j hj.
          item_fields_agree m.current_key c s m.fields m'.fields h j hj
          ∙ ap (λ k. field_of j (item_fields k c s m'.fields)) same,
      inl same,
    )
    add_item-Agree m m' (c ∷ s) (h, inr (old, new)) = (
      λ j hj.
          ap (λ k. field_of j (item_fields k c s m.fields)) old
          ∙ (item_fields_aside c s m.fields j hj
              ∙ (h j hj
                  ∙ (sym (ap (field_of j) (item_fields-none c s m'.fields))
                      ∙ sym (ap (λ k. field_of j (item_fields k c s m'.fields)) new)))),
      inr (old, new),
    )

    parse_line-Agree :
        (m m' : Parsing) (e : FrontLine)
        → Agree m m'
        → Agree (parse_line loads m e) (parse_line loads m' e)
    unfolding parse_line
    parse_line-Agree m m' comment h = h
    parse_line-Agree m m' (other line) h = add_item-Agree m m' line h
    parse_line-Agree m m' (entry k raw) (h, _) = elim (Bool-cases (is_empty raw)) [
      | inl blank ↦
          rw blank (
            (λ j hj. with_field_agree k j _ _ m.fields m'.fields (λ here. refl) (h j hj)),
            inl refl,
          )
      | inr filled ↦
          rw filled (
            (λ j hj. with_field_agree k j _ _ m.fields m'.fields (λ here. refl) (h j hj)),
            inl refl,
          )
    ]

    -- The line of the key against the new one.
    parse_line_changed :
        (m m' : Parsing) (raw : Text)
        → Agree m m'
        → Agree (parse_line loads m (entry key raw)) (record {
          fields = with_field key (new_value loads key value) m'.fields;
          current_key = [];
        })
    unfolding parse_line
    parse_line_changed m m' raw (h, _) =
        let aside : (v : FieldValue) (j : Text)
            → text_eq key j ≡ false
            → field_of j (with_field key v m.fields)
              ≡ field_of j (with_field key (new_value loads key value) m'.fields) =
          λ v j hj.
            with_field_aside j v m.fields hj
            ∙ (h j hj ∙ sym (with_field_aside j (new_value loads key value) m'.fields hj)) in
        elim (Bool-cases (is_empty raw)) [
          | inl blank ↦ rw blank (aside _, inr (refl, refl))
          | inr filled ↦ rw filled (aside _, inl refl)
        ]

    line-Agree :
        (line : Text) (m m' : Parsing)
        → Agree m m'
        → Agree
            (parse_line loads m (front_line line))
            (parse_line loads m' (front_line (new_line loads key value line)))
    line-Agree line m m' h = elim (Bool-cases (changes loads key value line)) [
      | inl hit ↦
          let (raw, is_old) = front_line_old loads key value is set line hit in
          let is_new : record {
            fields = with_field key (new_value loads key value) m'.fields;
            current_key = [];
          }
              ≡ parse_line loads m' (front_line (new_line loads key value line)) =
            sym (
              ap (λ l. parse_line loads m' (front_line l)) (if-then _ _ hit)
              ∙ parse_line_new loads key value is set m') in
          subst (Agree (parse_line loads m (front_line line))) is_new (
            subst
              (λ e. Agree (parse_line loads m e) (record {
                fields = with_field key (new_value loads key value) m'.fields;
                current_key = [];
              }))
              (sym is_old) (parse_line_changed m m' raw h))
      | inr miss ↦
          subst
            (λ l. Agree (parse_line loads m (front_line line)) (parse_line loads m' (front_line l)))
            (sym (if-else _ _ miss)) (parse_line-Agree m m' (front_line line) h)
    ]

    pub parse_lines-Agree :
        (lines : List Text) (m m' : Parsing)
        → Agree m m'
        → Agree (parse_lines loads lines m) (parse_lines loads (new_lines loads key value lines) m')
    unfolding parse_lines
    parse_lines-Agree [] m m' h = h
    parse_lines-Agree (line ∷ lines) m m' h = parse_lines-Agree lines _ _ (line-Agree line m m' h)
