-- ===== src/Automator/Frontmatter/File.antt =====
-- Updating a key of a file and reading its lines again.
use bowerbird.Base.{
  none, ◌++◌, if◌then◌else◌, true, false, ◌≡◌, refl, sym, ap, ◌∙◌, inl, inr, Option, some, List, [],
  ◌∷◌, every, exists, Bool-cases, if-then, if-else, arith,
}
use bowerbird.Base.Text.{Text, codes, is_break, is_space, strip}
use bowerbird.Automator.Json.{Json}
use bowerbird.Automator.StoryKeys.{is_empty}
use bowerbird.Automator.Frontmatter.{
  field_of, with_field, is_nil, value_of, fields_of_lines, update_lines,
}
use bowerbird.Automator.Frontmatter.Lines.{IsKey}
use bowerbird.Automator.Frontmatter.Change.{is_spelled}
use bowerbird.Automator.Frontmatter.Change.{
  changes, new_lines, new_lines-update_lines, is_nil-update_lines,
}
use bowerbird.Automator.Sprint.{trim_lines}
use bowerbird.Automator.Frontmatter.{update_simple_frontmatter, join_lines}
use bowerbird.Automator.Frontmatter.Written.{is_inline, inline-trim_lines, trim_lines-join_lines}
use bowerbird.Automator.Frontmatter.Update.{fields_of_lines-update_lines}

module _ {R : Type 0} (loads : Text → Option (Json R)) (key value : Text) where
  module _ (is : IsKey key) (set : is_empty (strip is_space value) ≡ false) where
    module _ (key_inline : is_inline key ≡ true) (value_inline : is_inline value ≡ true) where
      inline-append :
          (s t : Text) → is_inline s ≡ true → is_inline t ≡ true → is_inline (s ++ t) ≡ true
      inline-append [] t h k = k
      inline-append (c ∷ s) t h k = ground (arith, h, inline-append s t (ground (arith, h)) k)

      separator_inline : is_inline (codes ": ") ≡ true
      unfolding is_break
      separator_inline = refl

      inline-new_lines :
          (lines : List Text)
          → every is_inline lines ≡ true
          → every is_inline (new_lines loads key value lines) ≡ true
      inline-new_lines [] h = h
      inline-new_lines (line ∷ lines) h =
          let written : is_inline (key ++ codes ": " ++ value) ≡ true =
            inline-append (key ++ codes ": ") value
              (inline-append key (codes ": ") key_inline separator_inline) value_inline in
          let rest = inline-new_lines lines (ground (arith, h)) in
          elim (Bool-cases (changes loads key value line)) [
            | inl hit ↦ rw hit (ground (arith, written, rest))
            | inr miss ↦ rw miss (ground (arith, h, rest))
          ]

      is_nil-new_lines :
          (lines : List Text)
          → exists (changes loads key value) lines ≡ true
          → is_nil (new_lines loads key value lines) ≡ false
      is_nil-new_lines [] there = cc
      is_nil-new_lines (line ∷ lines) there = refl

      written-lines :
          (text written : Text) (keys : List Text)
          → update_simple_frontmatter ((key, value) ∷ []) text ≡ (some written, keys)
          → (is_nil (update_lines ((key, value) ∷ []) (trim_lines text) []).1 ≡ false)
            × (written
                ≡ join_lines (update_lines ((key, value) ∷ []) (trim_lines text) []).0
                  ++ codes "\n")
      unfolding update_simple_frontmatter
      written-lines text written keys h =
          let now = update_lines ((key, value) ∷ []) (trim_lines text) [] in
          let first : (if is_nil now.1 then none else some (join_lines now.0 ++ codes "\n"))
              ≡ some written =
            ap (λ p. p.0) h in
          elim (Bool-cases (is_nil now.1)) [
            | inl unchanged ↦
                let no_text : none ≡ some written = sym (if-then _ _ unchanged) ∙ first in cc
            | inr changed ↦
                let same : some (join_lines now.0 ++ codes "\n") ≡ some written =
                  sym (if-else _ _ changed) ∙ first in
                (changed, cc)
          ]

      -- Where the update of a key writes a file, and each line of the old file that sets the key begins
      -- with it and a colon, the lines of the new file have the fields that the old lines have, with the
      -- key set to what the value reads as: each other field is as it was. The key is one that a line
      -- can begin with, the value is not blank, and neither has a line boundary.
      pub fields_of_lines-update_simple_frontmatter :
          (text written : Text) (keys : List Text)
          → update_simple_frontmatter ((key, value) ∷ []) text ≡ (some written, keys)
          → every (is_spelled key) (trim_lines text) ≡ true
          → (j : Text)
          → field_of j (fields_of_lines loads (trim_lines written))
            ≡ field_of j (
                with_field key
                  (value_of loads (strip is_space value))
                  (fields_of_lines loads (trim_lines text)))
      fields_of_lines-update_simple_frontmatter text written keys h spelled j =
          let (reported, is_written) = written-lines text written keys h in
          let lines = trim_lines text in
          let there : exists (changes loads key value) lines ≡ true =
            ground (arith, sym (is_nil-update_lines loads key value lines []) ∙ reported) in
          let is_new = new_lines-update_lines loads key value lines [] in
          let again : trim_lines written ≡ new_lines loads key value lines =
            ap trim_lines (is_written ∙ ap (λ ls. join_lines ls ++ codes "\n") is_new)
            ∙ trim_lines-join_lines (new_lines loads key value lines) (is_nil-new_lines lines there)
                (inline-new_lines lines (inline-trim_lines text)) in
          ap (λ ls. field_of j (fields_of_lines loads ls)) (again ∙ sym is_new)
          ∙ fields_of_lines-update_lines loads key value is set lines reported spelled j
