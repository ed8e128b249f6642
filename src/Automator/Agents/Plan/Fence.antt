-- ===== src/Automator/Agents/Plan/Fence.antt =====
-- The block of a written plan is what was put into it.
use bowerbird.Base.{
  ℕ, true, false, not, ◌==◌, ◌≡◌, refl, ap, ◌∙◌, Bool-cases, inl, inr, none, some, is_some, or_else,
  [], ◌∷◌, ◌++◌, every, arith,
}
use bowerbird.Base.Text.{Text, codes, is_space, after_prefix, drop_while, strip}
use bowerbird.Automator.Agents.Plan.{
  backquotes, scan_block, block_from, block_here, search_block, extract_json_block, whole_text,
}

-- The text has no backquote.
abbrev pub IsPlain : Text → Type 0
IsPlain s = every (λ c. not (c == 96)) s ≡ true

abbrev closing : Text
closing = codes "\n```\n"

plain-head : (c : ℕ) (s : Text) → IsPlain (c ∷ s) → (96 == c) ≡ false
plain-head c s h = ground (arith, h)

IsPlain-tail : (c : ℕ) (s : Text) → IsPlain (c ∷ s) → IsPlain s
IsPlain-tail c s h = ground (arith, h)

no_fence_at :
    (c : ℕ) (s : Text) → (96 == c) ≡ false → is_some (after_prefix backquotes (c ∷ s)) ≡ false
unfolding after_prefix
no_fence_at c s h = rw h

brace_is_no_space : is_space 125 ≡ false
unfolding is_space
brace_is_no_space = refl

closing_is_fence : is_some (after_prefix backquotes (drop_while is_space closing)) ≡ true
unfolding is_space drop_while after_prefix
closing_is_fence = refl

-- No fence follows a character that is not the last of the block.
no_fence :
    (s : Text)
    → IsPlain s
    → is_some (after_prefix backquotes (drop_while is_space (s ++ (125 ∷ closing)))) ≡ false
unfolding drop_while
no_fence [] h = rw brace_is_no_space (no_fence_at 125 closing refl)
no_fence (c ∷ s) h = elim (Bool-cases (is_space c)) [
  | inl space ↦ rw space (no_fence s (IsPlain-tail c s h))
  | inr other ↦ rw other (no_fence_at c (s ++ (125 ∷ closing)) (plain-head c s h))
]

scan_block-block :
    (inner : Text)
    → IsPlain inner
    → scan_block (inner ++ (125 ∷ closing)) ≡ some (inner ++ (125 ∷ []))
unfolding scan_block
scan_block-block [] h = rw closing_is_fence
scan_block-block (c ∷ inner) h = ground (
  arith,
  no_fence inner (IsPlain-tail c inner h),
  scan_block-block inner (IsPlain-tail c inner h),
)

after_prefix-none :
    (c : ℕ) (word s : Text) → (96 == c) ≡ false → after_prefix (96 ∷ word) (c ∷ s) ≡ none
unfolding after_prefix
after_prefix-none c word s h = rw h

block_here-none : (c : ℕ) (s : Text) → (96 == c) ≡ false → block_here (c ∷ s) ≡ none
block_here-none c s h =
    ap (λ o. elim o [ none ↦ none | some rest ↦ block_from (drop_while is_space rest) ])
      (after_prefix-none c (codes "``json") s h)

search_block-skip : (c : ℕ) (s : Text) → (96 == c) ≡ false → search_block (c ∷ s) ≡ search_block s
unfolding search_block
search_block-skip c s h = ap (λ o. or_else o (search_block s)) (block_here-none c s h)

search_block-front :
    (front rest : Text) → IsPlain front → search_block (front ++ rest) ≡ search_block rest
search_block-front [] rest h = refl
search_block-front (c ∷ front) rest h =
    search_block-skip c (front ++ rest) (plain-head c front h)
    ∙ search_block-front front rest (IsPlain-tail c front h)

search_block-block :
    (inner : Text)
    → IsPlain inner
    → search_block (codes "```json\n" ++ (123 ∷ (inner ++ (125 ∷ closing))))
      ≡ some (123 ∷ (inner ++ (125 ∷ [])))
unfolding search_block after_prefix drop_while is_space
search_block-block inner h = rw (scan_block-block inner h)

pub extract_json_block-written :
    (front inner : Text)
    → IsPlain front
    → IsPlain inner
    → extract_json_block (front ++ (codes "```json\n" ++ (123 ∷ (inner ++ (125 ∷ closing)))))
      ≡ 123 ∷ (inner ++ (125 ∷ []))
unfolding extract_json_block
extract_json_block-written front inner h k =
    let block = codes "```json\n" ++ (123 ∷ (inner ++ (125 ∷ closing))) in
    ap (λ o. elim o [ some b ↦ b | none ↦ whole_text (strip is_space (front ++ block)) ])
      (search_block-front front block h ∙ search_block-block inner k)
