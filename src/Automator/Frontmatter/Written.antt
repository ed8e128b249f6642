-- ===== src/Automator/Frontmatter/Written.antt =====
-- The lines that are written are the lines that are read.
use bowerbird.Base.{
  ℕ, Bool, true, false, not, ◌&&◌, ◌==◌, ◌≡◌, refl, ap, ◌∙◌, inl, inr, List, [], ◌∷◌, ◌++◌, every,
  Bool-cases, if-then, if-else, append_assoc, arith,
}
use bowerbird.Base.Text.{
  Text, codes, is_break, rstrip, trimmed, in_front, starts_newline, splitlines,
}
use bowerbird.Automator.Sprint.{trimmed_all, trim_lines}
use bowerbird.Automator.Frontmatter.{is_nil, join_lines}

-- The text is within a line.
abbrev pub is_inline : Text → Bool
is_inline s = every (λ c. not (is_break c)) s

abbrev is_return : ℕ → Bool
is_return c = c == 13

return_is_break : (c : ℕ) → is_break c ≡ false → is_return c ≡ false
unfolding is_break
return_is_break c h = ground (arith, h)

rstrip-inline : (s : Text) → is_inline s ≡ true → rstrip is_return s ≡ s
unfolding rstrip
rstrip-inline [] h = refl
rstrip-inline (c ∷ []) h = ap (λ b. trimmed b c []) (return_is_break c (ground (arith, h)))
rstrip-inline (c ∷ d ∷ s) h =
    ap (trimmed (is_return c) c) (rstrip-inline (d ∷ s) (ground (arith, h)))
    ∙ ap (λ b. trimmed b c (d ∷ s)) (return_is_break c (ground (arith, h)))

newline_is_break : is_break 10 ≡ true
unfolding is_break
newline_is_break = refl

splitlines-nil : splitlines [] ≡ []
unfolding splitlines
splitlines-nil = refl

splitlines-inline :
    (s rest : Text) → is_inline s ≡ true → splitlines (s ++ (10 ∷ rest)) ≡ s ∷ splitlines rest
unfolding splitlines
splitlines-inline [] rest h = if-then _ _ newline_is_break
splitlines-inline (c ∷ s) rest h =
    let stays : is_break c ≡ false = ground (arith, h) in
    if-else _ _ (ap (λ b. b && starts_newline (s ++ (10 ∷ rest))) (return_is_break c stays))
    ∙ (if-else _ _ stays ∙ ap (in_front c) (splitlines-inline s rest (ground (arith, h))))

trimmed_all-inline : (lines : List Text) → every is_inline lines ≡ true → trimmed_all lines ≡ lines
trimmed_all-inline [] h = refl
trimmed_all-inline (line ∷ lines) h =
    ap (λ s. s ∷ trimmed_all lines) (rstrip-inline line (ground (arith, h)))
    ∙ ap (λ ls. line ∷ ls) (trimmed_all-inline lines (ground (arith, h)))

splitlines-join_lines :
    (line : Text) (lines : List Text)
    → every is_inline (line ∷ lines) ≡ true
    → splitlines (join_lines (line ∷ lines) ++ (10 ∷ [])) ≡ line ∷ lines
unfolding join_lines
splitlines-join_lines line [] h =
    splitlines-inline line [] (ground (arith, h)) ∙ ap (λ ls. line ∷ ls) splitlines-nil
splitlines-join_lines line (next ∷ lines) h =
    ap splitlines (append_assoc line (10 ∷ join_lines (next ∷ lines)) (10 ∷ []))
    ∙ splitlines-inline line _ (ground (arith, h))
    ∙ ap (λ ls. line ∷ ls) (splitlines-join_lines next lines (ground (arith, h)))

in_front-inline :
    (c : ℕ) (lines : List Text)
    → is_break c ≡ false
    → every is_inline lines ≡ true
    → every is_inline (in_front c lines) ≡ true
in_front-inline c [] h k = ground (arith, h)
in_front-inline c (line ∷ lines) h k = ground (arith, h, k)

inline-splitlines : (s : Text) → every is_inline (splitlines s) ≡ true
unfolding splitlines
inline-splitlines [] = refl
inline-splitlines (c ∷ s) = elim (Bool-cases (c == 13 && starts_newline s)) [
  | inl pair ↦ rw pair (inline-splitlines s)
  | inr alone ↦ rw alone (elim (Bool-cases (is_break c)) [
    | inl ends ↦ rw ends (inline-splitlines s)
    | inr stays ↦ rw stays (in_front-inline c (splitlines s) stays (inline-splitlines s))
  ])
]

-- The lines of a text are within a line each.
pub inline-trim_lines : (s : Text) → every is_inline (trim_lines s) ≡ true
unfolding trim_lines
inline-trim_lines s =
    ap (every is_inline) (trimmed_all-inline (splitlines s) (inline-splitlines s))
    ∙ inline-splitlines s

pub trim_lines-join_lines :
    (lines : List Text)
    → is_nil lines ≡ false
    → every is_inline lines ≡ true
    → trim_lines (join_lines lines ++ codes "\n") ≡ lines
unfolding trim_lines
trim_lines-join_lines [] some_line h = cc
trim_lines-join_lines (line ∷ lines) some_line h =
    ap trimmed_all (splitlines-join_lines line lines h) ∙ trimmed_all-inline (line ∷ lines) h
