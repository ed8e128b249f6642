-- ===== src/Automator/Frontmatter/Lines.antt =====
-- What a line of the frontmatter says that begins with a key and a colon.
use bowerbird.Base.{
  ℕ, Bool, true, false, not, ◌&&◌, ◌==◌, ==_iff, ◌≡◌, refl, ap, ◌∙◌, inl, inr, some, is_some, [],
  ◌∷◌, ◌++◌, every, Bool-cases, if-then, if-else, arith,
}
use bowerbird.Base.Text.{Text, is_space, after_prefix, drop_while, rstrip, strip, cut_at, trimmed}
use bowerbird.Automator.Sprint.{is_comment}
use bowerbird.Automator.Frontmatter.{entry, entry_parts, front_line}

abbrev pub has_no_colon : Text → Bool
has_no_colon s = every (λ c. not (c == 58)) s

-- A key that a line can begin with: it is stripped, is not empty, has no colon and no `#` in front.
abbrev pub IsKey : Text → Type 0
IsKey [] = ⊥
IsKey (c ∷ s) =
    (is_space c ≡ false)
    × ((c == b'#') ≡ false)
    × (has_no_colon (c ∷ s) ≡ true)
    × (strip is_space (c ∷ s) ≡ c ∷ s)

pub after_prefix_self : (s t : Text) → after_prefix s (s ++ t) ≡ some t
unfolding after_prefix
after_prefix_self [] t = refl
after_prefix_self (c ∷ s) t = ground (arith, after_prefix_self s t)

-- A text that begins with another is that one and a rest.
pub after_prefix-some : (s line t : Text) → after_prefix s line ≡ some t → line ≡ s ++ t
unfolding after_prefix
after_prefix-some [] line t h = cc
after_prefix-some (c ∷ s) [] t h = cc
after_prefix-some (c ∷ s) (d ∷ line) t h = elim (Bool-cases (c == d)) [
  | inl same ↦
      let here : c ≡ d = (==_iff c d).0 same in
      let tail : after_prefix s line ≡ some t = cc in
      let rest = after_prefix-some s line t tail in cc
  | inr differ ↦ cc
]

pub cut_at-key :
    (s rest : Text) → has_no_colon s ≡ true → cut_at (58 ∷ []) (s ++ (58 ∷ rest)) ≡ some (s, rest)
unfolding cut_at after_prefix
cut_at-key [] rest h = refl
cut_at-key (c ∷ s) rest h = ground (arith, h, cut_at-key s rest)

-- A first character that is no space stays the first.
trimmed-head :
    (c : ℕ) (s : Text) → is_space c ≡ false → (t : Text) × (trimmed (is_space c) c s ≡ c ∷ t)
trimmed-head c [] h = ([], ap (λ b. trimmed b c []) h)
trimmed-head c (d ∷ s) h = (d ∷ s, ap (λ b. trimmed b c (d ∷ s)) h)

rstrip-head :
    (c : ℕ) (s : Text) → is_space c ≡ false → (t : Text) × (rstrip is_space (c ∷ s) ≡ c ∷ t)
unfolding rstrip
rstrip-head c s h = trimmed-head c (rstrip is_space s) h

strip-head :
    (c : ℕ) (s : Text) → is_space c ≡ false → is_comment (strip is_space (c ∷ s)) ≡ (c == b'#')
unfolding strip drop_while
strip-head c s h = let (t, same) = rstrip-head c s h in rw h (ap is_comment same)

pub front_line-key :
    (key rest : Text)
    → IsKey key
    → front_line (key ++ (58 ∷ rest)) ≡ entry key (strip is_space rest)
unfolding front_line
front_line-key [] rest h = elim h [ ]
front_line-key (c ∷ s) rest (start, mark, plain, tidy) =
    if-else _ _ (strip-head c (s ++ (58 ∷ rest)) start ∙ mark)
    ∙ if-then _ _ (
        ap (λ b. not b && is_some (cut_at (58 ∷ []) (s ++ (58 ∷ rest)))) start
        ∙ ap is_some (cut_at-key s rest (ground (arith, plain))))
    ∙ ap (entry_parts _) (cut_at-key (c ∷ s) rest plain)
    ∙ ap (λ k. entry k (strip is_space rest)) tidy
