-- ===== src/Config/Layers.antt =====
-- Which layer decides a dotted path, and what each script does with files that cannot be read.
use bowerbird.Base.{
  String, ◌≡◌, refl, sym, ap, ◌∙◌, subst, Bool, Option, none, some, List, [], ◌∷◌, ◌++◌, All,
  Result, ok, ok-injective, >>=-eq-ok, foldl,
}
use bowerbird.Config.Value.{Value, scalar, array, table}
use bowerbird.Config.Merge.{deep_merge, extract}
use bowerbird.Config.Merge.Paths.{IsUntouched, extract-deep_merge, extract-deep_merge_untouched}
use bowerbird.Config.Merge.Shape.{IsDict}
use bowerbird.Config.Merge.Tables.{MergedAt}

module _ {S : Type 0} (same : S → S → Bool) where
  -- The later layers are merged over the earlier ones.
  abbrev pub merge_layers : Value S → List (Value S) → Result (Value S)
  merge_layers = foldl (deep_merge same)

  untouched_layers :
      (parts : List String) (base : Value S) (layers : List (Value S)) {result : Value S}
      → All IsDict layers
      → All (λ l. IsUntouched l parts) layers
      → merge_layers base layers ≡ ok result
      → extract result parts ≡ extract base parts
  untouched_layers parts base [] d u e =
      subst (λ r. extract r parts ≡ extract base parts) (ok-injective e) refl
  untouched_layers parts base (l ∷ layers) d u e =
      let (m, first, rest) = >>=-eq-ok (deep_merge same base l) (λ r. merge_layers r layers) e in
      untouched_layers parts m layers d.1 u.1 rest
      ∙ extract-deep_merge_untouched same parts base l d.0 first u.0

  -- A scalar replaces whatever the base has.
  scalar_replaces :
      (b r : Option (Value S)) (s : S) → MergedAt same b (some (scalar s)) r → r ≡ some (scalar s)
  unfolding deep_merge
  scalar_replaces none r s m = m
  scalar_replaces (some (scalar t)) r s (w, merged, e) = e ∙ ap some (sym (ok-injective merged))
  scalar_replaces (some (array vs)) r s (w, merged, e) = e ∙ ap some (sym (ok-injective merged))
  scalar_replaces (some (table fs)) r s (w, merged, e) = e ∙ ap some (sym (ok-injective merged))

  -- A scalar at a path of one layer, of which no later layer says anything, is in the result.
  pub extract-merge_layers :
      (parts : List String) (base : Value S) (lower : List (Value S)) (l : Value S)
      (higher : List (Value S)) (s : S) {result : Value S}
      → All IsDict lower
      → IsDict l
      → All IsDict higher
      → extract l parts ≡ some (scalar s)
      → All (λ h. IsUntouched h parts) higher
      → merge_layers base (lower ++ (l ∷ higher)) ≡ ok result
      → extract result parts ≡ some (scalar s)
  extract-merge_layers parts base [] l higher s dl d dh x u e =
      let (m, first, rest) = >>=-eq-ok (deep_merge same base l) (λ r. merge_layers r higher) e in
      untouched_layers parts m higher dh u rest
      ∙ scalar_replaces (extract base parts) (extract m parts) s
          (extract-deep_merge same parts base l d first x)
  extract-merge_layers parts base (b ∷ lower) l higher s dl d dh x u e =
      let (m, first, rest) =
        >>=-eq-ok (deep_merge same base b) (λ r. merge_layers r (lower ++ (l ∷ higher))) e in
      extract-merge_layers parts m lower l higher s dl.1 d dh x u rest
