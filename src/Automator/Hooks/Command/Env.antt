-- ===== src/Automator/Hooks/Command/Env.antt =====
-- Commands behind `env`.
use bowerbird.Base.{
  ℕ, Bool, true, false, ◌≡◌, ◌==◌, refl, ap, ◌∙◌, some, List, [], ◌∷◌, ◌++◌, All, exists, if-then,
  if-else, append_assoc, arith,
}
use bowerbird.Base.Text.{Text, codes, text_eq, after_prefix}
use bowerbird.Automator.Hooks.Command.{
  path_name, is_skipped, takes_value, behind_env, strip_env_prefix, is_stop_hook,
}

-- What `env` takes in front of the command: `-i`, `-0`, `-u NAME`, `--unset NAME`, `--unset=NAME`, and
-- `NAME=value`, whose name is given by its first character and the others.
pub data Setting : Type 0 where
  ignore_environment null_ended : Setting
  unset unset_long unset_joined : Text → Setting
  assigned : ℕ → Text → Text → Setting

-- The parts of the command line for a setting.
abbrev pub spelled : Setting → List Text
spelled ignore_environment = codes "-i" ∷ []
spelled null_ended = codes "-0" ∷ []
spelled (unset name) = codes "-u" ∷ name ∷ []
spelled (unset_long name) = codes "--unset" ∷ name ∷ []
spelled (unset_joined name) = (codes "--unset=" ++ name) ∷ []
spelled (assigned c name value) = (c ∷ (name ++ (b'=' ∷ value))) ∷ []

abbrev pub spelled_all : List Setting → List Text
spelled_all [] = []
spelled_all (setting ∷ settings) = spelled setting ++ spelled_all settings

-- A name that is assigned does not begin with a hyphen.
abbrev pub IsSetting : Setting → Type 0
IsSetting (assigned c name value) = (c == b'-') ≡ false
IsSetting _ = Unit

-- The command itself is not `env`, does not begin with a hyphen and has no equals sign.
abbrev pub IsProgram : Text → Type 0
IsProgram [] = ⊥
IsProgram (c ∷ s) =
    ((c == b'-') ≡ false)
    × (exists (λ d. d == b'=') (c ∷ s) ≡ false)
    × (text_eq (path_name (c ∷ s)) (codes "env") ≡ false)

hyphen_first : (c : ℕ) → (c == b'-') ≡ false → (b'-' == c) ≡ false
hyphen_first c h = ground (arith, h)

takes_value-word : (c : ℕ) (s : Text) → (c == b'-') ≡ false → takes_value (c ∷ s) ≡ false
unfolding text_eq
takes_value-word c s h = rw h refl

-- A part that does not begin with a hyphen is stepped over where it has an equals sign.
is_skipped-word :
    (c : ℕ) (s : Text) → (c == b'-') ≡ false → is_skipped (c ∷ s) ≡ exists (λ d. d == b'=') (c ∷ s)
unfolding is_skipped text_eq after_prefix
is_skipped-word c s h = rw h (rw (hyphen_first c h) (ground arith))

exists-equals : (name value : Text) → exists (λ d. d == b'=') (name ++ (b'=' ∷ value)) ≡ true
exists-equals [] value = ground arith
exists-equals (c ∷ name) value = ground (arith, exists-equals name value)

behind_env-word :
    (c : ℕ) (s : Text) (rest : List Text)
    → (c == b'-') ≡ false
    → exists (λ d. d == b'=') (c ∷ s) ≡ true
    → behind_env ((c ∷ s) ∷ rest) ≡ behind_env rest
unfolding behind_env
behind_env-word c s [] h k = if-then _ _ (is_skipped-word c s h ∙ k)
behind_env-word c s (next ∷ rest) h k =
    if-else _ _ (takes_value-word c s h) ∙ if-then _ _ (is_skipped-word c s h ∙ k)

-- A setting is stepped over.
behind_env-spelled :
    (setting : Setting) (rest : List Text)
    → IsSetting setting
    → behind_env (spelled setting ++ rest) ≡ behind_env rest
unfolding behind_env is_skipped text_eq after_prefix
behind_env-spelled ignore_environment [] h = refl
behind_env-spelled ignore_environment (next ∷ rest) h = refl
behind_env-spelled null_ended [] h = refl
behind_env-spelled null_ended (next ∷ rest) h = refl
behind_env-spelled (unset name) rest h = refl
behind_env-spelled (unset_long name) rest h = refl
behind_env-spelled (unset_joined name) [] h = refl
behind_env-spelled (unset_joined name) (next ∷ rest) h = refl
behind_env-spelled (assigned c name value) rest h =
    behind_env-word c (name ++ (b'=' ∷ value)) rest h (ground (arith, exists-equals name value))

behind_env-spelled_all :
    (settings : List Setting) (rest : List Text)
    → All IsSetting settings
    → behind_env (spelled_all settings ++ rest) ≡ behind_env rest
behind_env-spelled_all [] rest h = refl
behind_env-spelled_all (setting ∷ settings) rest (h, hs) =
    ap behind_env (append_assoc (spelled setting) (spelled_all settings) rest)
    ∙ (behind_env-spelled setting (spelled_all settings ++ rest) h
        ∙ behind_env-spelled_all settings rest hs)

behind_env-program :
    (program : Text) (args : List Text)
    → IsProgram program
    → behind_env (program ∷ args) ≡ program ∷ args
unfolding behind_env
behind_env-program [] args h = elim h [ ]
behind_env-program (c ∷ s) [] (a, b, _) = if-else _ _ (is_skipped-word c s a ∙ b)
behind_env-program (c ∷ s) (arg ∷ args) (a, b, _) =
    if-else _ _ (takes_value-word c s a) ∙ if-else _ _ (is_skipped-word c s a ∙ b)

no_env : (program : Text) → IsProgram program → text_eq (path_name program) (codes "env") ≡ false
no_env [] h = elim h [ ]
no_env (c ∷ s) (_, _, h) = h

-- A command line that starts with `env` and any of its settings, `-i`, `-0`, `-u NAME`,
-- `--unset NAME`, `--unset=NAME` and assignments, is a stop hook exactly when what follows them is
-- one: a command that is not `env`, does not begin with a hyphen and has no equals sign, and its
-- arguments.
pub is_stop_hook-env :
    (is_digit : ℕ → Bool) (env : Text) (settings : List Setting) (program : Text) (args : List Text)
    → text_eq (path_name env) (codes "env") ≡ true
    → All IsSetting settings
    → IsProgram program
    → is_stop_hook is_digit (some (env ∷ (spelled_all settings ++ (program ∷ args))))
      ≡ is_stop_hook is_digit (some (program ∷ args))
unfolding is_stop_hook strip_env_prefix
is_stop_hook-env is_digit env settings program args e h p = rw e (
    rw (no_env program p) (
      rw (behind_env-spelled_all settings (program ∷ args) h)
        (rw (behind_env-program program args p) refl)))
