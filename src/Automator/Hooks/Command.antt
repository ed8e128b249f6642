-- ===== src/Automator/Hooks/Command.antt =====
-- Which command lines run the Stop hook: `_is_story_automator_stop_hook_command`,
-- `_strip_env_prefix` and `_is_python_command` of
-- .agents/skills/bmad-story-automator/src/story_automator/core/stop_hooks.py.
pub mod Env
use bowerbird.Base.{
  ℕ, Bool, true, false, not, ◌&&◌, ◌||◌, ◌==◌, Option, none, some, List, [], ◌∷◌, every, exists,
  is_some, if◌then◌else◌,
}
use bowerbird.Base.Text.{Text, codes, text_eq, after_prefix, drop_while, split_on}

-- `Path(text).name`: the last part that is neither empty nor a full stop.
abbrev pub name_among : Text → List Text → Text
name_among last [] = last
name_among last (part ∷ parts) =
    name_among (if text_eq part [] || text_eq part (codes ".") then last else part) parts

abbrev pub path_name : Text → Text
path_name path = name_among [] (split_on b'/' path)

-- `{"-i", "-0"}`, an `--unset=` or an assignment: one part that is stepped over.
unfoldable pub is_skipped : Text → Bool
is_skipped part =
    text_eq part (codes "-i")
    || text_eq part (codes "-0")
    || is_some (after_prefix (codes "--unset=") part)
    || (exists (λ c. c == b'=') part && not (is_some (after_prefix (codes "-") part)))

abbrev pub takes_value : Text → Bool
takes_value part = text_eq part (codes "-u") || text_eq part (codes "--unset")

-- The loop of `_strip_env_prefix`, on the parts from `idx`.
unfoldable pub behind_env : List Text → List Text
behind_env [] = []
behind_env (part ∷ []) = if is_skipped part then [] else part ∷ []
behind_env (part ∷ next ∷ parts) =
    let one = behind_env (next ∷ parts) in
    let two = behind_env parts in
    if takes_value part then two else if is_skipped part then one else part ∷ next ∷ parts

unfoldable pub strip_env_prefix : List Text → List Text
strip_env_prefix [] = []
strip_env_prefix (part ∷ parts) =
    if text_eq (path_name part) (codes "env") then behind_env parts else part ∷ parts

module _ (is_digit : ℕ → Bool) where
  -- `\d+`
  abbrev pub digits : Text → Bool
  digits [] = false
  digits (c ∷ s) = every is_digit (c ∷ s)

  -- What may follow `python`: nothing, `\d+`, or `\d+\.\d+`.
  abbrev pub minor : Text → Bool
  minor [] = true
  minor (c ∷ s) = c == b'.' && digits s

  abbrev pub is_version : Text → Bool
  is_version [] = true
  is_version (c ∷ s) = is_digit c && minor (drop_while is_digit s)

  abbrev pub is_python_suffix : Option Text → Bool
  is_python_suffix none = false
  is_python_suffix (some suffix) = is_version suffix

  unfoldable pub is_python_command : Text → Bool
  is_python_command command_name = is_python_suffix (after_prefix (codes "python") command_name)

  abbrev pub is_stop_word : List Text → Bool
  is_stop_word [] = false
  is_stop_word (part ∷ parts) = text_eq part (codes "stop-hook")

  -- The arguments behind `python`.
  abbrev pub is_module_call : List Text → Bool
  is_module_call (flag ∷ name ∷ parts) =
      text_eq flag (codes "-m") && text_eq name (codes "story_automator") && is_stop_word parts
  is_module_call _ = false

  unfoldable pub runs_stop_hook : List Text → Bool
  runs_stop_hook [] = false
  runs_stop_hook (program ∷ parts) =
      let command_name = path_name program in
      if text_eq command_name (codes "story-automator")
      then is_stop_word parts
      else is_python_command command_name && is_module_call parts

  -- `none` is a ValueError of `shlex.split`.
  unfoldable pub is_stop_hook : Option (List Text) → Bool
  is_stop_hook none = false
  is_stop_hook (some parts) = runs_stop_hook (strip_env_prefix parts)
