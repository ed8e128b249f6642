-- ===== src/Automator/Hooks/Tests.antt =====
-- Witnesses of the Stop hook.
use bowerbird.Base.{ℕ, String, true, false, ◌≡◌, refl, ◌⊎◌, none, some, List, [], ◌∷◌, ◌++◌}
use bowerbird.Base.Int.{pos}
use bowerbird.Base.Text.{codes, within, text_eq, after_prefix, drop_while, split_on}
use bowerbird.Config.Value.{scalar, array, table, nil, cons, end, field, get, put}
use bowerbird.Automator.Json.{Json, Object, int, text}
use bowerbird.Automator.Hooks.{
  Scan, Python, value, Update, hook_normalized, holds, is_own, is_int, ensure_field, normalize,
  scan_list, scan_hook, scan_entry, settle, rooted, prepare_json_stop_hook, ensure_json_stop_hook,
}
use bowerbird.Automator.Hooks.Command.{
  strip_env_prefix, is_python_command, runs_stop_hook, is_stop_hook,
}
use bowerbird.Automator.Hooks.Command.Env.{assigned, unset, spelled_all, is_stop_hook-env}
use bowerbird.Automator.Hooks.Repeat.{nothing_to_do, ensure_json_stop_hook-again}
use bowerbird.Automator.Hooks.Kept.{hook_at, Keeps, Keeps-settle}

abbrev J : Type 0
J = Json ℕ

-- A text of json is its value, and a command is one word.
abbrev plain : Python ℕ J
plain = record {
  real_is = λ x n. false;
  split_words = λ v. none;
  is_digit = within b'0' b'9';
  loads = λ v. some v;
  dumps = λ v. v;
}

abbrev command : String
command = "story-automator stop-hook"

abbrev ours : Object ℕ
ours = field "command" (scalar (text command)) (field "timeout" (scalar (int (pos 5))) end)

abbrev theirs : Object ℕ
theirs = field "command" (scalar (text "other")) end

abbrev entry : J
entry = table (field "hooks" (array (cons (table theirs) (cons (table ours) nil))) end)

abbrev stop : Object ℕ
stop = field "Stop" (array (cons entry nil)) end

abbrev root : Object ℕ
root = field "hooks" (table stop) end

abbrev fixed : Object ℕ
fixed =
    field "command" (scalar (text command))
      (field "timeout" (scalar (int (pos 10))) (field "type" (scalar (text "command")) end))

abbrev root_fixed : J
root_fixed = table (
    field "hooks"
      (table (
        field "Stop"
          (array (
            cons (table (field "hooks" (array (cons (table theirs) (cons (table fixed) nil))) end))
              nil))
          end))
      end)

abbrev update_fixed : Update J
update_fixed = record {
  changed = true;
  reason = hook_normalized;
  written = true;
  contents = some root_fixed;
}

ensure_run :
    ensure_json_stop_hook plain command (pos 10) none (holds (table root))
    ≡ value (update_fixed, holds root_fixed)
unfolding ensure_json_stop_hook prepare_json_stop_hook scan_list scan_entry scan_hook is_own is_int
    normalize ensure_field get put is_stop_hook
ensure_run = refl

ensure_json_stop_hook-again_example :
    ensure_json_stop_hook plain command (pos 10) none (holds root_fixed)
    ≡ value (nothing_to_do plain command (pos 10) none, holds root_fixed)
ensure_json_stop_hook-again_example =
    ensure_json_stop_hook-again plain command (pos 10) none (λ v. refl) (holds (table root))
      (holds root_fixed) update_fixed ensure_run

abbrev begun : Scan
begun = record { exists_ = false; needs_update = false }

Keeps-settle_example :
    ((settle plain command
        (pos 10)
        none
        root
        stop
        (scan_list (scan_entry plain command (pos 10) none) (entry ∷ []) begun)).contents
      ≡ none)
    ⊎ ((entries' : List J) × ((settle plain command
            (pos 10)
            none
            root
            stop
            (scan_list (scan_entry plain command (pos 10) none) (entry ∷ []) begun)).contents
          ≡ some (rooted plain command (pos 10) none root stop entries'))
        × ((v' : J) × (hook_at entries' 0 0 ≡ some v')
            × Keeps plain command (pos 10) none (table theirs) v'))
unfolding get
Keeps-settle_example =
    Keeps-settle plain command (pos 10) none root stop (entry ∷ []) begun 0 0 (table theirs) refl

is_stop_hook-env_example :
    is_stop_hook (within b'0' b'9') (
      some (
        codes "/usr/bin/env"
        ∷ (spelled_all (assigned b'A' [] (codes "1") ∷ unset (codes "B") ∷ [])
            ++ (codes "python3" ∷ codes "-m" ∷ []))))
    ≡ is_stop_hook (within b'0' b'9') (some (codes "python3" ∷ codes "-m" ∷ []))
unfolding split_on text_eq
is_stop_hook-env_example =
    is_stop_hook-env (within b'0' b'9') (codes "/usr/bin/env")
      (assigned b'A' [] (codes "1") ∷ unset (codes "B") ∷ []) (codes "python3") (codes "-m" ∷ [])
      refl (refl, (tt, tt)) (refl, refl, refl)

python_run :
    is_stop_hook
      (within b'0' b'9')
      (some (codes "python3.11" ∷ codes "-m" ∷ codes "story_automator" ∷ codes "stop-hook" ∷ []))
    ≡ true
unfolding is_stop_hook strip_env_prefix runs_stop_hook is_python_command split_on text_eq
    after_prefix drop_while
python_run = refl
