-- ===== src/Lib.antt =====
-- The Python programs of the bowerbird repository.
--
-- Bench models the commands that judge benchmark summaries in continuous integration.
-- scripts/check-shim-bench-p99.py is Bench.Shim, scripts/check-daemon-bench-p99.py is Bench.Daemon
-- (both over the JSON values of Bench.Json), and scripts/run-bench-gate.py, which runs a benchmark
-- and one of the gates and measures once more on a policy failure, is Bench.Wrapper. `load_summary`,
-- `main` and the other names are the source's; the long `main` of each script is cut into
-- `absolute_gate`, `regression_gate`, `judge`, `with_baseline` and `with_current`, or for the wrapper
-- into `first_attempt` and `second_attempt`. Floats are the parameter record Floats and integers are
-- exact; a printed line is a constructor with the numbers that it shows. Processes, files and the
-- environment are the parameter record Host, over any machine state.
--
-- _bmad/scripts holds two commands that resolve layered TOML configuration. Config models them:
-- Config.Value the values of tomllib, Config.Merge the structural merge (`_detect_keyed_merge_field`
-- to `deep_merge`, and `extract_key`), which both files spell alike, Config.Central the command
-- resolve_config.py and Config.Custom the command resolve_customization.py. The files, tomllib and
-- json are the record Config.Files.
--
-- FileList models scripts/check-file-list.py, which audits a story's File List against git.
-- FileList.Story is the story's side (`extract_file_list`, `first_path_token`, `looks_like_path`; the
-- regular expressions are functions by clauses on the line), FileList.Changes git's side
-- (`parse_porcelain` to `apply_ignores`), FileList.Audit the comparison and the exit status. A text is
-- a list of code points (Base.Text). What git answers is the record Git; `\w`, json.loads and fnmatch
-- are parameters. `render_text` and the JSON output are not modelled.
--
-- Automator models .agents/skills/bmad-story-automator/src/story_automator:
-- `parse_story_range` of core/epic_parser.py (Automator.Range), where a set of numbers is a list
-- without duplicates and `str.lower`, `str.isdigit` and `int` are parameters, and
-- `sprint_status_epic` of core/sprint.py (Automator.Sprint), where the status file is its text, or
-- nothing if it does not exist.
--
-- Automator.Hooks is the Stop hook of core/stop_hooks.py in a JSON file: `_prepare_json_stop_hook` is
-- `prepare_json_stop_hook`, the loop that changes the hooks in place is `scan_list`, and json's texts
-- are a parameter with the law that what is dumped is loaded again. Automator.Hooks.Command is the
-- recognition of its command line. Automator.Session is the state file of a tmux session and
-- `_reconcile_runner_state` of core/tmux_runtime.py, and Automator.Session.Status is
-- `_runner_session_status`. The machine (the state file, processes, the pane, the clock) is the record
-- Host over any type of machines, and what is read off the captured pane, the output file and the
-- legacy mode are the record Screen. A `float` is finite, and the order of new keys is not modelled.
--
-- Automator.Policy is the orchestration policy of core/runtime_policy.py: the validation and the
-- accessors, Policy.Merge how the effective policy is put together, Policy.Assets and Policy.Paths the
-- files a policy names, Policy.Load the bundled, the effective and the pinned policy, and
-- Policy.StateFile which state file a run has. The files are the record Disk of Policy.Disk, over any
-- type of paths; core/frontmatter.py and core/runtime_layout.py are functions of the records Sources,
-- Disk and Surroundings. A PolicyError is the exception `policy_error`, without its text. Writing a
-- snapshot and the summary of the state fields are not modelled.
--
-- Automator.Frontmatter is core/frontmatter.py on the text of a file: `parse_simple_frontmatter` cut into
-- `front_line`, what a line says, and `parse_line`, what it does to the fields; the lookups; and
-- `update_simple_frontmatter`. Automator.Frontmatter.Range reads the story range and the last action.
--
-- Automator.Agents is core/agent_config.py: the configuration of the agents and its resolution for a
-- task, and Agents.Plan the plan that `build_agents_file` writes and `resolve_agents` reads, with the
-- search for its JSON block. Automator.StoryKeys is `normalize_story_key` of core/story_keys.py and
-- `sprint_status_get` of core/sprint.py, on the text of the status file. Automator.Verify is
-- core/success_verifiers.py: the review contract, `review_completion` and `epic_complete`, which use the
-- story keys and the sprint status. json and the searches of the artifacts are the records Codec and
-- Project; `session_exit`, `create_story_artifact` and the presets file are not modelled.
--
-- The loops are over finite lists and recur on them, but for the wait of `_wait_for_terminal_state`,
-- which takes a number of ticks as fuel; more ticks than the deadline allows change nothing.
-- Argument parsing by argparse is not modelled. Base.Script is the exit and exception monad of a script,
-- Base.Raise that of a part.
pub mod Base
pub mod Bench
pub mod Config
pub mod FileList
pub mod Automator
