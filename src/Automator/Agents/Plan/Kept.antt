-- ===== src/Automator/Agents/Plan/Kept.antt =====
-- The plan keeps, for each story and task, the agents that were resolved.
use bowerbird.Base.{
  String, str_eq, eq_iff, true, false, ◌≡◌, refl, sym, ap, subst, ◌∙◌, ◌⊎◌, inl, inr, Option, none,
  some, List, [], ◌∷◌, ◌++◌, append_assoc, if◌then◌else◌, Bool-cases, if-then, if-else, ok, err,
  ok-injective, ◌>>=◌, >>=-eq-ok, value_error, >>=-ok, arith,
}
use bowerbird.Base.Text.{Text, codes}
use bowerbird.Config.Value.{scalar, array, table, Items, nil, cons, get}
use bowerbird.Automator.Json.{Json, Object, Scalar, boolean, is_text, is_truthy}
use bowerbird.Automator.Agents.{
  Names, AgentConfigResolved, is_one_of, parse_agent_config, normalize_fallback_value,
  resolve_agent_for_task,
}
use bowerbird.Automator.Agents.Named.{no_agent, IsTidy, IsKept, resolve_fallback_agent-cases}
use bowerbird.Automator.Agents.Plan.{
  Codec, PlanInput, Answer, agents, words, loaded, stories_of, level_of, fallback_json, selection,
  tasks_json, or_null, story_json, story_fields, build_stories, payload_json, plan_front, plan_text,
  extract_json_block, build_agents_file, answer_for, find_story, resolve_agents, answer_in,
}
use bowerbird.Automator.Agents.Plan.Fence.{IsPlain, extract_json_block-written}

abbrev pub planned_tasks : List String
planned_tasks = "create" ∷ "dev" ∷ "auto" ∷ "review" ∷ []

IsPlain-inner : (inner rest : Text) → IsPlain (123 ∷ (inner ++ rest)) → IsPlain inner
IsPlain-inner [] rest h = refl
IsPlain-inner (c ∷ inner) rest h = ground (arith, h, IsPlain-inner inner rest)

module _ {R : Type 0} where
  -- The first story with the id.
  abbrev pub story_with : String → Items (Scalar R) → Option (Object R)
  story_with story_id nil = none
  story_with story_id (cons (table story) rest) =
      if is_text story_id (get "storyId" story) then some story else story_with story_id rest
  story_with story_id (cons _ rest) = story_with story_id rest

  is_text-or_null : (s : String) (o : Option (Json R)) → is_text s (some (or_null o)) ≡ is_text s o
  is_text-or_null s none = refl
  is_text-or_null s (some v) = refl

module _ {R : Type 0} (names : Names R) (codec : Codec R) where
  open names use {strip, lower}
  open codec use {dumps, loads}

  -- The value that is dumped is loaded again, and is written between braces.
  abbrev pub IsWritten : Json R → Type 0
  IsWritten v =
      (loads (dumps v) ≡ some v) × (inner : Text) × (dumps v ≡ 123 ∷ (inner ++ (125 ∷ [])))

  normalize-kept :
      (v : String) → IsKept names v → normalize_fallback_value names (some (words v)) ≡ v
  unfolding normalize_fallback_value
  normalize-kept v (good, _, same) =
      ap (λ w. if is_one_of no_agent w then "false" else w) same
      ∙ ap (λ b. if b then "false" else v) good

  normalize-fallback_json :
      (f : String)
      → (f ≡ "false") ⊎ IsKept names f
      → normalize_fallback_value names (some (fallback_json names codec f)) ≡ f
  unfolding normalize_fallback_value
  normalize-fallback_json f (inl is) =
      ap (λ g. normalize_fallback_value names (some (fallback_json names codec g))) is ∙ sym is
  normalize-fallback_json f (inr kept) =
      let other : str_eq f "false" ≡ false =
        ground (arith, eq_iff "false" f, eq_iff f "false", kept.0) in
      ap
        (λ b. normalize_fallback_value names (some (if b then scalar (boolean false) else words f)))
        other
      ∙ normalize-kept f kept

  pick-task :
      (chosen : String → Json R) (task : String)
      → is_one_of planned_tasks task ≡ true
      → (if str_eq "create" task
          then some (chosen "create")
          else if str_eq "dev" task
          then some (chosen "dev")
          else if str_eq "auto" task
          then some (chosen "auto")
          else if str_eq "review" task
          then some (chosen "review")
          else none)
        ≡ some (chosen task)
  pick-task chosen task h =
      let at : (name : String) → str_eq name task ≡ true → chosen name ≡ chosen task =
        λ name same. ap chosen ((eq_iff name task).0 same) in
      ground (arith, h, at "create", at "dev", at "auto", at "review")

  get-tasks :
      (config : AgentConfigResolved R) (level task : String)
      → is_one_of planned_tasks task ≡ true
      → get task (tasks_json names codec config level)
        ≡ some (selection names codec (resolve_agent_for_task names config level task))
  unfolding get
  get-tasks config level task h =
      pick-task (λ name. selection names codec (resolve_agent_for_task names config level name))
        task h

  answer-pair :
      (story : Object R) (p f : String)
      → normalize_fallback_value names (some (fallback_json names codec f)) ≡ f
      → answer_for names codec story (some (selection names codec (p, f)))
        ≡ ok (agents (some (words p)) f (get "complexity" story))
  unfolding is_truthy get
  answer-pair story p f h = ap (λ g. ok (agents (some (words p)) g (get "complexity" story))) h

  fallback-kept :
      IsTidy names
      → (config : AgentConfigResolved R) (level task : String)
      → let f = (resolve_agent_for_task names config level task).1 in
        normalize_fallback_value names (some (fallback_json names codec f)) ≡ f
  unfolding resolve_agent_for_task
  fallback-kept tidy config level task =
      normalize-fallback_json _ (resolve_fallback_agent-cases names tidy _)

  -- What the plan answers for a story of its own.
  abbrev pub planned : AgentConfigResolved R → String → String → Answer R
  planned config level task =
      let chosen = resolve_agent_for_task names config level task in
      agents (some (words chosen.0)) chosen.1 (some (words level))

  story_json-answer :
      IsTidy names
      → (config : AgentConfigResolved R) (story : Object R) (level task story_id : String)
        (rest : Items (Scalar R))
      → is_one_of planned_tasks task ≡ true
      → is_text story_id (get "storyId" story) ≡ true
      → find_story names codec story_id task (cons (story_json names codec config story level) rest)
        ≡ ok (planned config level task)
  unfolding find_story get
  story_json-answer tidy config story level task story_id rest h same =
      let own = story_fields names codec config story level in
      let chosen = resolve_agent_for_task names config level task in
      if-then _ _ (is_text-or_null story_id (get "storyId" story) ∙ same)
      ∙ ap (answer_for names codec own) (get-tasks config level task h)
      ∙ answer-pair own chosen.0 chosen.1 (fallback-kept tidy config level task)

  story_json-other :
      (config : AgentConfigResolved R) (story : Object R) (level task story_id : String)
      (rest : Items (Scalar R))
      → is_text story_id (get "storyId" story) ≡ false
      → find_story names codec story_id task (cons (story_json names codec config story level) rest)
        ≡ find_story names codec story_id task rest
  unfolding find_story get
  story_json-other config story level task story_id rest other =
      if-else _ _ (is_text-or_null story_id (get "storyId" story) ∙ other)

  find_story-build_stories :
      IsTidy names
      → (config : AgentConfigResolved R) (story_id task : String)
      → is_one_of planned_tasks task ≡ true
      → (stories built : Items (Scalar R)) (story : Object R)
      → build_stories names codec config stories ≡ ok built
      → story_with story_id stories ≡ some story
      → (level : String) × (level_of names codec story ≡ ok level)
        × (find_story names codec story_id task built ≡ ok (planned config level task))
  unfolding build_stories
  find_story-build_stories tidy config story_id task h nil built story e k = cc
  find_story-build_stories tidy config story_id task h (cons (scalar s) rest) built story e k = cc
  find_story-build_stories tidy config story_id task h (cons (array s) rest) built story e k = cc
  find_story-build_stories tidy config story_id task h (cons (table first) rest) built story e k =
      let (level, is_level, e1) = >>=-eq-ok (level_of names codec first) _ e in
      let (later, is_later, e2) = >>=-eq-ok (build_stories names codec config rest) _ e1 in
      let last : cons (story_json names codec config first level) later ≡ built = ok-injective e2 in
      elim (Bool-cases (is_text story_id (get "storyId" first))) [
        | inl same ↦
            let here : first ≡ story = cc in
            (
              level,
              ap (level_of names codec) (sym here) ∙ is_level,
              ap (find_story names codec story_id task) (sym last)
                  ∙ story_json-answer tidy config first level task story_id later h same,
            )
        | inr other ↦
            let (level', is', found) =
              find_story-build_stories tidy config story_id task h rest later story is_later (cc) in
            (
              level',
              is',
              ap (find_story names codec story_id task) (sym last)
                  ∙ story_json-other config first level task story_id later other
                  ∙ found,
            )
      ]

  abbrev pub IsPlanned :
      PlanInput → Text → Text → AgentConfigResolved R → Object R → String → String → Type 0
  IsPlanned input config_json complexity_json config story story_id task =
      (plan : Text) × (level : String) × (build_agents_file names codec input config_json
          complexity_json
        ≡ ok plan)
      × (level_of names codec story ≡ ok level)
      × (resolve_agents names codec plan story_id task ≡ ok (planned config level task))

  block-answer :
      (front inner : Text) (payload : Json R) (story_id task : String)
      → IsPlain front
      → IsPlain inner
      → loads (dumps payload) ≡ some payload
      → dumps payload ≡ 123 ∷ (inner ++ (125 ∷ []))
      → resolve_agents names codec
          (front ++ (codes "```json\n" ++ (dumps payload ++ codes "\n```\n")))
          story_id
          task
        ≡ (stories_of names codec payload >>= λ stories.
            find_story names codec story_id task stories)
  unfolding resolve_agents
  block-answer front inner payload story_id task h k again is =
      let fence = codes "```json\n" in
      let close = codes "\n```\n" in
      let cut : extract_json_block (front ++ (fence ++ (dumps payload ++ close)))
          ≡ 123 ∷ (inner ++ (125 ∷ [])) =
        ap (λ d. extract_json_block (front ++ (fence ++ (d ++ close)))) is
        ∙ ap (λ t. extract_json_block (front ++ (fence ++ (123 ∷ t))))
            (append_assoc inner (125 ∷ []) close)
        ∙ extract_json_block-written front inner h k in
      let read : loads (123 ∷ (inner ++ (125 ∷ []))) ≡ some payload = ap loads (sym is) ∙ again in
      ap (answer_in names codec story_id task) cut
      ∙ >>=-ok _ _ (ap (λ o. elim o [ some v ↦ ok v | none ↦ err value_error ]) read) refl

  loaded-ok : (raw : Text) (v : Json R) → loads raw ≡ some v → loaded names codec raw ≡ ok v
  loaded-ok raw v h = ap (λ o. elim o [ some v ↦ ok v | none ↦ err value_error ]) h

  -- Where the two files are read and their stories planned, the plan is written, and for the first
  -- story with an id and a task of the plan, reading it answers the agents that the configuration
  -- resolves for the story's level, with the level. What json dumps for the plan it
  -- loads again, and writes between braces; lower case and `strip` settle a text, and leave `false`
  -- alone; and there is no backquote in front of the block, nor in it.
  pub resolve_agents-build_agents_file :
      IsTidy names
      → (input : PlanInput) (config_json complexity_json : Text) (raw complexity : Json R)
        (config : AgentConfigResolved R) (stories built : Items (Scalar R)) (story : Object R)
        (story_id task : String)
      → loads config_json ≡ some raw
      → parse_agent_config names raw ≡ ok config
      → loads complexity_json ≡ some complexity
      → stories_of names codec complexity ≡ ok stories
      → build_stories names codec config stories ≡ ok built
      → IsWritten (payload_json names codec input built)
      → IsPlain (plan_front names codec input)
      → IsPlain (dumps (payload_json names codec input built))
      → story_with story_id stories ≡ some story
      → is_one_of planned_tasks task ≡ true
      → IsPlanned input config_json complexity_json config story story_id task
  unfolding build_agents_file get
  resolve_agents-build_agents_file tidy input config_json complexity_json raw complexity config
        stories built story story_id task h1 h2 h3 h4 h5 (again, inner, is) plain_front plain_block
        found is_task =
      let payload = payload_json names codec input built in
      let plain_inner = IsPlain-inner inner (125 ∷ []) (subst IsPlain is plain_block) in
      let (level, is_level, answer) =
        find_story-build_stories tidy config story_id task is_task stories built story h5 found in
      let built_ok : (build_stories names codec config stories >>= λ b.
      ok (plan_text names codec input (payload_json names codec input b)))
          ≡ ok (plan_text names codec input payload) =
        >>=-ok _ _ h5 refl in
      (
        plan_text names codec input payload,
        level,
        >>=-ok _ _ (loaded-ok config_json raw h1) (
            >>=-ok _ _ h2
              (>>=-ok _ _ (loaded-ok complexity_json complexity h3) (>>=-ok _ _ h4 built_ok))),
        is_level,
        block-answer (plan_front names codec input) inner payload story_id task plain_front
              plain_inner again is
            ∙ answer,
      )
