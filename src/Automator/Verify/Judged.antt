-- ===== src/Automator/Verify/Judged.antt =====
-- When a review and an epic count as complete.
use bowerbird.Base.{
  ℕ, Bool, true, false, not, ◌&&◌, ◌||◌, ◌==◌, ◌≡◌, ◌≤◌, refl, ap, ◌∙◌, none, some, List, [], ◌∷◌,
  exists, every, length, if◌then◌else◌, ok, >>=-ok, arith,
}
use bowerbird.Base.Text.{Text, codes, text_eq}
use bowerbird.Automator.Json.{Object}
use bowerbird.Automator.Sprint.{sprint_status_epic, Counted}
use bowerbird.Automator.Sprint.Tally.{first_done, dones, entries_of, sprint_status_epic_lem}
use bowerbird.Automator.StoryKeys.{StoryKey, SprintStatus, sprint_status_get}
use bowerbird.Automator.Verify.{
  ReviewContract, is_none, Project, Verdict, bad_key, no_stories, epic_result, is_verified,
  normalized, or_nothing, is_done, judge_sources, load_review_contract, judge_story,
  review_completion, epic_identifier, counted_verdict, epic_complete,
}

judge-step :
    (a b : Bool) (v w rest : Verdict)
    → is_verified v ≡ true
    → is_verified w ≡ true
    → is_verified (if a then v else if b then w else rest) ≡ a || (b || is_verified rest)
judge-step true b v w rest h k = h
judge-step false true v w rest h k = k
judge-step false false v w rest h k = refl

or-shuffle :
    (a b e f p q : Bool)
    → (a && p) || ((b && q) || ((e && p) || (f && q))) ≡ ((a || e) && p) || ((b || f) && q)
or-shuffle a b e f p q = ground arith

-- The two ways to end.
counted-verified :
    (epic : Text) (counted : Counted) (stories : List Text)
    → counted.stories ≡ stories
    → is_verified (elim stories [
      | [] ↦ no_stories epic
      | story ∷ rest ↦
          epic_result
            (counted.done_count == length (story ∷ rest))
            epic
            (length (story ∷ rest))
            counted.done_count
    ])
      ≡ not (is_none stories) && (counted.done_count == length stories)
counted-verified epic counted [] h = refl
counted-verified epic counted (story ∷ rest) h = refl

module _ {R : Type 0} (project : Project R) where
  open project use {is_digit, sprint_file, story_file_status}

  -- A source is among the sources, and its status is one of the values for done.
  abbrev pub is_complete : ReviewContract → Text → Text → Bool
  is_complete review sprint_status file_status =
      exists (λ s. text_eq s (codes "sprint-status.yaml")) review.source_order
        && is_done project review sprint_status
      || exists (λ s. text_eq s (codes "story-file")) review.source_order
        && is_done project review file_status

  is_verified-judge_sources :
      (review : ReviewContract) (story : StoryKey) (sprint : SprintStatus) (file_status : Text)
      (sources : List Text)
      → is_verified (judge_sources project review story sprint file_status sources) ≡ (
          exists (λ s. text_eq s (codes "sprint-status.yaml")) sources
            && is_done project review sprint.status
          || exists (λ s. text_eq s (codes "story-file")) sources
            && is_done project review file_status)
  unfolding judge_sources
  is_verified-judge_sources review story sprint file_status [] = refl
  is_verified-judge_sources review story sprint file_status (source ∷ sources) =
      let first = text_eq source (codes "sprint-status.yaml") in
      let second = text_eq source (codes "story-file") in
      judge-step (first && is_done project review sprint.status)
        (second && is_done project review file_status) _ _ _ refl refl
      ∙ ap
          (λ v.
            (first && is_done project review sprint.status)
            || ((second && is_done project review file_status) || v))
          (is_verified-judge_sources review story sprint file_status sources)
      ∙ or-shuffle first second _ _ (is_done project review sprint.status)
          (is_done project review file_status)

  -- For a story key that is normalized and a contract that is loaded, the review gets a verdict,
  -- and it is verified exactly when the sprint status is among the sources and the story's status in
  -- it is one of the values for done, or the story file is among them and its status is: in lower
  -- case, whatever the order of the sources.
  pub is_verified-review_completion :
      (story_key : Text) (contract : Object R) (story : StoryKey) (review : ReviewContract)
      → normalized project story_key ≡ some story
      → load_review_contract project contract ≡ ok review
      → (verdict : Verdict) × (review_completion project story_key contract ≡ ok verdict)
        × (is_verified verdict
            ≡ is_complete review
                (sprint_status_get is_digit sprint_file story.id).status
                (or_nothing project (story_file_status story.prefix)))
  unfolding review_completion
  is_verified-review_completion story_key contract story review named loaded =
      let verdict =
        judge_sources project review story (sprint_status_get is_digit sprint_file story.id)
          (or_nothing project (story_file_status story.prefix)) review.source_order in
      (
        verdict,
        ap (λ o. elim o [ none ↦ ok (bad_key story_key) | some s ↦ judge_story project contract s ])
              named
            ∙ >>=-ok (load_review_contract project contract) _ loaded refl,
        is_verified-judge_sources review story _ _ review.source_order,
      )

  dones-bound : (epic : Text) (xs : List Text) → dones xs (entries_of sprint_file epic) ≤ length xs
  dones-bound epic [] = ground arith
  dones-bound epic (x ∷ xs) = ground (arith, dones-bound epic xs)

  -- The stories are all done exactly when as many are done as there are.
  all-done :
      (epic : Text) (xs : List Text)
      → (dones xs (entries_of sprint_file epic) == length xs)
        ≡ every (λ s. first_done s (entries_of sprint_file epic)) xs
  all-done epic [] = refl
  all-done epic (x ∷ xs) = ground (arith, all-done epic xs, dones-bound epic xs)

  -- An epic is complete exactly when it has stories in the status file and the first entry of each is
  -- done; its identifier is not empty.
  pub is_verified-epic_complete :
      (story_key epic : Text) (c : ℕ)
      → epic_identifier project story_key ≡ c ∷ epic
      → is_verified (epic_complete project story_key) ≡ (
          let stories = (sprint_status_epic sprint_file (c ∷ epic)).stories in
          not (is_none stories)
          && every (λ s. first_done s (entries_of sprint_file (c ∷ epic))) stories)
  unfolding epic_complete
  is_verified-epic_complete story_key epic c h =
      let counted = sprint_status_epic sprint_file (c ∷ epic) in
      let (_, _, number) = sprint_status_epic_lem sprint_file (c ∷ epic) in
      ap
        (λ e. is_verified (elim e [
          | [] ↦ bad_key story_key
          | d ∷ s ↦ counted_verdict project (d ∷ s) (sprint_status_epic sprint_file (d ∷ s))
        ]))
        h
      ∙ counted-verified (c ∷ epic) counted counted.stories refl
      ∙ ap (λ n. not (is_none counted.stories) && (n == length counted.stories)) number
      ∙ ap (λ b. not (is_none counted.stories) && b) (all-done (c ∷ epic) counted.stories)
