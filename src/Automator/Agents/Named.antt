-- ===== src/Automator/Agents/Named.antt =====
-- The agents that are resolved are names, and no placeholders.
use bowerbird.Base.{
  String, false, ◌≡◌, refl, sym, ap, subst, ◌∙◌, ◌⊎◌, inl, inr, some, List, [], ◌∷◌, if◌then◌else◌,
  Bool-cases, arith,
}
use bowerbird.Config.Value.{scalar}
use bowerbird.Automator.Json.{text}
use bowerbird.Automator.Agents.{
  Names, AgentConfigResolved, is_one_of, normalize_fallback_value, resolve_fallback_agent,
  resolve_agent_for_task,
}

abbrev pub no_agent : List String
no_agent = "false" ∷ "none" ∷ "null" ∷ []

abbrev pub placeholders : List String
placeholders = "" ∷ "auto" ∷ "runtime" ∷ []

module _ {R : Type 0} (names : Names R) where
  open names use {strip, lower, runtime_provider}

  -- A text in lower case without spaces around stays as it is, and so does `"false"`.
  abbrev pub IsTidy : Type 0
  IsTidy =
      ((s : String) → lower (strip (lower (strip s))) ≡ lower (strip s))
      × (lower (strip "false") ≡ "false")

  -- A name that is read back as it is written.
  abbrev pub IsKept : String → Type 0
  IsKept v =
      (is_one_of no_agent v ≡ false) × (is_one_of placeholders v ≡ false) × (lower (strip v) ≡ v)

  normalize-tidy :
      (s : String)
      → normalize_fallback_value names (some (scalar (text s)))
        ≡ (if is_one_of no_agent (lower (strip s)) then "false" else lower (strip s))
  unfolding normalize_fallback_value
  normalize-tidy s = refl

  resolve_fallback_agent-of :
      (raw v : String)
      → normalize_fallback_value names (some (scalar (text raw))) ≡ v
      → resolve_fallback_agent names raw
        ≡ (if is_one_of placeholders (lower (strip v)) then "false" else lower (strip v))
  unfolding resolve_fallback_agent
  resolve_fallback_agent-of raw v h =
      ap (λ w. if is_one_of placeholders (lower (strip w)) then "false" else lower (strip w)) h

  -- The fallback is `"false"`, or a name.
  pub resolve_fallback_agent-cases :
      IsTidy
      → (raw : String)
      → (resolve_fallback_agent names raw ≡ "false") ⊎ IsKept (resolve_fallback_agent names raw)
  resolve_fallback_agent-cases (again, false_kept) raw =
      let v = lower (strip raw) in
      elim (Bool-cases (is_one_of no_agent v)) [
        | inl bad ↦
            let said : normalize_fallback_value names (some (scalar (text raw))) ≡ "false" =
              normalize-tidy raw ∙ ap (λ b. if b then "false" else v) bad in
            inl (
              resolve_fallback_agent-of raw "false" said
              ∙ ap (λ w. if is_one_of placeholders w then "false" else w) false_kept)
        | inr good ↦
            let said : normalize_fallback_value names (some (scalar (text raw))) ≡ v =
              normalize-tidy raw ∙ ap (λ b. if b then "false" else v) good in
            let is : resolve_fallback_agent names raw
                ≡ (if is_one_of placeholders v then "false" else v) =
              resolve_fallback_agent-of raw v said
              ∙ ap (λ w. if is_one_of placeholders w then "false" else w) (again raw) in
            elim (Bool-cases (is_one_of placeholders v)) [
              | inl empty ↦ inl (is ∙ ap (λ b. if b then "false" else v) empty)
              | inr named ↦ inr (
                  subst IsKept (sym (is ∙ ap (λ b. if b then "false" else v) named))
                    (good, named, again raw))
            ]
      ]

  if-named :
      (w r : String)
      → is_one_of placeholders r ≡ false
      → is_one_of placeholders (if is_one_of placeholders w then r else w) ≡ false
  if-named w r h = elim (Bool-cases (is_one_of placeholders w)) [
    | inl empty ↦ ap (λ b. is_one_of placeholders (if b then r else w)) empty ∙ h
    | inr named ↦ ap (λ b. is_one_of placeholders (if b then r else w)) named ∙ named
  ]

  kept-usable : (v : String) → IsKept v → is_one_of ("" ∷ "auto" ∷ "none" ∷ "null" ∷ []) v ≡ false
  kept-usable v (a, b, c) = ground (arith, a, b)

  -- The primary agent of a task is never empty, `auto` or `runtime`, whatever the configuration says,
  -- if the runtime's provider is none of these; and the fallback is `false`, or a name that is not
  -- empty, `auto`, `none` or `null`. Lower case and `strip` settle a text, and leave `false` alone.
  pub resolve_agent_for_task_named :
      IsTidy
      → is_one_of placeholders runtime_provider ≡ false
      → (config : AgentConfigResolved R) (complexity task : String)
      → (is_one_of placeholders (resolve_agent_for_task names config complexity task).0 ≡ false)
        × (is_one_of
              ("" ∷ "auto" ∷ "none" ∷ "null" ∷ [])
              (resolve_agent_for_task names config complexity task).1
            ≡ false)
  unfolding resolve_agent_for_task
  resolve_agent_for_task_named tidy h config complexity task = (
    if-named (lower (strip _)) runtime_provider h,
    elim (resolve_fallback_agent-cases tidy _) [
      | inl is ↦ ap (is_one_of ("" ∷ "auto" ∷ "none" ∷ "null" ∷ [])) is
      | inr kept ↦ kept-usable _ kept
    ],
  )
