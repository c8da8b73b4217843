-- ===== src/Templates/Rendering.antt =====
-- Rendering (app/models/template.py) reads only the variables that the template lists.
use ai_agent_task_assistant.Common.{
  ℕ, ◌≡◌, refl, inl, inr, Text, text_eq, text_eq_iff, Bool, true, not, Bool-cases, ◌&&◌, Option,
  none, some, List, [], ◌∷◌, ◌++◌, any, All, nat_eq,
}
use ai_agent_task_assistant.Templates.{
  AgentTemplate, Inputs, value_of, substitute, rendered_context, render,
}
use ai_agent_task_assistant.Templates.Listing.{find_all, collected, context_text, variables}

module _ (P : Text → Type 0) where
  All-append : (xs ys : List Text) → All P (xs ++ ys) → All P xs × All P ys
  All-append [] ys h = (tt, h)
  All-append (x ∷ xs) ys (p, h) = let (hx, hy) = All-append xs ys h in ((p, hx), hy)

  All-any :
      (name : Text) (found : List Text) → any (text_eq name) found ≡ true → All P found → P name
  All-any name [] e h = absurd (cc e)
  All-any name (x ∷ xs) e (p, h) = elim (Bool-cases (text_eq name x)) [
    | inl same ↦ rw ((text_eq_iff name x).0 same) p
    | inr other ↦ let e' = rw (other) at e in All-any name xs e' h
  ]

  collected-All :
      (names found : List Text) → All P (collected found names) → All P found × All P names
  unfolding collected
  collected-All [] found h = (h, tt)
  collected-All (name ∷ names) found h = elim (Bool-cases (any (text_eq name) found)) [
    | inl known ↦
        let h' = rw (known, collected) at h in
        let (hf, hn) = collected-All names found h' in (hf, (All-any name found known hf, hn))
    | inr new ↦
        let h' = rw (new, collected) at h in
        let (hf, hn) = collected-All names (found ++ (name ∷ [])) h' in
        let (hf', (p, u)) = All-append found (name ∷ []) hf in (hf', (p, hn))
  ]

module _ (is_word : ℕ → Bool) (inputs inputs' : Inputs) where
  abbrev pub Agree : Text → Type 0
  Agree name = value_of inputs name ≡ value_of inputs' name

  substitute-agrees :
      (s : Text) (name : Option Text)
      → All Agree (find_all is_word name s)
      → substitute is_word inputs name s ≡ substitute is_word inputs' name s
  unfolding substitute find_all
  substitute-agrees [] none h = refl
  substitute-agrees [] (some name) h = refl
  substitute-agrees (c ∷ s) none h = elim (Bool-cases (nat_eq c 123)) [
    | inl opens ↦
        let h' = rw (opens, All) at h in rw (opens, substitute) (substitute-agrees s (some []) h')
    | inr other ↦
        let h' = rw (other, All) at h in rw (other, substitute, substitute-agrees s none h') refl
  ]
  substitute-agrees (c ∷ s) (some name) h = elim (Bool-cases (is_word c)) [
    | inl word ↦
        let h' = rw (word, All) at h in
        rw (word, substitute) (substitute-agrees s (some (name ++ (c ∷ []))) h')
    | inr mark ↦ elim (Bool-cases (nat_eq c 125 && not (text_eq name []))) [
      | inl closes ↦
          let (p, h') : All Agree (name ∷ find_all is_word none s) = rw (mark, closes, All) at h in
          rw (mark, closes, substitute, p, substitute-agrees s none h') refl
      | inr loose ↦ elim (Bool-cases (nat_eq c 123)) [
        | inl opens ↦
            let h' = rw (mark, loose, opens, All) at h in
            rw (mark, loose, opens, substitute, substitute-agrees s (some []) h') refl
        | inr other ↦
            let h' = rw (mark, loose, other, All) at h in
            rw (mark, loose, other, substitute, substitute-agrees s none h') refl
      ]
    ]
  ]

  context-agrees :
      (context : Option Text)
      → All Agree (find_all is_word none (context_text context))
      → rendered_context is_word inputs context ≡ rendered_context is_word inputs' context
  context-agrees none h = refl
  context-agrees (some []) h = refl
  context-agrees (some (c ∷ s)) h = rw (substitute-agrees (c ∷ s) none h) refl

  -- Two inputs that give the same values to the variables that a template lists render it alike.
  pub render-variables :
      (template : AgentTemplate)
      → All Agree (variables is_word template)
      → render is_word inputs template ≡ render is_word inputs' template
  unfolding render variables
  render-variables template h =
      let of_goal = find_all is_word none template.goal_template in
      let of_context = find_all is_word none (context_text template.context_template) in
      let (before, in_context) = collected-All Agree of_context (collected [] of_goal) h in
      let (nothing, in_goal) = collected-All Agree of_goal [] before in
      rw
        (
          substitute-agrees template.goal_template none in_goal,
          context-agrees template.context_template in_context,
        )
        refl
