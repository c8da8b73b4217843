-- ===== src/Calling/Requirements/Checked.antt =====
-- What the check of app/agent/requirements.py lets through, and what its dicts hold.
use ai_agent_task_assistant.Common.{
  sym, ◌∙◌, inl, inr, ◌==◌, eq_iff, false, String, Text, ◌≡◌, ◌↔◌, inl, inr, true, ◌||◌, Bool-cases,
  Option, List, [], ◌∷◌, ◌++◌, map, Dict, Value, All, arith,
}
use ai_agent_task_assistant.Tools.Schema.{ToolSchema}
use ai_agent_task_assistant.Calling.Requirements.Sources.{is_given, has_key-available_for}
use ai_agent_task_assistant.Calling.Requirements.{
  RequirementSlot, requirement_slots, has_key, is_location_dependent_query, tool_required_params,
  extract_query, is_free_text, missing_params, slot_applies, missing_slots, unique, allowed,
  available_for, check_tool_requirements,
}

-- a parameter that a tool declares is there, or is one of the free texts
abbrev pub Given : Dict Text → String → Type 0
Given available param = (is_free_text param || has_key param available) ≡ true

-- a slot that applies to a call is there
abbrev pub Filled : String → Text → Dict Text → RequirementSlot → Type 0
Filled tool_name query available slot =
    slot_applies tool_name query slot ≡ true → has_key slot.name available ≡ true

missing_params-nil :
    (available : Dict Text) (params : List String)
    → (missing_params available params ≡ []) ↔ All (Given available) params
unfolding missing_params
missing_params-nil available [] = ground arith
missing_params-nil available (param ∷ params) = ground (arith, missing_params-nil available params)

missing_slots-nil :
    (tool_name : String) (query : Text) (available : Dict Text) (slots : List RequirementSlot)
    → (missing_slots tool_name query available slots ≡ [])
      ↔ All (Filled tool_name query available) slots
unfolding missing_slots
missing_slots-nil tool_name query available [] = ground arith
missing_slots-nil tool_name query available (slot ∷ slots) =
    let (to, fro) = missing_slots-nil tool_name query available slots in
    elim (Bool-cases (slot_applies tool_name query slot)) [
      | inl applies ↦ elim (Bool-cases (has_key slot.name available)) [
        | inl there ↦
            (λ e. (λ _. there, to (rw (applies, there) at e)), λ h. rw (applies, there) (fro h.1))
        | inr missing ↦ (
          λ e. let e' = rw (applies, missing) at e in absurd (cc e'),
          λ h. let f = h.0 applies in absurd (cc (missing, f)),
        )
      ]
      | inr free ↦ (λ e. (λ a. absurd (cc (a, free)), to (rw free at e)), λ h. rw free (fro h.1))
    ]

unique-nil : (pairs : List (String × String)) → (unique [] pairs ≡ []) ↔ (pairs ≡ [])
unfolding unique
unique-nil [] = ground arith
unique-nil (p ∷ pairs) = ground arith

append-eq-nil : (xs ys : List (String × String)) → (xs ++ ys ≡ []) ↔ ((xs ≡ []) × (ys ≡ []))
append-eq-nil [] ys = ground arith
append-eq-nil (x ∷ xs) ys = ground arith

allowed_pairs :
    (pairs : List (String × String))
    → (allowed (record { missing = map (λ p. p.0) pairs; labels = map (λ p. p.1) pairs }) ≡ true)
      ↔ (pairs ≡ [])
allowed_pairs [] = ground arith
allowed_pairs (p ∷ pairs) = ground arith

All_congr :
    (P Q : String → Type 0) → ((s : String) → P s ↔ Q s) → (ss : List String) → All P ss ↔ All Q ss
All_congr P Q same [] = (λ h. h, λ h. h)
All_congr P Q same (s ∷ ss) =
    let (to, fro) = All_congr P Q same ss in
    (λ h. ((same s).0 h.0, to h.1), λ h. ((same s).1 h.0, fro h.1))

never : {A : Type 0} → false ≡ true → A
never e = absurd (cc e)

slots_iff :
    (tool_name : String) (query : Text) (available : Dict Text)
    → All (Filled tool_name query available) requirement_slots ↔ (
        (tool_name == "web_search") ≡ true
        → is_location_dependent_query query ≡ true
        → has_key "location" available ≡ true)
slots_iff tool_name query available =
    let to = eq_iff "web_search" tool_name in
    let fro = eq_iff tool_name "web_search" in
    (
      λ (h : All (Filled tool_name query available) requirement_slots).
          λ web local. h.0 (ground (arith, web, local, to, fro)),
      λ h. (
        λ applies. h (ground (arith, applies, to, fro)) (ground (arith, applies, to, fro)),
        (never, (never, (never, (never, (never, (never, (never, tt))))))),
      ),
    )

check_tool_requirements-Filled :
    (search : String → Text → Option Text) (render : Value → String) (tool : Option ToolSchema)
    (tool_name : String) (args : Dict Value) (extracted : Dict Text) (conversation : Text)
    → let available = available_for search render args extracted conversation in
      (allowed (check_tool_requirements search render tool tool_name args extracted conversation)
        ≡ true)
      ↔ (All (Given available) (tool_required_params tool)
          × All (Filled tool_name (extract_query render args) available) requirement_slots)
unfolding check_tool_requirements
check_tool_requirements-Filled search render tool tool_name args extracted conversation =
    let available = available_for search render args extracted conversation in
    let query = extract_query render args in
    let params = missing_params available (tool_required_params tool) in
    let slots = missing_slots tool_name query available requirement_slots in
    let (a, a') = allowed_pairs (unique [] (params ++ slots)) in
    let (u, u') = unique-nil (params ++ slots) in
    let (b, b') = append-eq-nil params slots in
    let (p, p') = missing_params-nil available (tool_required_params tool) in
    let (q, q') = missing_slots-nil tool_name query available requirement_slots in
    (λ e. let (x, y) = b (u (a e)) in (p x, q y), λ h. a' (u' (b' (p' h.0, q' h.1))))

-- A call may go on exactly when each parameter that its tool declares, the free texts apart, is given,
-- and, for a search of the web whose query has one of the hints at a place, a location too: given by
-- an argument of that name, by what was extracted before, or by a pattern of that slot that is found
-- in the query or in the conversation, each with a value that counts.
pub check_tool_requirements_iff :
    (search : String → Text → Option Text) (render : Value → String) (tool : Option ToolSchema)
    (tool_name : String) (args : Dict Value) (extracted : Dict Text) (conversation : Text)
    → (allowed (check_tool_requirements search render tool tool_name args extracted conversation)
        ≡ true)
      ↔ (All
            (λ param.
              (is_free_text param || is_given search render args extracted conversation param)
              ≡ true)
            (tool_required_params tool)
          × ((tool_name == "web_search") ≡ true
              → is_location_dependent_query (extract_query render args) ≡ true
              → is_given search render args extracted conversation "location" ≡ true))
check_tool_requirements_iff search render tool tool_name args extracted conversation =
    let available = available_for search render args extracted conversation in
    let known = has_key-available_for search render args extracted conversation in
    let (to, fro) =
      check_tool_requirements-Filled search render tool tool_name args extracted conversation in
    let (slots, slots') = slots_iff tool_name (extract_query render args) available in
    let params =
      All_congr (Given available)
        (λ param.
          (is_free_text param || is_given search render args extracted conversation param) ≡ true)
        (λ param. ground (arith, known param)) (tool_required_params tool) in
    (
      λ e.
          let (a, b) = to e in
          (params.0 a, λ web local. sym (known "location") ∙ slots b web local),
      λ h. fro (params.1 h.0, slots' (λ web local. known "location" ∙ h.1 web local)),
    )
