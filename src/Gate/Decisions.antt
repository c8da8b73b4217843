-- ===== src/Gate/Decisions.antt =====
-- What the gate of app/agent/approval.py makes of the decisions that the endpoints of
-- app/api/v1/tasks.py send.
use ai_agent_task_assistant.Common.{
  ℕ, String, codes, text_eq, text_eq_iff, lower, ◌≡◌, ◌⊎◌, inl, inr, refl, Bool, true, false,
  Bool-cases, Option, none, some, [], ◌∷◌, Dict, lookup, Value, fields, fields_of, truthy, text_of,
  ◌==◌, arith, if◌then◌else◌,
}
use ai_agent_task_assistant.Gate.{
  HumanApprovalGate, Policy, needs_approval, ApprovalOutcome, approved, rejected, Interrupt,
  suspends, resumes, Ending, decided, outcome_of, request, refusal,
}
use ai_agent_task_assistant.Tasks.Api.Approvals.{decision}

-- the arguments that the tool runs with: the modified ones, if there are any
abbrev pub run_with : Option (Dict Value) → Dict Value → Dict Value
run_with none args = args
run_with (some []) args = args
run_with (some (a ∷ modified)) args = a ∷ modified

-- the reason for a rejection: the remark, unless it is missing or empty
abbrev pub reason_of : Option String → String
reason_of none = refusal
reason_of (some remark) = if remark == "" then refusal else remark

-- the outcome that a decision of the endpoints asks for
abbrev pub outcome_for : Bool → Option String → Option (Dict Value) → Dict Value → ApprovalOutcome
outcome_for true remark modified args = approved (fields (fields_of (run_with modified args)))
outcome_for false remark modified args = rejected (reason_of remark)

outcome_of-decision :
    (render : Value → String) (approve : Bool) (remark : Option String)
    (modified : Option (Dict Value)) (args : Dict Value)
    → outcome_of render args (some (decision approve remark modified))
      ≡ outcome_for approve remark modified args
unfolding outcome_of lookup truthy text_eq lower
outcome_of-decision render true remark none args = refl
outcome_of-decision render true remark (some []) args = refl
outcome_of-decision render true remark (some (a ∷ modified)) args = refl
outcome_of-decision render false none modified args = refl
outcome_of-decision render false (some remark) modified args = ground arith

approved_if :
    (c : Bool) (a : Value) (reason : String) (v : Value)
    → decided (if c then approved a else rejected reason) ≡ decided (approved v)
    → c ≡ true
approved_if true a reason v h = refl
approved_if false a reason v h = absurd (cc h)

module _ (gate : HumanApprovalGate) (policy : Policy) (render : Value → String)
    (approval_id : String) (now : ℕ) (tool_name : String) (args : Dict Value)
    (task_id : String) where
  abbrev ending : Interrupt → Ending
  ending = request gate policy render approval_id now tool_name args task_id

  -- A run that is resumed with the payload of a decision by the endpoints ends the request of a tool
  -- that needs an approval as decided: approved with the modified arguments, or with its own where
  -- there are none, or rejected with the remark, or with the standard reason where there is none.
  pub request-decision :
      (approve : Bool) (remark : Option String) (modified : Option (Dict Value))
      → needs_approval gate policy tool_name ≡ true
      → ending (resumes (some (decision approve remark modified)))
        ≡ decided (outcome_for approve remark modified args)
  unfolding request
  request-decision approve remark modified needed =
      rw (needed, outcome_of-decision render approve remark modified args) refl

  resumed-approved :
      (interrupt : Interrupt) (v : Value)
      → needs_approval gate policy tool_name ≡ true
      → ending interrupt ≡ decided (approved v)
      → (d : Dict Value) × (interrupt ≡ resumes (some d))
        × (lower (codes (text_of render "" (lookup "decision" d))) ≡ codes "approved")
  unfolding request outcome_of
  resumed-approved suspends v needed h = absurd (ground (arith, h, needed))
  resumed-approved (resumes none) v needed h = absurd (ground (arith, h, needed))
  resumed-approved (resumes (some d)) v needed h =
      let answered : decided (outcome_of render args (some d)) ≡ decided (approved v) =
        rw needed at h in
      (
        d,
        refl,
        (text_eq_iff (lower (codes (text_of render "" (lookup "decision" d)))) (codes "approved")).0
            (approved_if _ _ _ v answered),
      )

  -- Where the request of a tool ends as approved, the tool needed no approval, or the run was resumed
  -- with a decision whose text is "approved" in lower case.
  pub request-approved :
      (interrupt : Interrupt) (v : Value)
      → ending interrupt ≡ decided (approved v)
      → (needs_approval gate policy tool_name ≡ false)
        ⊎ ((d : Dict Value) × (interrupt ≡ resumes (some d))
            × (lower (codes (text_of render "" (lookup "decision" d))) ≡ codes "approved"))
  request-approved interrupt v h = elim (Bool-cases (needs_approval gate policy tool_name)) [
    | inl needed ↦ inr (resumed-approved interrupt v needed h)
    | inr free ↦ inl free
  ]
