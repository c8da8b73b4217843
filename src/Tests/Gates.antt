-- ===== src/Tests/Gates.antt =====
-- The approval gate (app/agent/approval.py) on small inputs.
use ai_agent_task_assistant.Common.{
  codes, lower, ◌≡◌, ◌⊎◌, refl, true, false, none, some, [], ◌∷◌, Dict, lookup, Value, str, fields,
  fields_of, text_of,
}
use ai_agent_task_assistant.Gate.{
  HumanApprovalGate, Policy, needs_approval, resumes, Interrupt, Ending, decided, outcome_of,
  request,
}
use ai_agent_task_assistant.Gate.Decisions.{outcome_for, request-decision, request-approved}
use ai_agent_task_assistant.Tasks.Api.Approvals.{decision}
use ai_agent_task_assistant.Tests.ToolCalls.{render}

-- a gate for the tool `deploy` alone
abbrev pub gate : HumanApprovalGate
gate = record {
  tools = some ("deploy" ∷ []);
  approval_level = none;
  reason_template = λ tool. tool;
}

abbrev pub policy : Policy
policy = record { override_tools = []; approval_level = codes "L2"; registry = [] }

abbrev pub target : Dict Value
target = ("to", str "prod") ∷ []

abbrev changed : Dict Value
changed = ("to", str "test") ∷ []

abbrev ending : Interrupt → Ending
ending = request gate policy render "a1" 1700 "deploy" target "t1"

request-decision_example :
    ending (resumes (some (decision true none (some changed))))
    ≡ decided (outcome_for true none (some changed) target)
unfolding needs_approval
request-decision_example =
    request-decision gate policy render "a1" 1700 "deploy" target "t1" true none (some changed) refl

abbrev approval : Interrupt
approval = resumes (some (("decision", str "Approved") ∷ []))

request-approved_example :
    (needs_approval gate policy "deploy" ≡ false)
    ⊎ ((d : Dict Value) × (approval ≡ resumes (some d))
        × (lower (codes (text_of render "" (lookup "decision" d))) ≡ codes "approved"))
unfolding request needs_approval outcome_of
request-approved_example =
    request-approved gate policy render "a1" 1700 "deploy" target "t1" approval
      (fields (fields_of target)) refl
