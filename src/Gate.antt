-- ===== src/Gate.antt =====
-- app/agent/approval.py: `HumanApprovalGate`, which pauses the workflow before a tool of high risk.
-- LangGraph's `interrupt` either suspends the run or, in a run that is resumed, returns the decision:
-- which of them it does is an argument. The random identifier, the time and the formatting of the
-- reason are arguments too.
pub mod Decisions
use ai_agent_task_assistant.Common.{
  ℕ, String, Text, codes, text_eq, lower, Bool, true, false, not, Option, none, some, List, [], ◌∷◌,
  any, Dict, lookup, Value, str, number, fields, fields_of, truthy, or_value, text_of, ◌==◌,
  if◌then◌else◌,
}
use ai_agent_task_assistant.Tools.Schema.{ToolSchema}
use ai_agent_task_assistant.Tools.Risk.{requires_approval}

pub record HumanApprovalGate : Type 0 where
  pub tools : Option (List String)
  pub approval_level : Option Text
  pub reason_template : String → String

-- what of the settings the gate reads, and the registered tools
pub record Policy : Type 0 where
  pub override_tools : List String
  pub approval_level : Text
  pub registry : Dict ToolSchema

abbrev is_member : String → List String → Bool
is_member name names = any (λ n. n == name) names

unfoldable pub needs_approval : HumanApprovalGate → Policy → String → Bool
needs_approval gate policy tool_name = elim gate.tools [
  | some tools ↦ is_member tool_name tools
  | none ↦
      if is_member tool_name policy.override_tools
      then true
      else requires_approval policy.registry policy.approval_level tool_name gate.approval_level
]

pub record ApprovalRequestPayload : Type 0 where
  pub approval_id : String
  pub task_id : String
  pub tool_name : String
  pub args : Dict Value
  pub reason : String
  pub requested_at : ℕ

unfoldable pub to_dict : ApprovalRequestPayload → Dict Value
to_dict p =
    ("kind", str "tool_approval")
    ∷ ("approval_id", str p.approval_id)
    ∷ ("task_id", str p.task_id)
    ∷ ("tool_name", str p.tool_name)
    ∷ ("args", fields (fields_of p.args))
    ∷ ("reason", str p.reason)
    ∷ ("requested_at", number p.requested_at)
    ∷ []

pub data ApprovalOutcome : Type 0 where
  approved : Value → ApprovalOutcome
  rejected : String → ApprovalOutcome
  cancelled : ApprovalOutcome

-- what `interrupt` does: it suspends the run, or returns what the run was resumed with
pub data Interrupt : Type 0 where
  suspends : Interrupt
  resumes : Option (Dict Value) → Interrupt

-- how `request` ends: the run is suspended with a request, or there is an outcome
pub data Ending : Type 0 where
  suspended : Dict Value → Ending
  decided : ApprovalOutcome → Ending

-- `str(v or default)`
abbrev text_or : (Value → String) → String → Option Value → String
text_or render default none = default
text_or render default (some v) = if truthy v then text_of render default (some v) else default

abbrev value_or : Option Value → Value → Value
value_or none v = v
value_or (some w) v = if truthy w then w else v

abbrev pub refusal : String
refusal = "用户拒绝了该操作"

unfoldable pub outcome_of : (Value → String) → Dict Value → Option (Dict Value) → ApprovalOutcome
unfolding lookup text_eq lower truthy
outcome_of render args none = cancelled
outcome_of render args (some decision) =
    if text_eq (lower (codes (text_of render "" (lookup "decision" decision)))) (codes "approved")
    then approved (value_or (lookup "args" decision) (fields (fields_of args)))
    else rejected (text_or render refusal (lookup "reason" decision))

abbrev ending_of : (Value → String) → ApprovalRequestPayload → Interrupt → Ending
ending_of render payload suspends = suspended (to_dict payload)
ending_of render payload (resumes decision) = decided (outcome_of render payload.args decision)

unfoldable pub request :
    HumanApprovalGate
    → Policy
    → (Value → String)
    → String
    → ℕ
    → String
    → Dict Value
    → String
    → Interrupt
    → Ending
request gate policy render approval_id now tool_name args task_id interrupt =
    if not (needs_approval gate policy tool_name)
    then decided (approved (fields (fields_of args)))
    else ending_of render
        (record {
          approval_id = approval_id;
          task_id = task_id;
          tool_name = tool_name;
          args = args;
          reason = gate.reason_template tool_name;
          requested_at = now;
        })
        interrupt
