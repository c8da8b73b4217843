-- ===== src/Calling/Loop.antt =====
-- app/agent/executor_node.py: `run_tool_calls_loop`, up to the final answer of the LLM. The calls are
-- numbered; what the approval gate and the tools give to a call is an argument. The log holds what
-- the source collects, and the calls of `_invoke_tool`. Latencies are left out.
use ai_agent_task_assistant.Common.{
  ℕ, suc, String, Text, Bool, true, false, not, Option, none, some, List, [], ◌∷◌, ◌++◌, Dict,
  lookup, Value, truthy, dict_of, is_some, if◌then◌else◌,
}
use ai_agent_task_assistant.Gate.{Ending, suspended, decided, ApprovalOutcome}
use ai_agent_task_assistant.Tools.Executor.{Tool}
use ai_agent_task_assistant.Tools.Schema.{ToolSchema}
use ai_agent_task_assistant.Calling.Requirements.{
  RequirementCheckResult, allowed, check_tool_requirements,
}
use ai_agent_task_assistant.Calling.Policy.{
  ToolExecutionPolicy, Refusal, not_confirmed, gate_raised, rejected, missing, check,
}

pub record ToolCall : Type 0 where
  pub name : String
  pub args : Dict Value
  pub id : String

-- how `approval_gate.request` ends
pub data Asked : Type 0 where
  ends : Ending → Asked
  raises : String → Asked

-- how `_invoke_tool` ends
pub data Invoked : Type 0 where
  gives : String → Invoked
  raises : String → Invoked

pub data Content : Type 0 where
  refused : Refusal → Content
  result_is failed_by : String → Content

pub record ToolMessage : Type 0 where
  pub content : Content
  pub tool_call_id : String

-- an entry of the trace
pub record Recorded : Type 0 where
  pub tool : String
  pub args : Dict Value
  pub allowed : Bool
  pub reason : Option Refusal
  pub error : Option String
  pub approval_required : Bool
  pub approval_result : Option String

pub record ToolResult : Type 0 where
  pub tool : String
  pub args : Dict Value
  pub result : Option String
  pub error : Option String
  pub success : Bool

pub record Log : Type 0 where
  pub messages : List ToolMessage
  pub trace : List Recorded
  pub tool_results : List ToolResult
  pub invocations : List (String × Dict Value)

abbrev pub empty : Log
empty = record { messages = []; trace = []; tool_results = []; invocations = [] }

-- how the loop ends: with all calls handled, by the pause for an approval, or by an exception
pub data Handled : Type 0 where
  done : Log → Handled
  paused : Dict Value → Log → Handled
  broken : Log → Handled

pub record Surroundings : Type 0 where
  pub registry : Dict Tool
  pub policy : ToolExecutionPolicy
  pub approval_gate : Option (ℕ → String → Dict Value → Asked)
  pub search : String → Text → Option Text
  pub render : Value → String
  pub extracted_requirements : Dict Text
  pub conversation : Text
  pub invoke : ℕ → String → Dict Value → Invoked

abbrev pub schema_of : Option Tool → Option ToolSchema
schema_of none = none
schema_of (some tool) = some tool.schema

-- what becomes of a call that the gate was asked about
pub data Verdict : Type 0 where
  goes_on : Dict Value → Verdict
  refuses : Refusal → Option String → Verdict
  pauses : Dict Value → Verdict
  bad_arguments : Verdict

abbrev approved_with : Option (Dict Value) → Verdict
approved_with none = bad_arguments
approved_with (some args) = goes_on args

-- `outcome.args or tool_args`
abbrev pub approved_args : Value → Dict Value → Verdict
approved_args given args =
    if truthy given then approved_with (dict_of (some given)) else goes_on args

abbrev pub verdict_on : Asked → Dict Value → Verdict
verdict_on (raises e) args = refuses (gate_raised e) none
verdict_on (ends (suspended request)) args = pauses request
verdict_on (ends (decided (ApprovalOutcome.rejected reason))) args =
    refuses (rejected reason) (some "rejected")
verdict_on (ends (decided ApprovalOutcome.cancelled)) args =
    refuses not_confirmed (some "cancelled")
verdict_on (ends (decided (ApprovalOutcome.approved given))) args = approved_args given args

abbrev pub verdict_of : Option (ℕ → String → Dict Value → Asked) → ℕ → ToolCall → Verdict
verdict_of none k call = goes_on call.args
verdict_of (some gate) k call = verdict_on (gate k call.name call.args) call.args

-- a call that does not reach its tool
abbrev pub turned_down : ToolCall → Refusal → Option String → Log → Log
turned_down call refusal approval log = record log {
  messages = log.messages ++ (record { content = refused refusal; tool_call_id = call.id } ∷ []);
  trace =
      log.trace
      ++ (record {
        tool = call.name;
        args = call.args;
        allowed = false;
        reason = some refusal;
        error = none;
        approval_required = is_some approval;
        approval_result = approval;
      }
          ∷ []);
}

abbrev answered : Bool → Option String
answered true = some "approved"
answered false = none

abbrev pub invoked : Bool → ToolCall → Dict Value → Invoked → Log → Log
invoked gated call args (gives result) log = record {
  messages = log.messages ++ (record { content = result_is result; tool_call_id = call.id } ∷ []);
  trace =
      log.trace
      ++ (record {
        tool = call.name;
        args = args;
        allowed = true;
        reason = none;
        error = none;
        approval_required = gated;
        approval_result = answered gated;
      }
          ∷ []);
  tool_results =
      log.tool_results
      ++ (record {
        tool = call.name;
        args = args;
        result = some result;
        error = none;
        success = true;
      }
          ∷ []);
  invocations = log.invocations ++ ((call.name, args) ∷ []);
}
invoked gated call args (raises e) log = record {
  messages = log.messages ++ (record { content = failed_by e; tool_call_id = call.id } ∷ []);
  trace =
      log.trace
      ++ (record {
        tool = call.name;
        args = args;
        allowed = true;
        reason = none;
        error = some e;
        approval_required = false;
        approval_result = none;
      }
          ∷ []);
  tool_results =
      log.tool_results
      ++ (record { tool = call.name; args = args; result = none; error = some e; success = false }
          ∷ []);
  invocations = log.invocations ++ ((call.name, args) ∷ []);
}

module _ (env : Surroundings) where
  abbrev pub requirements_of : ToolCall → RequirementCheckResult
  requirements_of call =
      check_tool_requirements env.search env.render (schema_of (lookup call.name env.registry))
        call.name call.args env.extracted_requirements env.conversation

  abbrev pub refusal_of : ToolCall → Option Refusal
  refusal_of call =
      check env.registry env.policy call.name call.args (not (is_some env.approval_gate))

  -- arguments from an approval that are no dict raise where the result is collected
  abbrev pub by_verdict : ℕ → ToolCall → Verdict → Log → Handled
  by_verdict k call (goes_on args) log =
      done (invoked (is_some env.approval_gate) call args (env.invoke k call.name args) log)
  by_verdict k call (refuses refusal approval) log = done (turned_down call refusal approval log)
  by_verdict k call (pauses request) log = paused request log
  by_verdict k call bad_arguments log = broken log

  abbrev pub by_policy : Option Refusal → ℕ → ToolCall → Log → Handled
  by_policy (some refusal) k call log = done (turned_down call refusal none log)
  by_policy none k call log =
      if not (allowed (requirements_of call))
      then done (turned_down call (missing (requirements_of call).labels) none log)
      else by_verdict k call (verdict_of env.approval_gate k call) log

  -- one round of the loop
  unfoldable pub handle : ℕ → ToolCall → Log → Handled
  handle k call log = by_policy (refusal_of call) k call log

  -- the loop over `response.tool_calls`
  unfoldable pub handle_all : ℕ → List ToolCall → Log → Handled
  handle_all k [] log = done log
  handle_all k (call ∷ calls) log = elim (handle k call log) [
    | done log' ↦ handle_all (suc k) calls log'
    | paused request log' ↦ paused request log'
    | broken log' ↦ broken log'
  ]
