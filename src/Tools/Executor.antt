-- ===== src/Tools/Executor.antt =====
-- app/tools/executor.py: the pipeline that every call of a tool goes through. The world gives what
-- the source awaits: the answer of the approval gate, the outcome of each run of the tool, and the
-- cancellation flag as each attempt begins (nothing is awaited between the checks of one attempt).
-- Times are whole seconds and milliseconds; logging is left out.
pub mod Retry
pub mod Guarded
pub mod Pipeline
pub mod Input
use ai_agent_task_assistant.Common.{
  ℕ, zero, suc, ◌+◌, ◌*◌, ◌^◌, String, Text, Bool, true, false, not, ◌&&◌, ◌||◌, Option, none, some,
  List, [], ◌∷◌, ◌++◌, Dict, lookup, insert, Value, null, flag, number, str, items, nil, cons,
  fields, end, field, Fields, field_list, any, keep_if, leb, ◌==◌, if◌then◌else◌,
}
use ai_agent_task_assistant.Tools.Schema.{ToolSchema, is_act, is_idempotent}
use ai_agent_task_assistant.Tools.Permissions.{granted_allows}
use ai_agent_task_assistant.Tools.Security.{ToolContext, is_role_allowed, category_system}
use ai_agent_task_assistant.Tools.Failure.{
  Message, ToolExecutionError, Raised, structured, timeout, other, normalize_exception,
}

pub record Tool : Type 0 where
  pub schema : ToolSchema
  pub legacy_category : Option String
  pub category : String

-- `x or default` on texts
abbrev or_text : String → String → String
or_text s default = if s == "" then default else s

abbrev from_category : Option String → String → String
from_category none category = or_text category category_system
from_category (some legacy) category =
    if legacy == "" then or_text category category_system else legacy

unfoldable pub resolve_legacy_category : Tool → String
resolve_legacy_category tool = from_category tool.legacy_category tool.category

pub record ToolInput : Type 0 where
  pub query : String
  pub parameters : Dict Value

pub data Params : Type 0 where
  plain : Dict Value → Params
  prepared : ToolInput → Params

-- the text of an error in a `ToolOutput`, by its kind
pub data ErrorText : Type 0 where
  not_registered not_available : String → ErrorText
  no_approval_gate call_cancelled : ErrorText
  not_approved : Option String → ErrorText
  timed_out : ℕ → ErrorText
  failed : Message → ErrorText
  reported : Text → ErrorText

pub record ToolOutput : Type 0 where
  pub success : Bool
  pub content : Value
  pub error : Option ErrorText

abbrev pub failure : ErrorText → ToolOutput
failure e = record { success = false; content = null; error = some e }

pub record ToolExecutionContext : Type 0 where
  pub tool_context : ToolContext
  pub granted_permissions : Option (List Text)

-- what the approval gate answers
pub data Decision : Type 0 where
  approved : Decision
  refused : Option String → Decision

-- how one run of a tool ends
pub data Attempt : Type 0 where
  returned : ToolOutput → Attempt
  raised : Raised → Attempt

pub record World : Type 0 where
  pub gate : Option Decision
  pub cancelled : ℕ → Bool
  pub attempt : ToolInput → ℕ → Attempt

-- What the retry loop did: its output, how often it ran the tool, the pauses in milliseconds.
pub record Trial : Type 0 where
  pub output : ToolOutput
  pub calls : ℕ
  pub delays : List ℕ

abbrev pub backoff_ms : ℕ → ℕ
backoff_ms attempt = 1000 * 2 ^ attempt

abbrev last_output : Option ToolExecutionError → ToolOutput
last_output none = failure (failed Message.tool_failed)
last_output (some e) = failure (failed e.message)

-- `last_error` behind an attempt
abbrev error_of : Attempt → Option ToolExecutionError
error_of (returned _) = none
error_of (raised timeout) = none
error_of (raised e) = some (normalize_exception e)

module _ (max_retries : ℕ) (schema : ToolSchema) (limit : ℕ) (world : World)
    (input : ToolInput) where
  abbrev once : ToolOutput → Trial
  once o = record { output = o; calls = 1; delays = [] }

  abbrev resumed : ℕ → Trial → Trial
  resumed attempt rest = record {
    output = rest.output;
    calls = suc rest.calls;
    delays = backoff_ms attempt ∷ rest.delays;
  }

  abbrev after_error : ToolExecutionError → ℕ → Trial → Trial
  after_error e attempt rest =
      if not (e.retryable && is_idempotent schema)
      then once (last_output (some e))
      else if leb max_retries attempt
      then once (last_output (some e))
      else resumed attempt rest

  abbrev after_attempt : Attempt → ℕ → Trial → Trial
  after_attempt (returned o) n rest = once o
  after_attempt (raised timeout) n rest = once (failure (timed_out limit))
  after_attempt (raised e) n rest = after_error (normalize_exception e) n rest

  -- the loop over `range(max_retries + 1)`: the rounds left, and the number of this one
  attempts : ℕ → ℕ → Option ToolExecutionError → Trial
  attempts zero n last = record { output = last_output last; calls = 0; delays = [] }
  attempts (suc left) n last =
      let rest = attempts left (suc n) (error_of (world.attempt input n)) in
      if world.cancelled n
      then record { output = failure call_cancelled; calls = 0; delays = [] }
      else after_attempt (world.attempt input n) n rest

  unfoldable pub execute_with_policy : Trial
  unfolding attempts
  execute_with_policy = attempts (suc max_retries) 0 none
