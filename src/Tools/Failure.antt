-- ===== src/Tools/Failure.antt =====
-- app/tools/errors.py: the structured errors of the tools. The details of an error and its
-- conversion to a dict are left out; a message is its kind.
use ai_agent_task_assistant.Common.{Text, codes, lower, contains, Bool, true, List, [], ◌∷◌, any}

pub data ToolErrorCode : Type 0 where
  validation_error permission_denied approval_required timeout_error : ToolErrorCode
  rate_limit_error authentication_error external_service_error execution_error not_found_error :
      ToolErrorCode

-- the text of an error that a tool wrote, or one of the two that the program writes
pub data Message : Type 0 where
  own : Text → Message
  tool_timed_out tool_failed : Message

pub record ToolExecutionError : Type 0 where
  pub code : ToolErrorCode
  pub message : Message
  pub retryable : Bool

-- What a tool raises: a structured error, `asyncio.TimeoutError`, or any other exception with its
-- text.
pub data Raised : Type 0 where
  structured : ToolExecutionError → Raised
  timeout : Raised
  other : Text → Raised

abbrev pub transient_hints : List Text
transient_hints =
    codes "timeout"
    ∷ codes "connection"
    ∷ codes "temporary"
    ∷ codes "unavailable"
    ∷ codes "429"
    ∷ codes "rate limit"
    ∷ []

unfoldable pub normalize_exception : Raised → ToolExecutionError
unfolding lower contains
normalize_exception (structured e) = e
normalize_exception timeout = record {
  code = timeout_error;
  message = tool_timed_out;
  retryable = true;
}
normalize_exception (other text) = record {
  code = execution_error;
  message = tool_failed;
  retryable = any (λ h. contains h (lower text)) transient_hints;
}
