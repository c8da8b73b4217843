-- ===== src/Tasks/Api/Approvals.antt =====
-- app/api/v1/tasks.py: the endpoints on the approval requests of a task.
use ai_agent_task_assistant.Common.{
  String, Bool, true, false, not, ◌||◌, Option, none, some, List, [], ◌∷◌, first_with, Dict, Value,
  null, str, fields, fields_of, ◌==◌, if◌then◌else◌,
}
use ai_agent_task_assistant.Tools.Security.{ToolContext}
use ai_agent_task_assistant.Tasks.Model.{
  awaiting_approval, executing, approved, rejected, ApprovalRequest,
}
use ai_agent_task_assistant.Tasks.Repository.{same_status}
use ai_agent_task_assistant.Tasks.Service.{TaskStatusResponse}
use ai_agent_task_assistant.Tasks.Service.Approval.{resolve_approval, get_pending_approvals}
use ai_agent_task_assistant.Tasks.Api.{
  Clock, task_state, approval_not_found, approval_already_decided, Handler, pure, ◌>>=◌, ◌>>◌,
  state, set_repo, unless, found, require_ready, accessible_task, send, message_for,
}
use ai_agent_task_assistant.Tasks.Api.Handlers.{set_status, respond_status}

unfoldable pub list_approvals : String → ToolContext → Handler (List ApprovalRequest)
list_approvals task_id user = do task ← accessible_task user task_id; pure task.approval_history

abbrev text_or_null : Option String → Value
text_or_null none = null
text_or_null (some s) = str s

-- the key `args`, where there are arguments and not none of them
abbrev args_entry : Option (Dict Value) → Dict Value
args_entry none = []
args_entry (some []) = []
args_entry (some (a ∷ args)) = ("args", fields (fields_of (a ∷ args))) ∷ []

-- the payload of the message that carries the decision
abbrev pub decision : Bool → Option String → Option (Dict Value) → Dict Value
decision approve remark modified_args =
    ("decision", str (if approve then "approved" else "rejected"))
    ∷ ("reason", text_or_null remark)
    ∷ (if approve then args_entry modified_args else [])

abbrev pub only_if : {A : Type 0} → Bool → Option A → Option A
only_if b o = if b then o else none

unfoldable pub decide_approval :
    Clock
    → String
    → String
    → Bool
    → Option String
    → Option (Dict Value)
    → ToolContext
    → Handler TaskStatusResponse
decide_approval clock task_id approval_id approve remark modified_args user = do
  task ← accessible_task user task_id
  s ← state
  found (approval_not_found task_id approval_id)
      (first_with (λ a. a.id == approval_id) (get_pending_approvals s.repo task_id))
  unless (not approve || same_status task.status awaiting_approval)
      (task_state task_id task.status (awaiting_approval ∷ []))
  let resolved =
        resolve_approval s.repo clock.first task_id approval_id
          (if approve then approved else rejected) remark (only_if approve modified_args) in
      do
        set_repo resolved.1
        found (approval_already_decided approval_id) resolved.0
        send (
            message_for clock user task_id task "approval_resume"
              (some (decision approve remark modified_args)))
        set_status clock task_id executing
        respond_status task_id

unfoldable pub approve_approval :
    Clock
    → String
    → String
    → Option String
    → Option (Dict Value)
    → ToolContext
    → Handler TaskStatusResponse
approve_approval clock task_id approval_id remark modified_args user = do
  require_ready
  decide_approval clock task_id approval_id true remark modified_args user

unfoldable pub reject_approval :
    Clock → String → String → Option String → ToolContext → Handler TaskStatusResponse
reject_approval clock task_id approval_id remark user = do
  require_ready
  decide_approval clock task_id approval_id false remark none user
