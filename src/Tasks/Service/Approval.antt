-- ===== src/Tasks/Service/Approval.antt =====
-- app/services/task_service.py: the approval requests of a task.
pub mod Decided
use ai_agent_task_assistant.Common.{
  String, Bool, true, false, not, Option, none, some, List, [], ◌∷◌, ◌++◌, keep_if, Dict, Value,
  ◌==◌, if◌then◌else◌,
}
use ai_agent_task_assistant.Tasks.Model.{ApprovalStatus, is_pending, ApprovalRequest, Task}
use ai_agent_task_assistant.Tasks.Repository.{Repo, get, update}
use ai_agent_task_assistant.Tasks.Service.{on_task}

unfoldable pub save_approval_request : Repo → String → ApprovalRequest → Repo
save_approval_request repo now request =
    (on_task repo (get repo request.task_id) (λ task. record task {
      pending_approval = some request;
      approval_history = task.approval_history ++ (request ∷ []);
      updated_at = now;
    })).1

-- The first entry of the history with the id is replaced.
replace_first : String → ApprovalRequest → List ApprovalRequest → List ApprovalRequest
replace_first approval_id request [] = []
replace_first approval_id request (item ∷ history) =
    let rest = replace_first approval_id request history in
    if item.id == approval_id then request ∷ history else item ∷ rest

abbrev pub decided :
    String
    → ApprovalStatus
    → Option String
    → Option (Dict Value)
    → ApprovalRequest
    → ApprovalRequest
decided now status remark modified_args request = record request {
  status = status;
  decided_at = some now;
  decision_note = remark;
  modified_args = modified_args;
}

abbrev settled : String → String → ApprovalRequest → Task → Task
settled now approval_id request task = record task {
  pending_approval = none;
  approval_history = replace_first approval_id request task.approval_history;
  updated_at = now;
}

-- the request that a decision is for: the task's own, with that id and not decided yet
abbrev pub open_request : String → Option ApprovalRequest → Option ApprovalRequest
open_request approval_id none = none
open_request approval_id (some request) =
    if not (request.id == approval_id)
    then none
    else if not (is_pending request.status)
    then none
    else some request

abbrev settle :
    Repo
    → String
    → String
    → ApprovalStatus
    → Option String
    → Option (Dict Value)
    → Task
    → Option ApprovalRequest
    → Option ApprovalRequest × Repo
settle repo now approval_id status remark modified_args task none = (none, repo)
settle repo now approval_id status remark modified_args task (some request) =
    let request' = decided now status remark modified_args request in
    (some request', update repo (settled now approval_id request' task))

abbrev resolve :
    Repo
    → String
    → String
    → ApprovalStatus
    → Option String
    → Option (Dict Value)
    → Option Task
    → Option ApprovalRequest × Repo
resolve repo now approval_id status remark modified_args none = (none, repo)
resolve repo now approval_id status remark modified_args (some task) =
    settle repo now approval_id status remark modified_args task
      (open_request approval_id task.pending_approval)

unfoldable pub resolve_approval :
    Repo
    → String
    → String
    → String
    → ApprovalStatus
    → Option String
    → Option (Dict Value)
    → Option ApprovalRequest × Repo
unfolding replace_first
resolve_approval repo now task_id approval_id status remark modified_args =
    resolve repo now approval_id status remark modified_args (get repo task_id)

abbrev pub undecided : List ApprovalRequest → List ApprovalRequest
undecided history = keep_if (λ a. is_pending a.status) history

abbrev undecided_of : Option Task → List ApprovalRequest
undecided_of none = []
undecided_of (some task) = undecided task.approval_history

unfoldable pub get_pending_approvals : Repo → String → List ApprovalRequest
get_pending_approvals repo task_id = undecided_of (get repo task_id)
