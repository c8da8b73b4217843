-- ===== src/Tests/Store.antt =====
-- The stored tasks (app/services/) on small inputs.
use ai_agent_task_assistant.Common.{◌≡◌, refl, none, some, [], ◌∷◌, codes, lookup, arith, eq_iff}
use ai_agent_task_assistant.Tasks.Model.{
  awaiting_approval, completed, failed, ApprovalStatus, approved, rejected, ApprovalRequest,
  SubTask, Task,
}
use ai_agent_task_assistant.Tasks.Control.{empty, pause_of, cancel_of}
use ai_agent_task_assistant.Tasks.Control.Requests.{run, Shows, to_cancel, run-Shows_wish}
use ai_agent_task_assistant.Tasks.Repository.{Repo, get}
use ai_agent_task_assistant.Tasks.Service.{update_task_status}
use ai_agent_task_assistant.Tasks.Service.Sync.{RawResult}
use ai_agent_task_assistant.Tasks.Service.Approval.{resolve_approval}
use ai_agent_task_assistant.Tasks.Service.Approval.Decided.{resolve_approval_once}
use ai_agent_task_assistant.Tasks.Service.Keyed.{IsKeyed, Keeps, sets_status}
use ai_agent_task_assistant.Tasks.Service.Reach.{done, next, Calls-Keeps}

abbrev pub request : ApprovalRequest
request = record {
  id = "a1";
  task_id = "t1";
  tool_name = "deploy";
  args = [];
  reason = "acts";
  status = ApprovalStatus.pending;
  created_at = "2026-01-01";
  decided_at = none;
  decision_note = none;
  modified_args = none;
}

abbrev pub subtask : SubTask
subtask = record {
  id = "task_0";
  description = "search";
  status = completed;
  result = some "found";
  tool_used = some "web_search";
  error = none;
  dependencies = [];
}

-- a task that waits for the decision on `request`
abbrev pub waiting_task : Task
waiting_task = record {
  id = "t1";
  goal = "deploy it";
  context = none;
  owner_id = "ann";
  tenant_id = "acme";
  status = awaiting_approval;
  subtasks = subtask ∷ [];
  plan = none;
  reflection = none;
  plan_version = 1;
  iteration_count = 0;
  execution_mode = none;
  agent_results = [];
  pending_approval = some request;
  approval_history = request ∷ [];
  final_result = none;
  error = none;
  created_at = "2026-01-01";
  updated_at = "2026-01-01";
}

-- the repository with one task under "t1"
abbrev pub only : Task → Repo
only task = ("t1", task) ∷ []

-- One task under its identifier is a keyed repository.
pub only-IsKeyed : (task : Task) → task.id ≡ "t1" → IsKeyed (only task)
unfolding get lookup
only-IsKeyed task e = record { at = λ k t h. ground (arith, eq_iff "t1" k) }

run-Shows_wish_example : Shows (run empty (pause_of "t1" ∷ cancel_of "t1" ∷ [])) "t1" to_cancel
run-Shows_wish_example = run-Shows_wish (pause_of "t1" ∷ cancel_of "t1" ∷ []) "t1"

Calls-Keeps_example :
    Keeps (only waiting_task) (update_task_status (only waiting_task) "2026-01-02" "t1" failed []).1
Calls-Keeps_example =
    Calls-Keeps (only waiting_task) _ (only-IsKeyed waiting_task refl)
      (next done (sets_status "2026-01-02" "t1" failed [] tt))

abbrev other_result : RawResult
other_result = record {
  subtask_id = some "x";
  status = codes "completed";
  result = some "r";
  tool_used = none;
  error = none;
}

resolve_approval_once_example :
    let repo = (resolve_approval (only waiting_task) "2026-01-02" "t1" "a1" approved none none).1 in
    resolve_approval repo "2026-01-03" "t1" "a1" rejected none none ≡ (none, repo)
unfolding resolve_approval get lookup
resolve_approval_once_example =
    resolve_approval_once (only waiting_task) "2026-01-02" "t1" "a1" approved none none
      (only-IsKeyed waiting_task refl) (λ h. cc h) "2026-01-03" "a1" rejected none none
