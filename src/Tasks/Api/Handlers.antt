-- ===== src/Tasks/Api/Handlers.antt =====
-- app/api/v1/tasks.py: the endpoints that create, read, pause, resume, cancel and retry tasks, and
-- the endpoint of app/api/v1/agent.py that executes one.
use ai_agent_task_assistant.Common.{
  ℕ, String, Bool, true, false, not, Option, none, some, List, [], ◌∷◌, map, length, ltb, Value,
  null, number, ◌==◌, if◌then◌else◌,
}
use ai_agent_task_assistant.Tools.Security.{ToolContext, role_admin}
use ai_agent_task_assistant.Tasks.Model.{
  TaskStatus, pending, planning, executing, reflecting, replanning, awaiting_approval, paused,
  cancelled, completed, failed, restartable, rejected, ApprovalRequest, Plan, Task,
}
use ai_agent_task_assistant.Tasks.Control.{request_pause, request_cancel, clear}
use ai_agent_task_assistant.Tasks.Repository
use ai_agent_task_assistant.Tasks.Repository.{same_status}
use ai_agent_task_assistant.Tasks.Service
use ai_agent_task_assistant.Tasks.Service.{
  TaskStatusResponse, update_task_status, get_task, get_task_status_response,
}
use ai_agent_task_assistant.Tasks.Service.Approval.{resolve_approval}
use ai_agent_task_assistant.Tasks.Service.Retry.{reset_task_for_retry}
use ai_agent_task_assistant.Tasks.Api.{
  Clock, task_not_found, task_state, Handler, pure, ◌>>=◌, ◌>>◌, state, set_repo, set_control,
  unless, found, allowed_statuses, require_ready, accessible_task, send, message_for,
}

pub record TaskResponse : Type 0 where
  pub task_id : String
  pub status : TaskStatus
  pub plan : Option Plan
  pub created_at : String

unfoldable pub to_task_response : Task → TaskResponse
to_task_response task = record {
  task_id = task.id;
  status = task.status;
  plan = task.plan;
  created_at = task.created_at;
}

-- `to_task_response(await get_task(task_id))`
unfoldable pub respond : String → Handler TaskResponse
unfolding to_task_response
respond task_id = do
  s ← state
  task ← found (task_not_found task_id) (get_task s.repo task_id)
  pure (to_task_response task)

unfoldable pub respond_status : String → Handler TaskStatusResponse
respond_status task_id = do
  s ← state
  found (task_not_found task_id) (get_task_status_response s.repo task_id)

abbrev pub set_status : Clock → String → TaskStatus → Handler (Unit {0})
set_status clock task_id status = do
  s ← state
  set_repo (update_task_status s.repo clock.second task_id status []).1

unfoldable pub create_task :
    String → Clock → String → Option String → ToolContext → Handler TaskResponse
create_task task_id clock goal context user = do
  require_ready
  s ← state
  set_repo
      (Service.create_task task_id clock.first s.repo goal context user.user_id user.tenant_id).1
  respond task_id

pub record TaskListResponse : Type 0 where
  pub total : ℕ
  pub tasks : List TaskResponse

abbrev pub unless_admin : ToolContext → String → Option String
unless_admin user value = if user.role == role_admin then none else some value

-- a page of the tasks that the user may see
unfoldable pub list_tasks : ℕ → ℕ → Option TaskStatus → ToolContext → Handler TaskListResponse
list_tasks limit offset status user = do
  s ← state
  let owner_id = unless_admin user user.user_id in
      let tenant_id = unless_admin user user.tenant_id in
      pure (record {
        total = Repository.count s.repo owner_id tenant_id;
        tasks =
            map to_task_response (Repository.list s.repo limit offset owner_id tenant_id status);
      })

unfoldable pub get_task_status : String → ToolContext → Handler TaskStatusResponse
get_task_status task_id user = do accessible_task user task_id; respond_status task_id

abbrev pub running : TaskStatus → Bool
running planning = true
running executing = true
running reflecting = true
running replanning = true
running awaiting_approval = true
running _ = false

unfoldable pub pause_task : String → ToolContext → Handler TaskStatusResponse
pause_task task_id user = do
  task ← accessible_task user task_id
  unless (running task.status) (task_state task_id task.status (allowed_statuses running))
  s ← state
  set_control (request_pause s.control task_id)
  respond_status task_id

abbrev pub resumable : TaskStatus → Bool
resumable paused = true
resumable cancelled = true
resumable failed = true
resumable completed = true
resumable pending = true
resumable _ = false

unfoldable pub resume_task : Clock → String → ToolContext → Handler TaskResponse
resume_task clock task_id user = do
  require_ready
  task ← accessible_task user task_id
  unless (resumable task.status) (task_state task_id task.status (allowed_statuses resumable))
  s ← state
  set_control (clear s.control task_id)
  send (message_for clock user task_id task "execute" none)
  set_status clock task_id planning
  respond task_id

-- app/api/v1/agent.py
unfoldable pub execute_task : Clock → String → ToolContext → Handler TaskResponse
execute_task clock task_id user = do
  require_ready
  task ← accessible_task user task_id
  unless (restartable task.status) (task_state task_id task.status (allowed_statuses restartable))
  s ← state
  set_control (clear s.control task_id)
  send (message_for clock user task_id task "execute" none)
  set_status clock task_id planning
  respond task_id

abbrev pub terminal : TaskStatus → Bool
terminal completed = true
terminal cancelled = true
terminal failed = true
terminal _ = false

-- the request of a task that awaits its approval
abbrev awaited : Task → Option ApprovalRequest
awaited task = if same_status task.status awaiting_approval then task.pending_approval else none

abbrev reject_awaited : Clock → String → Option ApprovalRequest → Handler (Unit {0})
reject_awaited clock task_id none = pure tt
reject_awaited clock task_id (some request) = do
  s ← state
  set_repo (resolve_approval s.repo clock.first task_id request.id rejected (some "任务被取消") none).1

unfoldable pub cancel_task : Clock → String → ToolContext → Handler TaskStatusResponse
cancel_task clock task_id user = do
  task ← accessible_task user task_id
  unless (not (terminal task.status))
      (task_state task_id task.status (allowed_statuses (λ s. not (terminal s))))
  s ← state
  set_control (request_cancel s.control task_id)
  reject_awaited clock task_id (awaited task)
  respond_status task_id

-- `from_index < len(task.subtasks)`, where there is a `from_index`
abbrev pub in_range : Option ℕ → Task → Bool
in_range none task = true
in_range (some i) task = ltb i (length task.subtasks)

abbrev pub number_or_null : Option ℕ → Value
number_or_null none = null
number_or_null (some i) = number i

unfoldable pub retry_task : Clock → String → Option ℕ → ToolContext → Handler TaskResponse
retry_task clock task_id from_index user = do
  require_ready
  task ← accessible_task user task_id
  unless (restartable task.status) (task_state task_id task.status (allowed_statuses restartable))
  unless (in_range from_index task) (task_state task_id task.status [])
  s ← state
  set_repo (reset_task_for_retry s.repo clock.first task_id from_index).1
  set_control (clear s.control task_id)
  send (
      message_for clock user task_id task "execute"
        (some (("retry_from_index", number_or_null from_index) ∷ [])))
  set_status clock task_id planning
  respond task_id
