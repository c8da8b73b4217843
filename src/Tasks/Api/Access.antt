-- ===== src/Tasks/Api/Access.antt =====
-- Who may act on a task through the endpoints of app/api/v1/tasks.py and app/api/v1/agent.py.
use ai_agent_task_assistant.Common.{
  ℕ, String, ◌≡◌, ◌↔◌, ◌⊎◌, refl, true, false, Option, none, some, Dict, Value, eq_iff, arith,
}
use ai_agent_task_assistant.Tools.Security.{ToolContext, role_admin}
use ai_agent_task_assistant.Tasks.Model.{Task}
use ai_agent_task_assistant.Tasks.Repository.{get}
use ai_agent_task_assistant.Tasks.Service.{get_task}
use ai_agent_task_assistant.Tasks.Api.{
  Server, Clock, AppException, task_not_found, task_forbidden, returned, raised, Handler, pure,
  ◌>>=◌, can_access_task, require_ready, accessible_task,
}
use ai_agent_task_assistant.Tasks.Api.Handlers.{
  get_task_status, pause_task, execute_task, resume_task, cancel_task, retry_task,
}
use ai_agent_task_assistant.Tasks.Api.Approvals.{
  list_approvals, decide_approval, approve_approval, reject_approval,
}

-- A task is accessible to an administrator, to its owner in its tenant, and to no one else.
pub can_access_task_iff :
    (task : Task) (user : ToolContext)
    → (can_access_task task user ≡ true) ↔ (
        (user.role ≡ role_admin)
        ⊎ ((task.owner_id ≡ user.user_id) × (task.tenant_id ≡ user.tenant_id)))
unfolding can_access_task
can_access_task_iff task user = ground (
  arith,
  eq_iff user.role role_admin,
  eq_iff task.owner_id user.user_id,
  eq_iff task.tenant_id user.tenant_id,
)

-- the requests that name a task, to the endpoints of app/api/v1/tasks.py and app/api/v1/agent.py
pub data Request : Type 0 where
  asks_status pauses : Request
  executes resumes cancels : Clock → Request
  retries : Clock → Option ℕ → Request
  lists_approvals : Request
  approves : Clock → String → Option String → Option (Dict Value) → Request
  rejects : Clock → String → Option String → Request

-- an endpoint without what it answers
abbrev silent : {A : Type 0} → Handler A → Handler (Unit {0})
silent m = m >>= λ _. pure tt

unfoldable pub handle : Request → String → ToolContext → Handler (Unit {0})
handle asks_status task_id user = silent (get_task_status task_id user)
handle pauses task_id user = silent (pause_task task_id user)
handle (executes clock) task_id user = silent (execute_task clock task_id user)
handle (resumes clock) task_id user = silent (resume_task clock task_id user)
handle (cancels clock) task_id user = silent (cancel_task clock task_id user)
handle (retries clock from_index) task_id user = silent (retry_task clock task_id from_index user)
handle lists_approvals task_id user = silent (list_approvals task_id user)
handle (approves clock id remark args) task_id user =
    silent (approve_approval clock task_id id remark args user)
handle (rejects clock id remark) task_id user =
    silent (reject_approval clock task_id id remark user)

pub accessible_task-granted :
    (user : ToolContext) (task_id : String) (s : Server) (task : Task)
    → get s.repo task_id ≡ some task
    → can_access_task task user ≡ true
    → accessible_task user task_id s ≡ (returned task, s)
unfolding accessible_task get_task
accessible_task-granted user task_id s task e f = rw (e, f) refl

pub require_ready-open : (s : Server) → s.ready ≡ true → require_ready s ≡ (returned tt, s)
unfolding require_ready
require_ready-open s h = rw h refl

handle-stops :
    (r : Request) (task_id : String) (user : ToolContext) (s : Server) (e : AppException)
    → s.ready ≡ true
    → accessible_task user task_id s ≡ (raised e, s)
    → handle r task_id user s ≡ (raised e, s)
unfolding handle get_task_status pause_task execute_task resume_task cancel_task retry_task
    list_approvals approve_approval reject_approval decide_approval
handle-stops asks_status task_id user s e ready h = rw h refl
handle-stops pauses task_id user s e ready h = rw h refl
handle-stops (executes clock) task_id user s e ready h = rw (require_ready-open s ready, h) refl
handle-stops (resumes clock) task_id user s e ready h = rw (require_ready-open s ready, h) refl
handle-stops (cancels clock) task_id user s e ready h = rw h refl
handle-stops (retries clock from_index) task_id user s e ready h =
    rw (require_ready-open s ready, h) refl
handle-stops lists_approvals task_id user s e ready h = rw h refl
handle-stops (approves clock id remark args) task_id user s e ready h =
    rw (require_ready-open s ready, h) refl
handle-stops (rejects clock id remark) task_id user s e ready h =
    rw (require_ready-open s ready, h) refl

-- why a caller gets no access to a task, with the exception that says so
pub data IsRefused (s : Server) (user : ToolContext) (task_id : String)
    : AppException → Type 0 where
  is_missing : get s.repo task_id ≡ none → IsRefused s user task_id (task_not_found task_id)
  is_foreign :
      (task : Task)
      → get s.repo task_id ≡ some task
      → can_access_task task user ≡ false
      → IsRefused s user task_id (task_forbidden task_id)

accessible_task-refused :
    (user : ToolContext) (task_id : String) (s : Server) (e : AppException)
    → IsRefused s user task_id e
    → accessible_task user task_id s ≡ (raised e, s)
unfolding accessible_task get_task
accessible_task-refused user task_id s e (is_missing h) = rw h refl
accessible_task-refused user task_id s e (is_foreign task h f) = rw (h, f) refl

-- Where the server is ready, each endpoint of app/api/v1/tasks.py and app/api/v1/agent.py that takes
-- a task's identifier answers a caller who may not access the
-- task with 403, and any caller with 404 where the task is missing, and changes nothing.
pub handle-refused :
    (r : Request) (task_id : String) (user : ToolContext) (s : Server) (e : AppException)
    → s.ready ≡ true
    → IsRefused s user task_id e
    → handle r task_id user s ≡ (raised e, s)
handle-refused r task_id user s e ready h =
    handle-stops r task_id user s e ready (accessible_task-refused user task_id s e h)
