-- ===== src/Tasks/Api.antt =====
-- app/api/v1/tasks.py and the parts of app/api/ that its endpoints call: what an endpoint answers,
-- and what it leaves of the service's state, after an exception too. The requests are parsed and
-- the answers rendered by FastAPI.
pub mod Handlers
pub mod Approvals
pub mod Access
pub mod Queueing
pub mod Restarting
pub mod Waiting
pub mod Cancelling
pub mod Deciding
pub mod Visible
use ai_agent_task_assistant.Common.{
  ℕ, String, Bool, true, false, not, ◌&&◌, Option, none, some, List, [], ◌∷◌, keep_if, Dict, Value,
  ◌==◌, if◌then◌else◌,
}
use ai_agent_task_assistant.Tools.Security.{ToolContext, role_admin, to_dict}
use ai_agent_task_assistant.Queue.{InMemoryTaskQueue, enqueue}
use ai_agent_task_assistant.Queue.Message.{TaskMessage}
use ai_agent_task_assistant.Tasks.Model.{
  TaskStatus, pending, planning, executing, reflecting, replanning, awaiting_approval, paused,
  cancelled, completed, failed, Task,
}
use ai_agent_task_assistant.Tasks.Control.{TaskControlService}
use ai_agent_task_assistant.Tasks.Repository.{Repo}
use ai_agent_task_assistant.Tasks.Service.{get_task}

-- what the endpoints share: the singletons, and whether the readiness gate is open
pub record Server : Type 0 where
  pub repo : Repo
  pub control : TaskControlService
  pub queue : InMemoryTaskQueue
  pub ready : Bool

-- The times that a handler reads: of its first and of its second change, and of its message.
pub record Clock : Type 0 where
  pub first : String
  pub second : String
  pub sent : ℕ

pub data AppException : Type 0 where
  task_not_found task_forbidden : String → AppException
  task_state : String → TaskStatus → List TaskStatus → AppException
  queue_unavailable service_unavailable : AppException
  approval_not_found : String → String → AppException
  approval_already_decided : String → AppException

pub data Reply (A : Type 0) : Type 0 where
  returned : A → Reply A
  raised : AppException → Reply A

abbrev pub Handler : Type 0 → Type 0
Handler A = Server → Reply A × Server

abbrev pub pure : {A : Type 0} → A → Handler A
pure a s = (returned a, s)

abbrev pub raise : {A : Type 0} → AppException → Handler A
raise e s = (raised e, s)

abbrev after : {A B : Type 0} → Reply A × Server → (A → Handler B) → Reply B × Server
after (returned a, s) f = f a s
after (raised e, s) f = (raised e, s)

infixl 5 ◌>>=◌ ◌>>◌
abbrev pub ◌>>=◌ : {A B : Type 0} → Handler A → (A → Handler B) → Handler B
m >>= f = λ s. after (m s) f

abbrev pub ◌>>◌ : {A B : Type 0} → Handler A → Handler B → Handler B
m >> k = m >>= λ _. k

abbrev pub state : Handler Server
state s = (returned s, s)

abbrev pub set_repo : Repo → Handler (Unit {0})
set_repo repo s = (returned tt, record s { repo = repo })

abbrev pub set_control : TaskControlService → Handler (Unit {0})
set_control control s = (returned tt, record s { control = control })

-- `if not b: raise e`
abbrev pub unless : Bool → AppException → Handler (Unit {0})
unless true e = pure tt
unless false e = raise e

abbrev pub found : {A : Type 0} → AppException → Option A → Handler A
found e none = raise e
found e (some a) = pure a

-- `_allowed_statuses`: the members of a set of statuses, sorted by their names
abbrev pub allowed_statuses : (TaskStatus → Bool) → List TaskStatus
allowed_statuses p = keep_if p (
    awaiting_approval ∷ cancelled ∷ completed ∷ executing ∷ failed ∷ paused ∷ pending ∷ planning
    ∷ reflecting ∷ replanning ∷ [])

unfoldable pub can_access_task : Task → ToolContext → Bool
can_access_task task user =
    if user.role == role_admin
    then true
    else task.owner_id == user.user_id && task.tenant_id == user.tenant_id

unfoldable pub require_ready : Handler (Unit {0})
require_ready = state >>= λ s. unless s.ready service_unavailable

-- the first lines of every handler of one task
unfoldable pub accessible_task : ToolContext → String → Handler Task
accessible_task user task_id = do
  s ← state
  task ← found (task_not_found task_id) (get_task s.repo task_id)
  unless (can_access_task task user) (task_forbidden task_id)
  pure task

-- `task_queue.enqueue(…)`, where `QueueFullError` becomes `QueueUnavailableException`
abbrev offered : Server → Option InMemoryTaskQueue → Reply (Unit {0}) × Server
offered s none = (raised queue_unavailable, s)
offered s (some queue) = (returned tt, record s { queue = queue })

unfoldable pub send : TaskMessage → Handler (Unit {0})
send message s = offered s (enqueue s.queue message)

abbrev pub message_for :
    Clock → ToolContext → String → Task → String → Option (Dict Value) → TaskMessage
message_for clock user task_id task action payload = record {
  task_id = task_id;
  goal = task.goal;
  context = task.context;
  tool_context = some (to_dict user);
  action = action;
  payload = payload;
  enqueued_at = clock.sent;
}
