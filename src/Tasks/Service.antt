-- ===== src/Tasks/Service.antt =====
-- app/services/task_service.py: `TaskService` over the in-memory repository. `now` is the time that
-- `_utcnow_iso` gives in the call; the identifier of a new task is an argument. The choice of the
-- repository and the logging are left out.
pub mod Sync
pub mod Approval
pub mod Retry
pub mod Keyed
pub mod Reach
pub mod Progress
use ai_agent_task_assistant.Common.{
  Value, ℕ, zero, suc, ◌+◌, String, Bool, true, false, Option, none, some, List, [], ◌∷◌, length,
  count_if, if◌then◌else◌,
}
use ai_agent_task_assistant.Tasks.Model.{
  ApprovalRequest, TaskStatus, pending, executing, completed, SubTask, Plan, ReflectionResult, Task,
}
use ai_agent_task_assistant.Tasks.Repository.{Repo, create, get, update, same_status}

abbrev new_task : String → String → String → Option String → String → String → Task
new_task task_id now goal context owner_id tenant_id = record {
  id = task_id;
  goal = goal;
  context = context;
  owner_id = owner_id;
  tenant_id = tenant_id;
  status = pending;
  subtasks = [];
  plan = none;
  reflection = none;
  plan_version = 1;
  iteration_count = 0;
  execution_mode = none;
  agent_results = [];
  pending_approval = none;
  approval_history = [];
  final_result = none;
  error = none;
  created_at = now;
  updated_at = now;
}

unfoldable pub create_task :
    String → String → Repo → String → Option String → String → String → String × Repo
create_task task_id now repo goal context owner_id tenant_id =
    (task_id, create repo (new_task task_id now goal context owner_id tenant_id))

unfoldable pub get_task : Repo → String → Option Task
get_task repo task_id = get repo task_id

-- the keyword arguments of `update_task_status`: a new value for a field of the task, or a name that
-- the task does not have, which is passed over
pub data Change : Type 0 where
  id_to goal_to owner_id_to tenant_id_to created_at_to updated_at_to : String → Change
  context_to execution_mode_to final_result_to error_to : Option String → Change
  subtasks_to : List SubTask → Change
  plan_to : Option Plan → Change
  reflection_to : Option ReflectionResult → Change
  plan_version_to iteration_count_to : ℕ → Change
  agent_results_to : List Value → Change
  pending_approval_to : Option ApprovalRequest → Change
  approval_history_to : List ApprovalRequest → Change
  no_field : String → Change

abbrev change : Change → Task → Task
change (id_to v) task = record task { id = v }
change (goal_to v) task = record task { goal = v }
change (owner_id_to v) task = record task { owner_id = v }
change (tenant_id_to v) task = record task { tenant_id = v }
change (created_at_to v) task = record task { created_at = v }
change (updated_at_to v) task = record task { updated_at = v }
change (context_to v) task = record task { context = v }
change (execution_mode_to v) task = record task { execution_mode = v }
change (subtasks_to v) task = record task { subtasks = v }
change (plan_to v) task = record task { plan = v }
change (reflection_to v) task = record task { reflection = v }
change (plan_version_to v) task = record task { plan_version = v }
change (iteration_count_to v) task = record task { iteration_count = v }
change (agent_results_to v) task = record task { agent_results = v }
change (pending_approval_to v) task = record task { pending_approval = v }
change (approval_history_to v) task = record task { approval_history = v }
change (no_field name) task = task
change (final_result_to r) task = record task { final_result = r }
change (error_to e) task = record task { error = e }

abbrev pub changes : List Change → Task → Task
changes [] task = task
changes (c ∷ cs) task = changes cs (change c task)

-- Read a task, change it, write it back; where it is missing nothing happens.
abbrev pub on_task : Repo → Option Task → (Task → Task) → Option Task × Repo
on_task repo none f = (none, repo)
on_task repo (some task) f = (some (f task), update repo (f task))

unfoldable pub update_task_status :
    Repo → String → String → TaskStatus → List Change → Option Task × Repo
update_task_status repo now task_id status kwargs =
    on_task repo (get repo task_id)
      (λ task. changes kwargs (record task { status = status; updated_at = now }))

-- What the status endpoint returns of a task. The progress is the share of the completed subtasks,
-- as two numbers, where the source divides them.
pub record TaskStatusResponse : Type 0 where
  pub task : Task
  pub current_step : Option (ℕ × ℕ × String)
  pub completed : ℕ
  pub total : ℕ

abbrev pub is_status : TaskStatus → SubTask → Bool
is_status s st = same_status st.status s

-- the first pending subtask, with its number from 1
first_pending : ℕ → ℕ → List SubTask → Option (ℕ × ℕ × String)
first_pending i total [] = none
first_pending i total (s ∷ subtasks) =
    let rest = first_pending (suc i) total subtasks in
    if is_status pending s then some (i + 1, total, s.description) else rest

unfoldable pub status_response : Task → TaskStatusResponse
unfolding first_pending
status_response task = record {
  task = task;
  current_step =
      if same_status task.status executing
      then first_pending 0 (length task.subtasks) task.subtasks
      else none;
  completed = count_if (is_status completed) task.subtasks;
  total = length task.subtasks;
}

unfoldable pub get_task_status_response : Repo → String → Option TaskStatusResponse
unfolding status_response
get_task_status_response repo task_id = elim (get repo task_id) [
  | none ↦ none
  | some task ↦ some (status_response task)
]
