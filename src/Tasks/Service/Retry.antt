-- ===== src/Tasks/Service/Retry.antt =====
-- app/services/task_service.py: `reset_task_for_retry`.
use ai_agent_task_assistant.Common.{
  ℕ, suc, String, Bool, false, Option, none, some, List, [], ◌∷◌, ltb, if◌then◌else◌,
}
use ai_agent_task_assistant.Tasks.Model.{pending, SubTask, Task}
use ai_agent_task_assistant.Tasks.Repository.{Repo, get}
use ai_agent_task_assistant.Tasks.Service.{on_task}

abbrev pub renewed : SubTask → SubTask
renewed s = record s { status = pending; result = none; error = none; tool_used = none }

-- `from_index is not None and i < from_index`
abbrev pub kept : Option ℕ → ℕ → Bool
kept none i = false
kept (some from_index) i = ltb i from_index

unfoldable pub reset_subtasks : Option ℕ → ℕ → List SubTask → List SubTask
reset_subtasks from_index i [] = []
reset_subtasks from_index i (s ∷ subtasks) =
    (if kept from_index i then s else renewed s) ∷ reset_subtasks from_index (suc i) subtasks

abbrev pub reset_task : Option ℕ → String → Task → Task
reset_task from_index now task = record task {
  final_result = none;
  error = none;
  reflection = none;
  subtasks = reset_subtasks from_index 0 task.subtasks;
  updated_at = now;
}

unfoldable pub reset_task_for_retry : Repo → String → String → Option ℕ → Option Task × Repo
unfolding reset_subtasks
reset_task_for_retry repo now task_id from_index =
    on_task repo (get repo task_id) (reset_task from_index now)
