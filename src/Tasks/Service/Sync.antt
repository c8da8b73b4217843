-- ===== src/Tasks/Service/Sync.antt =====
-- app/services/task_service.py: what a run of the agent writes back into its task. The dicts that
-- the nodes produce are records whose fields may be missing.
use Prim.Native.String.{◌++◌}
use ai_agent_task_assistant.Common.{
  ℕ, zero, suc, String, Text, Bool, true, false, Option, none, some, List, [], ◌∷◌, Value, codes,
  lower, text_eq, decimal, ◌==◌, if◌then◌else◌,
}
use mathlib.Core.List
use ai_agent_task_assistant.Tasks.Model.{
  TaskStatus, pending, completed, failed, SubTask, ReflectionResult, Task,
}
use ai_agent_task_assistant.Tasks.Repository.{Repo, get}
use ai_agent_task_assistant.Tasks.Service.{on_task}

pub record RawSubTask : Type 0 where
  pub id : Option String
  pub description : Option String
  pub dependencies : List String

-- a plan that is not `None` and not the empty dict
pub record RawPlan : Type 0 where
  pub subtasks : List RawSubTask
  pub version : Option ℕ
  pub goal : Option String
  pub reasoning : Option String

abbrev pub or_text : Option String → String → String
or_text none default = default
or_text (some s) default = s

-- `f"task_{i}"`
unfoldable pub numbered : ℕ → String
unfolding decimal
numbered i = "task_" ++ decimal i

plan_subtasks : ℕ → List RawSubTask → List SubTask
plan_subtasks i [] = []
plan_subtasks i (st ∷ raw) =
    record {
      id = or_text st.id (numbered i);
      description = or_text st.description "";
      status = pending;
      result = none;
      tool_used = none;
      error = none;
      dependencies = st.dependencies;
    }
    ∷ plan_subtasks (suc i) raw

-- `int(plan.get("version", task.plan_version) or task.plan_version)`
abbrev plan_version : Option ℕ → ℕ → ℕ
plan_version none current = current
plan_version (some zero) current = current
plan_version (some (suc v)) current = suc v

abbrev with_plan : String → RawPlan → Task → Task
with_plan now plan task =
    let subtasks = plan_subtasks 0 plan.subtasks in
    let version = plan_version plan.version task.plan_version in
    record task {
      plan = some (record {
        goal = or_text plan.goal task.goal;
        version = version;
        reasoning = plan.reasoning;
      });
      subtasks = subtasks;
      plan_version = version;
      updated_at = now;
    }

-- `not plan` ends the call, as a missing task does
unfoldable pub sync_plan : Repo → String → String → Option RawPlan → Repo
unfolding plan_subtasks numbered
sync_plan repo now task_id none = repo
sync_plan repo now task_id (some plan) = (on_task repo (get repo task_id) (with_plan now plan)).1

pub record RawResult : Type 0 where
  pub subtask_id : Option String
  pub status : Text
  pub result : Option String
  pub tool_used : Option String
  pub error : Option String

abbrev pub result_status : Text → TaskStatus → TaskStatus
result_status raw current =
    if text_eq (lower raw) (codes "completed")
    then completed
    else if text_eq (lower raw) (codes "failed")
    then failed
    else current

abbrev pub with_result : RawResult → SubTask → SubTask
with_result r s = record s {
  status = result_status r.status s.status;
  result = r.result;
  tool_used = r.tool_used;
  error = r.error;
}

-- Of subtasks with one id the dict `by_id` holds the last.
unfoldable pub write_last : String → RawResult → List SubTask → List SubTask × Bool
write_last sid r [] = ([], false)
write_last sid r (s ∷ subtasks) =
    let (rest, done) = write_last sid r subtasks in
    if done
    then (s ∷ rest, true)
    else if s.id == sid
    then (with_result r s ∷ rest, true)
    else (s ∷ rest, false)

unfoldable pub write_results : ℕ → List RawResult → List SubTask → List SubTask
unfolding write_last numbered
write_results i [] subtasks = subtasks
write_results i (r ∷ results) subtasks =
    write_results (suc i) results (write_last (or_text r.subtask_id (numbered i)) r subtasks).0

unfoldable pub sync_task_results : Repo → String → String → List RawResult → Repo
unfolding write_results text_eq lower
sync_task_results repo now task_id [] = repo
sync_task_results repo now task_id (r ∷ results) =
    (on_task repo (get repo task_id) (λ task. record task {
      subtasks = write_results 0 (r ∷ results) task.subtasks;
      updated_at = now;
    })).1

-- The outer `none` is no reflection, or an empty one; the inner one is a dict from which no
-- `ReflectionResult` can be made.
abbrev reflected :
    Option (Option ReflectionResult) → Option ReflectionResult → Option ReflectionResult
reflected none current = current
reflected (some r) current = r

abbrev counted : Option ℕ → ℕ → ℕ
counted none current = current
counted (some n) current = n

unfoldable pub sync_reflection :
    Repo → String → String → Option (Option ReflectionResult) → Option ℕ → Repo
sync_reflection repo now task_id reflection iteration_count =
    (on_task repo (get repo task_id) (λ task. record task {
      reflection = reflected reflection task.reflection;
      iteration_count = counted iteration_count task.iteration_count;
      updated_at = now;
    })).1

unfoldable pub sync_execution_mode : Repo → String → String → Option String → Repo
sync_execution_mode repo now task_id mode =
    (on_task repo (get repo task_id)
      (λ task. record task { execution_mode = mode; updated_at = now })).1

unfoldable pub sync_agent_results : Repo → String → String → List Value → Repo
sync_agent_results repo now task_id [] = repo
sync_agent_results repo now task_id (r ∷ results) =
    (on_task repo (get repo task_id) (λ task. record task {
      agent_results = List.◌++◌ task.agent_results (r ∷ results);
      updated_at = now;
    })).1
