-- ===== src/Tests/Rounds.antt =====
-- Rounds of the executor (app/agent/executor_node.py) on small plans.
use ai_agent_task_assistant.Common.{ℕ, ◌≡◌, ◌≢◌, refl, none, some, List, [], ◌∷◌, All, arith}
use ai_agent_task_assistant.Schedule.{
  PlannedTask, TaskResult, Progress, completed_ids, is_ready, ready_from, get_parallel_batch,
  executes, run, rounds,
}
use ai_agent_task_assistant.Schedule.Rounds.{rounds-serial, rounds-skip}

abbrev perform : ℕ → List TaskResult → TaskResult
perform i results = record { subtask_id = some "x"; status = "completed" }

abbrev start : Progress
start = record { current_task_index = 0; task_results = [] }

abbrev plain_task : PlannedTask
plain_task = record { id = none; depends_on = none }

abbrev plain_plan : List PlannedTask
plain_plan = plain_task ∷ plain_task ∷ []

rounds-serial_example : rounds perform plain_plan 2 start ≡ 0 ∷ 1 ∷ []
rounds-serial_example = rounds-serial perform plain_plan 2 start refl refl

-- the second of these needs the first, and the third needs nothing
abbrev forked_plan : List PlannedTask
forked_plan =
    record { id = some "a"; depends_on = none }
    ∷ record { id = some "b"; depends_on = some ("a" ∷ []) }
    ∷ record { id = some "c"; depends_on = some [] }
    ∷ []

-- The first round executes the first and the third, and the second is never executed.
rounds-skip_example : All (λ k. k ≢ 1) (rounds perform forked_plan 5 start)
unfolding executes run get_parallel_batch completed_ids is_ready ready_from
rounds-skip_example =
    rounds-skip perform forked_plan 4 start 1
      ((λ h. omega (arith, h)), ((λ h. omega (arith, h)), tt)) (omega arith)
