-- ===== src/Tests/Graphs.antt =====
-- Runs of the graph of app/agent/workflow.py, and of the sub-agents, on small inputs.
use ai_agent_task_assistant.Common.{
  ℕ, ◌<◌, ◌≡◌, ◌≢◌, refl, codes, false, none, some, List, [], ◌∷◌, map, take, length, arith,
}
use ai_agent_task_assistant.Schedule.{PlannedTask, TaskResult}
use ai_agent_task_assistant.Schedule
use ai_agent_task_assistant.Team.{
  AgentRole, Assignment, AgentResult, Decision, Work, run_agents, supervise,
}
use ai_agent_task_assistant.Team.Assignments.{answered, IsTeam, run_agents-total, supervise-IsClean}
use ai_agent_task_assistant.Workflow
use ai_agent_task_assistant.Workflow.{
  PlanDict, AgentState, Answer, gives, fails, Answers, Update, updated, tasks_of,
}
use ai_agent_task_assistant.Workflow.Graph.{supervisor, executor, replanner, finished, running, run}
use ai_agent_task_assistant.Workflow.Graph.Measure.{Sized}
use ai_agent_task_assistant.Workflow.Graph.Bound.{run-ends}
use ai_agent_task_assistant.Workflow.Graph.Iterations.{run-last_plan}
use ai_agent_task_assistant.Agent.Service.{initial_state}

abbrev two_tasks : PlanDict
two_tasks = record {
  subtasks =
      some (record { id = none; depends_on = none } ∷ record { id = none; depends_on = none } ∷ []);
}

abbrev done_by : ℕ → List TaskResult → TaskResult
done_by i results = record { subtask_id = some "x"; status = "completed" }

abbrev at_work : AgentRole → Assignment → List AgentResult → Work
at_work agent a results = Work.answers (codes "done")

abbrev steady : ℕ → Answers
steady k = record {
  supervised = fails;
  planned = gives (some two_tasks);
  performed = some done_by;
  judged = gives false;
  work = at_work;
  reviewed = fails;
}

abbrev start : AgentState
start = initial_state none []

steady-Sized : (k : ℕ) → Sized 3 2 (steady k)
steady-Sized k plan e = ground (arith, e)

run-ends_example : run 3 4 steady 30 0 supervisor start ≢ running executor start
unfolding initial_state
run-ends_example =
    run-ends 3 2 4 steady steady-Sized 30 0 supervisor executor start start (omega arith)
      (omega arith)

-- the last replanning of three, with two subtasks in each plan
abbrev worn : AgentState
worn = record start { iteration_count = 2 }

abbrev replanned_state : AgentState
replanned_state = record worn {
  plan = some two_tasks;
  plan_version = 1;
  current_task_index = 0;
  should_replan = false;
  iteration_count = 3;
}

abbrev executed_state : AgentState
executed_state = record replanned_state {
  current_task_index = 1;
  task_results = record { subtask_id = some "x"; status = "completed" } ∷ [];
}

abbrev reflected_state : AgentState
reflected_state = record executed_state {
  reflection_result = none;
  should_replan = false;
  final_result = none;
}

run-last_plan_example :
    (run 3 4 steady 3 0 replanner worn ≡ finished reflected_state)
    × (executed_state.current_task_index < length (tasks_of executed_state.plan)
        → reflected_state.final_result ≡ none)
unfolding Workflow.replanner Workflow.executor Workflow.reflection initial_state Schedule.run
    Schedule.executes Schedule.get_parallel_batch
run-last_plan_example =
    run-last_plan 3 4 steady 0 worn replanned_state executed_state reflected_state 0 refl refl refl
      refl

abbrev two_assignments : List Assignment
two_assignments =
    record { role = codes "data"; objective = codes "count" }
    ∷ record { role = codes "writing"; objective = codes "tell" }
    ∷ []

run_agents-total_example :
    (rs : List AgentResult) × (run_agents at_work 1 two_assignments ≡ some rs)
    × (map answered rs ≡ take 1 two_assignments)
run_agents-total_example =
    run_agents-total at_work (λ agent a results h. absurd (cc h)) 1 two_assignments

abbrev decided : Decision
decided = record {
  mode = some (codes "multi_agent");
  agents = record { role = some (codes "data"); objective = some (codes "count") } ∷ [];
}

supervise-IsClean_example : IsTeam (supervise (some decided))
supervise-IsClean_example = supervise-IsClean (some decided)
