-- ===== src/Workflow.antt =====
-- app/agent/workflow.py, app/agent/planner_node.py and app/agent/reflection_node.py: the graph of
-- nodes that one run of the agent goes through. What the LLM and the tools give in a step is an
-- argument; a node that stops is one that raises (an exhausted budget, a pause for an approval).
-- Of the state the fields that steer the run are kept.
pub mod Graph
use ai_agent_task_assistant.Common.{
  ℕ, zero, suc, ◌+◌, ◌-◌, ◌<◌, String, Bool, true, false, not, ◌&&◌, Option, none, some, List, [],
  ◌∷◌, ◌++◌, length, take, ltb, leb, Text, codes, text_eq, lower, strip, if◌then◌else◌,
}
use ai_agent_task_assistant.Schedule
use ai_agent_task_assistant.Team.{
  mode_multi_agent, mode_single, AgentRole, Decision, Assignment, supervise, Work, AgentResult,
  run_agents,
}
use ai_agent_task_assistant.Schedule.{PlannedTask, TaskResult, Progress}

-- a plan that is not the empty dict: its key `subtasks`, if it has one
pub record PlanDict : Type 0 where
  pub subtasks : Option (List PlannedTask)

pub data Reflection : Type 0 where
  judged : Bool → Reflection
  degraded : Reflection

-- the text of the result, by what makes it
pub data FinalResult : Type 0 where
  no_valid_plan replan_failed : FinalResult
  synthesized : List TaskResult → FinalResult
  reviewed : Text → FinalResult
  collected : List AgentResult → FinalResult

pub record AgentState : Type 0 where
  pub plan : Option PlanDict
  pub plan_version : ℕ
  pub execution_mode : Option Text
  pub agent_assignments : List Assignment
  pub agent_results : List AgentResult
  pub current_task_index : ℕ
  pub task_results : List TaskResult
  pub retry_from_index : Option ℕ
  pub reflection_result : Option Reflection
  pub should_replan : Bool
  pub iteration_count : ℕ
  pub final_result : Option FinalResult

-- what a call of the LLM gives: an answer, an exception, or an exhausted budget
pub data Answer (A : Type 0) : Type 0 where
  gives : A → Answer A
  fails : Answer A
  over_budget : Answer A

-- what one step gets from the LLM and the tools; the node that runs reads its own field
pub record Answers : Type 0 where
  pub supervised : Answer Decision
  pub planned : Answer (Option PlanDict)
  pub performed : Option (ℕ → List TaskResult → TaskResult)
  pub judged : Answer Bool
  pub work : AgentRole → Assignment → List AgentResult → Work
  pub reviewed : Answer Text

pub data Update : Type 0 where
  updated : AgentState → Update
  stopped : Update

abbrev listed : Option (List PlannedTask) → List PlannedTask
listed none = []
listed (some tasks) = tasks

-- `plan.get("subtasks", []) if plan else []`
abbrev pub tasks_of : Option PlanDict → List PlannedTask
tasks_of none = []
tasks_of (some plan) = listed plan.subtasks

-- `plan and "subtasks" in plan`
abbrev valid_tasks : Option PlanDict → Option (List PlannedTask)
valid_tasks none = none
valid_tasks (some plan) = plan.subtasks

-- `PlannerNode.run` on a first plan; a list that a node returns for `task_results` is appended, and
-- this node returns the empty one
abbrev pub fresh_plan : AgentState → Answer (Option PlanDict) → Update
fresh_plan s over_budget = stopped
fresh_plan s fails = updated (record s {
  plan = none;
  plan_version = 0;
  current_task_index = 0;
  iteration_count = 0;
  should_replan = false;
  reflection_result = none;
  final_result = none;
})
fresh_plan s (gives plan) = updated (record s {
  plan = plan;
  plan_version = 1;
  current_task_index = 0;
  iteration_count = 0;
  should_replan = false;
  reflection_result = none;
  final_result = none;
})

-- a retry with a plan: the results below the index are appended once more
abbrev pub plan_or_reuse :
    AgentState → Option ℕ → Option PlanDict → Answer (Option PlanDict) → Update
plan_or_reuse s (some i) (some plan) answer = updated (record s {
  current_task_index = i;
  task_results = s.task_results ++ take i s.task_results;
  retry_from_index = none;
  should_replan = false;
})
plan_or_reuse s (some i) none answer = fresh_plan s answer
plan_or_reuse s none plan answer = fresh_plan s answer

unfoldable pub planner : Answers → AgentState → Update
planner a s = plan_or_reuse s s.retry_from_index s.plan a.planned

-- `PlannerNode.replan`
abbrev replanned : AgentState → Answer (Option PlanDict) → Update
replanned s over_budget = stopped
replanned s fails = updated (record s {
  should_replan = false;
  iteration_count = s.iteration_count + 1;
  final_result = some replan_failed;
})
replanned s (gives plan) = updated (record s {
  plan = plan;
  plan_version = s.plan_version + 1;
  current_task_index = 0;
  should_replan = false;
  iteration_count = s.iteration_count + 1;
})

unfoldable pub replanner : Answers → AgentState → Update
replanner a s = replanned s a.planned

-- `ExecutorNode.run`
abbrev progressed : AgentState → Progress → AgentState
progressed s p = record s {
  current_task_index = p.current_task_index;
  task_results = p.task_results;
}

abbrev progress_of : AgentState → Progress
progress_of s = record { current_task_index = s.current_task_index; task_results = s.task_results }

abbrev executed :
    AgentState → Option (List PlannedTask) → Option (ℕ → List TaskResult → TaskResult) → Update
executed s none perform = updated (record s { final_result = some no_valid_plan })
executed s (some tasks) none =
    if leb (length tasks) s.current_task_index then updated s else stopped
executed s (some tasks) (some perform) =
    updated (progressed s (Schedule.run perform tasks (progress_of s)))

unfoldable pub executor : Answers → AgentState → Update
executor a s = executed s (valid_tasks s.plan) a.performed

pub data Route : Type 0 where
  replan continue complete : Route

module _ (max_iterations : ℕ) where
  abbrev wants_replan : AgentState → Bool → Bool
  wants_replan s satisfied = not satisfied && ltb s.iteration_count max_iterations

  -- `ReflectionNode.run` where all subtasks are done
  abbrev evaluated : AgentState → Answer Bool → Update
  evaluated s over_budget = stopped
  evaluated s fails = updated (record s {
    reflection_result = some degraded;
    should_replan = false;
    final_result = some (synthesized s.task_results);
  })
  evaluated s (gives satisfied) = updated (record s {
    reflection_result = some (Reflection.judged satisfied);
    should_replan = wants_replan s satisfied;
    final_result = if wants_replan s satisfied then none else some (synthesized s.task_results);
  })

  unfoldable pub reflection : Answers → AgentState → Update
  reflection a s =
      if leb (length (tasks_of s.plan)) s.current_task_index
      then evaluated s a.judged
      else updated
          (record s { reflection_result = none; should_replan = false; final_result = none })

  -- `_route_after_reflection`
  unfoldable pub route_after_reflection : AgentState → Route
  route_after_reflection s =
      if leb max_iterations s.iteration_count
      then complete
      else if s.should_replan
      then replan
      else if ltb s.current_task_index (length (tasks_of s.plan))
      then continue
      else complete

-- `SupervisorNode.run`; assignments are appended
abbrev pub directed : AgentState → Text × List Assignment → AgentState
directed s (mode, assignments) = record s {
  execution_mode = some mode;
  agent_assignments = s.agent_assignments ++ assignments;
}

abbrev pub supervised_by : AgentState → Answer Decision → Update
supervised_by s over_budget = stopped
supervised_by s fails = updated (directed s (supervise none))
supervised_by s (gives decision) = updated (directed s (supervise (some decision)))

unfoldable pub supervisor : Answers → AgentState → Update
supervisor a s = supervised_by s a.supervised

abbrev worked : AgentState → Option (List AgentResult) → Update
worked s none = stopped
worked s (some results) = updated (record s { agent_results = s.agent_results ++ results })

-- `SubAgentsNode.run`
unfoldable pub sub_agents : ℕ → Answers → AgentState → Update
sub_agents max_steps a s = worked s (run_agents a.work max_steps s.agent_assignments)

-- `ReviewerNode.run`: where the review fails the agents' results are the result
abbrev pub reviewed_by : AgentState → Answer Text → Update
reviewed_by s over_budget = stopped
reviewed_by s fails = updated (record s { final_result = some (collected s.agent_results) })
reviewed_by s (gives t) =
    updated (record s { final_result = some (FinalResult.reviewed (strip t)) })

unfoldable pub reviewer : Answers → AgentState → Update
reviewer a s = reviewed_by s a.reviewed

abbrev mode_of : Option Text → Text
mode_of none = mode_single
mode_of (some []) = mode_single
mode_of (some (c ∷ mode)) = c ∷ mode

abbrev is_some_assignment : List Assignment → Bool
is_some_assignment [] = false
is_some_assignment (a ∷ assignments) = true

-- `_route_after_supervisor`: whether the agents work as a team
unfoldable pub goes_to_team : AgentState → Bool
goes_to_team s =
    text_eq (lower (strip (mode_of s.execution_mode))) mode_multi_agent
    && is_some_assignment s.agent_assignments
