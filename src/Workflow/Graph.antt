-- ===== src/Workflow/Graph.antt =====
-- app/agent/workflow.py: the graph, and its runs. A step is one node and the choice of the next; the
-- steps of a run are numbered, and `world` gives what the LLM and the tools answer in each.
pub mod Measure
pub mod Bound
pub mod Iterations
use ai_agent_task_assistant.Common.{
  ℕ, zero, suc, ◌+◌, Bool, true, false, Option, none, some, if◌then◌else◌,
}
use ai_agent_task_assistant.Workflow
use ai_agent_task_assistant.Workflow.{
  AgentState, Answers, Update, updated, stopped, Route, replan, continue, complete,
  route_after_reflection, goes_to_team,
}

pub data Node : Type 0 where
  supervisor sub_agents reviewer planner executor reflection replanner : Node

-- how a run ends: behind a last node, or by an exception; or it has not ended
pub data Ended : Type 0 where
  finished : AgentState → Ended
  raised : AgentState → Ended
  running : Node → AgentState → Ended

abbrev pub by_route : Route → Option Node
by_route replan = some replanner
by_route continue = some executor
by_route complete = none

module _ (max_iterations : ℕ) where
  -- the edges; `none` is `END`
  unfoldable pub next_node : AgentState → Node → Option Node
  next_node s supervisor = if goes_to_team s then some sub_agents else some planner
  next_node s sub_agents = some reviewer
  next_node s reviewer = none
  next_node s planner = some executor
  next_node s executor = some reflection
  next_node s reflection = by_route (route_after_reflection max_iterations s)
  next_node s replanner = some executor

module _ (max_iterations max_steps : ℕ) where
  unfoldable pub run_node : Answers → Node → AgentState → Update
  run_node a supervisor s = Workflow.supervisor a s
  run_node a sub_agents s = Workflow.sub_agents max_steps a s
  run_node a reviewer s = Workflow.reviewer a s
  run_node a planner s = Workflow.planner a s
  run_node a executor s = Workflow.executor a s
  run_node a reflection s = Workflow.reflection max_iterations a s
  run_node a replanner s = Workflow.replanner a s

  module _ (world : ℕ → Answers) where
    -- `fuel` steps of a run, of which the next has the number `k`
    unfoldable pub run : ℕ → ℕ → Node → AgentState → Ended
    run zero k node s = running node s
    run (suc fuel) k node s = elim (run_node (world k) node s) [
      | stopped ↦ raised s
      | updated s' ↦ elim (next_node max_iterations s' node) [
        | none ↦ finished s'
        | some node' ↦ run fuel (suc k) node' s'
      ]
    ]
