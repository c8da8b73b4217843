-- ===== src/Workflow/Graph/Bound.antt =====
-- The runs of the graph of app/agent/workflow.py end.
use ai_agent_task_assistant.Common.{
  ℕ, zero, suc, ◌+◌, ◌-◌, ◌*◌, ◌<◌, ◌≡◌, ◌≢◌, refl, sym, inl, inr, Option-cases, Option, none, some,
  List, arith, if◌then◌else◌,
}
use ai_agent_task_assistant.Team.{Decision, AgentResult, run_agents}
use ai_agent_task_assistant.Workflow
use ai_agent_task_assistant.Workflow.{
  PlanDict, AgentState, Answer, gives, fails, over_budget, Answers, Update, supervised_by, worked,
  updated, stopped, tasks_of, valid_tasks, plan_or_reuse, fresh_plan, replanned, executed,
  evaluated, progress_of, Route, replan, continue, complete, route_after_reflection, goes_to_team,
}
use ai_agent_task_assistant.Workflow.Graph.{
  Node, supervisor, sub_agents, reviewer, planner, executor, reflection, replanner, running,
  run_node, next_node, run,
}
use ai_agent_task_assistant.Workflow.Graph.Measure.{
  mul_mono, same_node, Update-cases, IsSized, measure, Inv, Sized, planner-IsSized, replanner-falls,
  executed-falls, reflection-falls,
}

module _ (max_iterations size : ℕ) where
  planner-falls :
      (a : Answers) (s s' : AgentState)
      → Sized max_iterations size a
      → IsSized max_iterations size s
      → Workflow.planner a s ≡ updated s'
      → IsSized max_iterations size s'
        × (measure max_iterations size executor s' < measure max_iterations size planner s)
  planner-falls a s s' h sized e =
      let sized' = planner-IsSized max_iterations size a s s' h sized e in
      let m =
        mul_mono (max_iterations - s'.iteration_count) max_iterations (2 * size + 3)
          (omega arith) in
      (sized', omega arith)

  supervised-falls :
      (s s' : AgentState) (answer : Answer Decision) (node : Node)
      → IsSized max_iterations size s
      → supervised_by s answer ≡ updated s'
      → (if goes_to_team s' then some sub_agents else some planner) ≡ some node
      → Inv max_iterations size node s'
        × (measure max_iterations size node s' < measure max_iterations size supervisor s)
  supervised-falls s s' over_budget node sized h e = absurd (cc h)
  supervised-falls s s' fails node sized h e = ground (arith, h, e, sized)
  supervised-falls s s' (gives d) node sized h e = ground (arith, h, e, sized)

  worked-falls :
      (s s' : AgentState) (results : Option (List AgentResult))
      → IsSized max_iterations size s
      → worked s results ≡ updated s'
      → IsSized max_iterations size s'
        × (measure max_iterations size reviewer s' < measure max_iterations size sub_agents s)
  worked-falls s s' none sized h = absurd (cc h)
  worked-falls s s' (some results) sized h = ground (arith, h, sized)

  next-falls :
      (max_steps : ℕ) (a : Answers) (s s' : AgentState) (node node' : Node)
      → Sized max_iterations size a
      → Inv max_iterations size node s
      → run_node max_iterations max_steps a node s ≡ updated s'
      → next_node max_iterations s' node ≡ some node'
      → Inv max_iterations size node' s'
        × (measure max_iterations size node' s' < measure max_iterations size node s)
  unfolding run_node next_node Workflow.supervisor Workflow.sub_agents Workflow.executor
  next-falls max_steps a s s' supervisor node' h sized e n =
      supervised-falls s s' a.supervised node' sized e n
  next-falls max_steps a s s' sub_agents node' h sized e n =
      rw (sym (same_node n))
        (worked-falls s s' (run_agents a.work max_steps s.agent_assignments) sized e)
  next-falls max_steps a s s' reviewer node' h sized e n = absurd (cc n)
  next-falls max_steps a s s' planner node' h sized e n =
      rw (sym (same_node n)) (planner-falls a s s' h sized e)
  next-falls max_steps a s s' executor node' h sized e n =
      rw (sym (same_node n))
        (executed-falls max_iterations size s s' (valid_tasks s.plan) a.performed refl sized e)
  next-falls max_steps a s s' reflection node' h sized e n =
      reflection-falls max_iterations size a s s' node' sized e n
  next-falls max_steps a s s' replanner node' h sized e n =
      rw (sym (same_node n)) (replanner-falls max_iterations size a s s' h sized e)

  module _ (max_steps : ℕ) (world : ℕ → Answers)
      (planned : (k : ℕ) → Sized max_iterations size (world k)) where
    -- A run of the graph from any node, with a plan of at most `size` subtasks and, at the replanner,
    -- with a replanning left, in which the LLM gives only plans of at most `size` subtasks, has ended,
    -- at `END` or by an exception, when it may take more steps than the node's measure: from the
    -- supervisor that is max_iterations * (2 * size + 3) + 2 * size + 4.
    pub run-ends :
        (fuel k : ℕ) (node node' : Node) (s s' : AgentState)
        → Inv max_iterations size node s
        → measure max_iterations size node s < fuel
        → run max_iterations max_steps world fuel k node s ≢ running node' s'
    unfolding run
    run-ends zero k node node' s s' i lt e = omega arith
    run-ends (suc fuel) k node node' s s' i lt e =
        elim (Update-cases (run_node max_iterations max_steps (world k) node s)) [
          | inl eu ↦ let h = rw (eu, run) at e in absurd (cc h)
          | inr (t, eu) ↦ elim (Option-cases (next_node max_iterations t node)) [
            | inl at_end ↦ let h = rw (eu, at_end, run) at e in absurd (cc h)
            | inr (n, en) ↦
                let (i', lt') = next-falls max_steps (world k) s t node n (planned k) i eu en in
                run-ends fuel (suc k) n node' t s' i' (omega arith) (rw (eu, en, run) at e)
          ]
        ]
