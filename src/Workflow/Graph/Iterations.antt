-- ===== src/Workflow/Graph/Iterations.antt =====
-- The count of replannings along a run of the graph of app/agent/workflow.py.
use ai_agent_task_assistant.Common.{
  ℕ, zero, suc, Text, ◌≤◌, ◌<◌, ◌≡◌, refl, inl, inr, Bool-cases, Option-cases, Option, none, some,
  List, length, leb, arith,
}
use ai_agent_task_assistant.Schedule.{PlannedTask, TaskResult}
use ai_agent_task_assistant.Team.{Decision, AgentResult, run_agents}
use ai_agent_task_assistant.Workflow
use ai_agent_task_assistant.Workflow.{
  PlanDict, AgentState, Answer, gives, fails, over_budget, Answers, Update, supervised_by, worked,
  updated, stopped, tasks_of, valid_tasks, plan_or_reuse, fresh_plan, replanned, executed,
  evaluated, reviewed_by, Route, replan, continue, complete, route_after_reflection, goes_to_team,
}
use ai_agent_task_assistant.Workflow.Graph.{
  Node, supervisor, sub_agents, reviewer, planner, executor, reflection, replanner, Ended, finished,
  raised, running, run_node, next_node, run,
}
use ai_agent_task_assistant.Workflow.Graph.Measure.{Update-cases, evaluated-lem}

-- the state with which a run ends, or in which it is
abbrev pub state_of : Ended → AgentState
state_of (finished s) = s
state_of (raised s) = s
state_of (running node s) = s

-- the replanner is reached only below the limit
abbrev pub Below : ℕ → Node → AgentState → Type 0
Below max_iterations replanner s = s.iteration_count < max_iterations
Below max_iterations _ s = s.iteration_count ≤ max_iterations

fresh_plan-resets :
    (s s' : AgentState) (answer : Answer (Option PlanDict))
    → fresh_plan s answer ≡ updated s'
    → s'.iteration_count ≡ 0
fresh_plan-resets s s' (gives plan) h = ground (arith, h)
fresh_plan-resets s s' fails h = ground (arith, h)
fresh_plan-resets s s' over_budget h = absurd (cc h)

planner-count :
    (s s' : AgentState) (i : Option ℕ) (plan : Option PlanDict) (answer : Answer (Option PlanDict))
    → plan_or_reuse s i plan answer ≡ updated s'
    → s'.iteration_count ≤ s.iteration_count
planner-count s s' (some i) (some plan) answer h = ground (arith, h)
planner-count s s' (some i) none answer h = ground (arith, fresh_plan-resets s s' answer h)
planner-count s s' none plan answer h = ground (arith, fresh_plan-resets s s' answer h)

replanned-count :
    (s s' : AgentState) (answer : Answer (Option PlanDict))
    → replanned s answer ≡ updated s'
    → s'.iteration_count ≡ suc s.iteration_count
replanned-count s s' (gives plan) h = ground (arith, h)
replanned-count s s' fails h = ground (arith, h)
replanned-count s s' over_budget h = absurd (cc h)

executed-count :
    (s s' : AgentState) (tasks : Option (List PlannedTask))
    (perform : Option (ℕ → List TaskResult → TaskResult))
    → executed s tasks perform ≡ updated s'
    → s'.iteration_count ≡ s.iteration_count
executed-count s s' none perform h = ground (arith, h)
executed-count s s' (some tasks) none h = ground (arith, h)
executed-count s s' (some tasks) (some perform) h = ground (arith, h)

supervised-count :
    (s s' : AgentState) (answer : Answer Decision)
    → supervised_by s answer ≡ updated s'
    → s'.iteration_count ≡ s.iteration_count
supervised-count s s' over_budget h = absurd (cc h)
supervised-count s s' fails h = ground (arith, h)
supervised-count s s' (gives d) h = ground (arith, h)

worked-count :
    (s s' : AgentState) (results : Option (List AgentResult))
    → worked s results ≡ updated s'
    → s'.iteration_count ≡ s.iteration_count
worked-count s s' none h = absurd (cc h)
worked-count s s' (some results) h = ground (arith, h)

reviewed-count :
    (s s' : AgentState) (answer : Answer Text)
    → reviewed_by s answer ≡ updated s'
    → s'.iteration_count ≡ s.iteration_count
reviewed-count s s' over_budget h = absurd (cc h)
reviewed-count s s' fails h = ground (arith, h)
reviewed-count s s' (gives d) h = ground (arith, h)

module _ (max_iterations : ℕ) where
  reflection-count :
      (a : Answers) (s s' : AgentState)
      → Workflow.reflection max_iterations a s ≡ updated s'
      → s'.iteration_count ≡ s.iteration_count
  unfolding Workflow.reflection
  reflection-count a s s' h =
      elim (Bool-cases (leb (length (tasks_of s.plan)) s.current_task_index)) [
        | inl over ↦
            let h' : evaluated max_iterations s a.judged ≡ updated s' = rw over at h in
            let (p, i, n) = evaluated-lem max_iterations 0 s s' a.judged h' in n
        | inr ahead ↦ let h' = rw ahead at h in ground (arith, h')
      ]

  step-count :
      (max_steps : ℕ) (a : Answers) (s s' : AgentState) (node : Node)
      → Below max_iterations node s
      → run_node max_iterations max_steps a node s ≡ updated s'
      → s'.iteration_count ≤ max_iterations
  unfolding run_node Workflow.supervisor Workflow.sub_agents Workflow.executor Workflow.planner
      Workflow.replanner Workflow.reviewer
  step-count max_steps a s s' supervisor below h =
      omega (arith, below, supervised-count s s' a.supervised h)
  step-count max_steps a s s' sub_agents below h =
      omega (arith, below, worked-count s s' (run_agents a.work max_steps s.agent_assignments) h)
  step-count max_steps a s s' reviewer below h =
      omega (arith, below, reviewed-count s s' a.reviewed h)
  step-count max_steps a s s' planner below h =
      omega (arith, below, planner-count s s' s.retry_from_index s.plan a.planned h)
  step-count max_steps a s s' executor below h =
      omega (arith, below, executed-count s s' (valid_tasks s.plan) a.performed h)
  step-count max_steps a s s' reflection below h = omega (arith, below, reflection-count a s s' h)
  step-count max_steps a s s' replanner below h =
      omega (arith, below, replanned-count s s' a.planned h)

  next-Below :
      (s : AgentState) (node node' : Node)
      → s.iteration_count ≤ max_iterations
      → next_node max_iterations s node ≡ some node'
      → Below max_iterations node' s
  unfolding next_node route_after_reflection
  next-Below s supervisor node' h e = ground (arith, e)
  next-Below s sub_agents node' h e = ground (arith, e)
  next-Below s reviewer node' h e = absurd (cc e)
  next-Below s planner node' h e = ground (arith, e)
  next-Below s executor node' h e = ground (arith, e)
  next-Below s reflection node' h e = ground (arith, e)
  next-Below s replanner node' h e = ground (arith, e)

  Below-le :
      (node : Node) (s : AgentState)
      → Below max_iterations node s
      → s.iteration_count ≤ max_iterations
  Below-le supervisor s h = h
  Below-le sub_agents s h = h
  Below-le reviewer s h = h
  Below-le planner s h = h
  Below-le executor s h = h
  Below-le reflection s h = h
  Below-le replanner s h = omega arith

  -- A run that starts with no more than the allowed replannings, and at the replanner with fewer,
  -- never counts more than that.
  run-count :
      (max_steps : ℕ) (world : ℕ → Answers) (fuel k : ℕ) (node : Node) (s : AgentState)
      → Below max_iterations node s
      → (state_of (run max_iterations max_steps world fuel k node s)).iteration_count
        ≤ max_iterations
  unfolding run
  run-count max_steps world zero k node s h = Below-le node s h
  run-count max_steps world (suc fuel) k node s h =
      elim (Update-cases (run_node max_iterations max_steps (world k) node s)) [
        | inl eu ↦ rw (eu, run, state_of) (Below-le node s h)
        | inr (t, eu) ↦
            let le = step-count max_steps (world k) s t node h eu in
            elim (Option-cases (next_node max_iterations t node)) [
              | inl at_end ↦ rw (eu, at_end, run, state_of) le
              | inr (n, en) ↦
                  rw (eu, en, run)
                    (run-count max_steps world fuel (suc k) n t (next-Below t node n le en))
            ]
      ]

  at_limit-ends :
      (s : AgentState)
      → max_iterations ≤ s.iteration_count
      → next_node max_iterations s reflection ≡ none
  unfolding next_node route_after_reflection
  at_limit-ends s h = ground (arith, h)

  reflection-unfinished :
      (a : Answers) (s s' : AgentState)
      → s.current_task_index < length (tasks_of s.plan)
      → Workflow.reflection max_iterations a s ≡ updated s'
      → s'.final_result ≡ none
  unfolding Workflow.reflection
  reflection-unfinished a s s' ahead h =
      elim (Bool-cases (leb (length (tasks_of s.plan)) s.current_task_index)) [
        | inl over ↦ absurd (ground (arith, over, ahead))
        | inr short ↦ let h' = rw short at h in ground (arith, h')
      ]

  module _ (max_steps : ℕ) (world : ℕ → Answers) (k : ℕ) (s s1 s2 s3 : AgentState) where
    -- Behind the last replanning that the limit allows the run ends with the first round of the new
    -- plan and its reflection, where these return; and where subtasks of the plan are left then, it
    -- ends without a result.
    pub run-last_plan :
        (fuel : ℕ)
        → suc s.iteration_count ≡ max_iterations
        → Workflow.replanner (world k) s ≡ updated s1
        → Workflow.executor (world (suc k)) s1 ≡ updated s2
        → Workflow.reflection max_iterations (world (suc (suc k))) s2 ≡ updated s3
        → (run max_iterations max_steps world (suc (suc (suc fuel))) k replanner s ≡ finished s3)
          × (s2.current_task_index < length (tasks_of s2.plan) → s3.final_result ≡ none)
    unfolding run run_node next_node Workflow.replanner Workflow.executor
    run-last_plan fuel last e1 e2 e3 =
        let c1 = replanned-count s s1 (world k).planned e1 in
        let c2 = executed-count s1 s2 (valid_tasks s1.plan) (world (suc k)).performed e2 in
        let c3 = reflection-count (world (suc (suc k))) s2 s3 e3 in
        let at_end = at_limit-ends s3 (omega arith) in
        (
          rw (e1, e2, e3, at_end, run) refl,
          λ ahead. reflection-unfinished (world (suc (suc k))) s2 s3 ahead e3,
        )
