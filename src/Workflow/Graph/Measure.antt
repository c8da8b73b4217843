-- ===== src/Workflow/Graph/Measure.antt =====
-- A measure of the steps that a run of the graph of app/agent/workflow.py may take from a node on.
use ai_agent_task_assistant.Common.{
  ℕ, zero, suc, ◌+◌, ◌-◌, ◌*◌, ◌≤◌, ◌<◌, ◌≡◌, ◌⊎◌, refl, ap, inl, inr, Bool, Bool-cases, Option,
  none, some, List, [], length, leb, arith,
}
use ai_agent_task_assistant.Schedule
use ai_agent_task_assistant.Schedule.{PlannedTask, TaskResult, Progress}
use ai_agent_task_assistant.Schedule.Rounds.{run-ge, run-gt}
use ai_agent_task_assistant.Workflow
use ai_agent_task_assistant.Workflow.{
  PlanDict, AgentState, Answer, gives, fails, over_budget, Answers, Update, supervised_by, worked,
  updated, stopped, tasks_of, valid_tasks, plan_or_reuse, fresh_plan, replanned, executed,
  evaluated, progress_of, Route, replan, continue, complete, route_after_reflection, goes_to_team,
}
use ai_agent_task_assistant.Workflow.Graph.{
  Node, supervisor, sub_agents, reviewer, planner, executor, reflection, replanner, by_route,
}

-- the subtasks of the plan that are still to come
abbrev pub left : AgentState → ℕ
left s = length (tasks_of s.plan) - s.current_task_index

pub mul_mono : (a b c : ℕ) → a ≤ b → a * c ≤ b * c
mul_mono a b c h = grind arith

mul_step : (a b c : ℕ) → a < b → (b - a) * c ≡ c + (b - suc a) * c
mul_step a b c h = let e : b - a ≡ suc (b - suc a) = omega arith in rw e (grind arith)

abbrev bump : ℕ → ℕ
bump zero = 1
bump (suc r) = 2 * suc r + 3

bump-lt : (r r' : ℕ) → (r' ≡ 0) ⊎ (r' < r) → bump r' < 2 * r + 2
bump-lt r zero h = omega arith
bump-lt r (suc r') h = ground (arith, h)

tasks_of-none : (plan : Option PlanDict) → valid_tasks plan ≡ none → tasks_of plan ≡ []
tasks_of-none none h = refl
tasks_of-none (some plan) h = ground (arith, h)

tasks_of-some :
    (plan : Option PlanDict) (tasks : List PlannedTask)
    → valid_tasks plan ≡ some tasks
    → tasks_of plan ≡ tasks
tasks_of-some none tasks h = absurd (cc h)
tasks_of-some (some plan) tasks h = ground (arith, h)

pub same_node : {n n' : Node} → some n ≡ some n' → n ≡ n'
same_node h = cc h

pub Update-cases : (u : Update) → (u ≡ stopped) ⊎ ((s : AgentState) × (u ≡ updated s))
Update-cases stopped = inl refl
Update-cases (updated s) = inr (s, refl)

module _ (max_iterations size : ℕ) where
  -- what the iterations that are left may take
  abbrev to_spend : AgentState → ℕ
  to_spend s = (max_iterations - s.iteration_count) * (2 * size + 3)

  abbrev pub IsSized : AgentState → Type 0
  IsSized s = length (tasks_of s.plan) ≤ size

  -- an upper bound on the steps from a node on
  abbrev pub measure : Node → AgentState → ℕ
  measure supervisor s = max_iterations * (2 * size + 3) + (2 * size + 4)
  measure sub_agents s = 2
  measure reviewer s = 1
  measure planner s = max_iterations * (2 * size + 3) + (2 * size + 3)
  measure executor s = to_spend s + (2 * left s + 2)
  measure reflection s = to_spend s + bump (left s)
  measure replanner s = to_spend s

  abbrev pub Inv : Node → AgentState → Type 0
  Inv replanner s = IsSized s × (s.iteration_count < max_iterations)
  Inv _ s = IsSized s

  abbrev pub Sized : Answers → Type 0
  Sized a = (plan : Option PlanDict) → a.planned ≡ gives plan → length (tasks_of plan) ≤ size

  fresh_plan-IsSized :
      (s s' : AgentState) (answer : Answer (Option PlanDict))
      → ((plan : Option PlanDict) → answer ≡ gives plan → length (tasks_of plan) ≤ size)
      → fresh_plan s answer ≡ updated s'
      → IsSized s'
  fresh_plan-IsSized s s' (gives plan) h e = ground (arith, e, h plan refl)
  fresh_plan-IsSized s s' fails h e = ground (arith, e)
  fresh_plan-IsSized s s' over_budget h e = absurd (cc e)

  pub planner-IsSized :
      (a : Answers) (s s' : AgentState)
      → Sized a
      → IsSized s
      → Workflow.planner a s ≡ updated s'
      → IsSized s'
  unfolding Workflow.planner
  planner-IsSized a s s' h size_ok e = go s.retry_from_index s.plan refl refl e
    where
      go :
          (i : Option ℕ) (plan : Option PlanDict)
          → s.retry_from_index ≡ i
          → s.plan ≡ plan
          → plan_or_reuse s i plan a.planned ≡ updated s'
          → IsSized s'
      go (some i) (some plan) ei ep e = ground (arith, e, size_ok)
      go (some i) none ei ep e = fresh_plan-IsSized s s' a.planned h e
      go none plan ei ep e = fresh_plan-IsSized s s' a.planned h e

  pub replanner-falls :
      (a : Answers) (s s' : AgentState)
      → Sized a
      → Inv replanner s
      → Workflow.replanner a s ≡ updated s'
      → IsSized s' × (measure executor s' < measure replanner s)
  unfolding Workflow.replanner
  replanner-falls a s s' h (sized, below) e = go a.planned refl e
    where
      go :
          (answer : Answer (Option PlanDict))
          → a.planned ≡ answer
          → replanned s answer ≡ updated s'
          → IsSized s' × (measure executor s' < measure replanner s)
      go over_budget ea e = absurd (cc e)
      go fails ea e =
          ground (arith, e, sized, mul_step s.iteration_count max_iterations (2 * size + 3) below)
      go (gives plan) ea e =
          ground
            (arith, e, h plan ea, mul_step s.iteration_count max_iterations (2 * size + 3) below)

  pub executed-falls :
      (s s' : AgentState) (tasks : Option (List PlannedTask))
      (perform : Option (ℕ → List TaskResult → TaskResult))
      → valid_tasks s.plan ≡ tasks
      → IsSized s
      → executed s tasks perform ≡ updated s'
      → IsSized s' × (measure reflection s' < measure executor s)
  executed-falls s s' none perform e sized h =
      let none_left : left s ≡ 0 = omega (arith, ap length (tasks_of-none s.plan e)) in
      ground (arith, h, sized, none_left)
  executed-falls s s' (some tasks) none e sized h =
      let same : length (tasks_of s.plan) ≡ length tasks =
        ap length (tasks_of-some s.plan tasks e) in
      ground (arith, h, sized, same, bump-lt (left s) 0)
  executed-falls s s' (some tasks) (some perform) e sized h =
      let same : length (tasks_of s.plan) ≡ length tasks =
        ap length (tasks_of-some s.plan tasks e) in
      let p : Progress = Schedule.run perform tasks (progress_of s) in
      let ge : s.current_task_index ≤ p.current_task_index = run-ge perform tasks (progress_of s) in
      let gt : s.current_task_index < length tasks → s.current_task_index < p.current_task_index =
        run-gt perform tasks (progress_of s) in
      let lt : bump (length (tasks_of s.plan) - p.current_task_index) < 2 * left s + 2 =
        bump-lt (left s) (length (tasks_of s.plan) - p.current_task_index)
          (grind (arith, same, ge, gt)) in
      ground (arith, h, sized, lt)

  -- what the evaluation leaves, where it returns
  pub evaluated-lem :
      (s s' : AgentState) (answer : Answer Bool)
      → evaluated max_iterations s answer ≡ updated s'
      → (s'.plan ≡ s.plan)
        × (s'.current_task_index ≡ s.current_task_index)
        × (s'.iteration_count ≡ s.iteration_count)
  evaluated-lem s s' over_budget h = absurd (cc h)
  evaluated-lem s s' fails h = ground (arith, h)
  evaluated-lem s s' (gives b) h = ground (arith, h)

  pub reflection-falls :
      (a : Answers) (s s' : AgentState) (node : Node)
      → IsSized s
      → Workflow.reflection max_iterations a s ≡ updated s'
      → by_route (route_after_reflection max_iterations s') ≡ some node
      → Inv node s' × (measure node s' < measure reflection s)
  unfolding Workflow.reflection route_after_reflection
  reflection-falls a s s' node sized h e =
      elim (Bool-cases (leb (length (tasks_of s.plan)) s.current_task_index)) [
        | inl over ↦
            let h' : evaluated max_iterations s a.judged ≡ updated s' = rw over at h in
            let (p, i, n) = evaluated-lem s s' a.judged h' in
            let same : length (tasks_of s'.plan) ≡ length (tasks_of s.plan) =
              ap (λ x. length (tasks_of x)) p in
            let none_left : left s ≡ 0 = ground (arith, over) in
            ground (arith, e, over, same, i, n, none_left, sized)
        | inr ahead ↦ let h' = rw ahead at h in ground (arith, h', e, ahead, sized)
      ]
