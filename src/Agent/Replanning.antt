-- ===== src/Agent/Replanning.antt =====
-- A retry from an index, from app/services/agent_service.py to the nodes of app/agent/.
use ai_agent_task_assistant.Common.{ℕ, ◌≡◌, refl, Option, none, some, List, arith}
use ai_agent_task_assistant.Schedule.{TaskResult}
use ai_agent_task_assistant.Team.{Decision}
use ai_agent_task_assistant.Workflow
use ai_agent_task_assistant.Workflow.{
  PlanDict, AgentState, Answer, gives, fails, over_budget, Answers, Update, updated, supervised_by,
  fresh_plan, plan_or_reuse,
}
use ai_agent_task_assistant.Agent.Service.{initial_state}

supervised-keeps :
    (s s' : AgentState) (answer : Answer Decision)
    → supervised_by s answer ≡ updated s'
    → (s'.plan ≡ s.plan) × (s'.task_results ≡ s.task_results)
supervised-keeps s s' over_budget e = absurd (cc e)
supervised-keeps s s' fails e = ground (arith, e)
supervised-keeps s s' (gives d) e = ground (arith, e)

plan_or_reuse-none :
    (s : AgentState) (i : Option ℕ) (plan : Option PlanDict) (answer : Answer (Option PlanDict))
    → plan ≡ none
    → plan_or_reuse s i plan answer ≡ fresh_plan s answer
plan_or_reuse-none s none plan answer e = refl
plan_or_reuse-none s (some i) none answer e = refl
plan_or_reuse-none s (some i) (some plan) answer e = absurd (cc e)

-- Whatever index a retry gives: behind the supervisor the planner asks for a new plan, and where it
-- gets one, the run starts with the first subtask of that plan; the results of the earlier run that
-- `run_task` took over stay.
pub retry-replans :
    (retry_from_index : Option ℕ) (results : List TaskResult) (a a' : Answers) (s s' : AgentState)
    (plan : Option PlanDict)
    → Workflow.supervisor a (initial_state retry_from_index results) ≡ updated s
    → Workflow.planner a' s ≡ updated s'
    → a'.planned ≡ gives plan
    → (s'.plan ≡ plan) × (s'.current_task_index ≡ 0) × (s'.task_results ≡ results)
unfolding Workflow.supervisor Workflow.planner initial_state
retry-replans retry_from_index results a a' s s' plan e e' planned =
    let (p, r) = supervised-keeps (initial_state retry_from_index results) s a.supervised e in
    let fresh = plan_or_reuse-none s s.retry_from_index s.plan a'.planned p in
    let e'' : fresh_plan s (gives plan) ≡ updated s' = rw (fresh, planned) at e' in
    ground (arith, e'', r)
