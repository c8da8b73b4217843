-- ===== src/Budget/Deltas.antt =====
-- The usage of app/llm/budget.py over several calls, and its differences.
use ai_agent_task_assistant.Common.{
  ℕ, zero, suc, ◌+◌, ◌≤◌, ◌≡◌, inl, inr, Option-cases, List, [], ◌∷◌, Dict, Value, arith,
}
use ai_agent_task_assistant.Budget.{
  TaskBudget, check, record_usage, UsageSnapshot, round_micro, snapshot, delta,
}
use ai_agent_task_assistant.Budget.Usage.{
  usage_of, on_llm_end, Flights, Scope, budgeted_ainvoke, report, Event, invokes, reports, step,
  run,
}

record IsGrown (b b' : TaskBudget) : Type 0 where
  calls : b.llm_calls ≤ b'.llm_calls
  prompts : b.prompt_tokens ≤ b'.prompt_tokens
  completions : b.completion_tokens ≤ b'.completion_tokens
  costs : b.cost ≤ b'.cost

IsGrown-refl : (b : TaskBudget) → IsGrown b b
IsGrown-refl b = record {
  calls = omega arith;
  prompts = omega arith;
  completions = omega arith;
  costs = omega arith;
}

IsGrown-trans : {a b c : TaskBudget} → IsGrown a b → IsGrown b c → IsGrown a c
IsGrown-trans p q = record {
  calls = omega (arith, p.calls, q.calls);
  prompts = omega (arith, p.prompts, q.prompts);
  completions = omega (arith, p.completions, q.completions);
  costs = omega (arith, p.costs, q.costs);
}

on_llm_end-IsGrown : (b : TaskBudget) (o : Dict Value) → IsGrown b (on_llm_end b o)
unfolding on_llm_end record_usage
on_llm_end-IsGrown b o = elim (Option-cases (usage_of o)) [
  | inl unread ↦ rw unread (IsGrown-refl b)
  | inr ((p, c), read) ↦ rw read (record {
    calls = omega arith;
    prompts = omega arith;
    completions = omega arith;
    costs = omega arith;
  })
]

report-IsGrown : (b : TaskBudget) (k : ℕ) (flights : Flights) → IsGrown b (report b k flights).0
unfolding report
report-IsGrown b zero [] = IsGrown-refl b
report-IsGrown b (suc k) [] = IsGrown-refl b
report-IsGrown b zero ([] ∷ flights) = IsGrown-refl b
report-IsGrown b zero ((o ∷ outputs) ∷ flights) = on_llm_end-IsGrown b o
report-IsGrown b (suc k) (f ∷ flights) = report-IsGrown b k flights

step-IsGrown : (s : Scope) (e : Event) → IsGrown s.budget (step s e).budget
unfolding step budgeted_ainvoke
step-IsGrown s (reports k) = report-IsGrown s.budget k s.flights
step-IsGrown s (invokes outputs) = elim (Option-cases (check s.budget)) [
  | inl free ↦ rw (free, step, budgeted_ainvoke) (IsGrown-refl s.budget)
  | inr (e, over) ↦ rw (over, step, budgeted_ainvoke) (IsGrown-refl s.budget)
]

run-IsGrown : (s : Scope) (events : List Event) → IsGrown s.budget (run s events).budget
unfolding run
run-IsGrown s [] = IsGrown-refl s.budget
run-IsGrown s (e ∷ events) = IsGrown-trans (step-IsGrown s e) (run-IsGrown (step s e) events)

round_micro_mono : (a b : ℕ) → a ≤ b → round_micro a ≤ round_micro b
unfolding round_micro
round_micro_mono a b h = ground arith

abbrev pub plus : UsageSnapshot → UsageSnapshot → UsageSnapshot
plus s t = record {
  llm_calls = s.llm_calls + t.llm_calls;
  prompt_tokens = s.prompt_tokens + t.prompt_tokens;
  completion_tokens = s.completion_tokens + t.completion_tokens;
  cost = s.cost + t.cost;
}

-- The usage of two nodes that follow each other, each as the difference of its snapshots, adds up to
-- the usage of both, in calls, tokens and rounded cost.
pub delta_adds_up :
    (s : Scope) (first second : List Event)
    → let middle = run s first in
      let last = run middle second in
      delta (snapshot last.budget) (snapshot s.budget)
      ≡ plus
          (delta (snapshot middle.budget) (snapshot s.budget))
          (delta (snapshot last.budget) (snapshot middle.budget))
unfolding snapshot delta
delta_adds_up s first second =
    let f = run-IsGrown s first in
    let g = run-IsGrown (run s first) second in
    ground (
      arith,
      f.calls,
      f.prompts,
      f.completions,
      g.calls,
      g.prompts,
      g.completions,
      round_micro_mono _ _ f.costs,
      round_micro_mono _ _ g.costs,
    )
