-- ===== src/Tests/Usage.antt =====
-- The budget of one task (app/llm/budget.py) on small inputs.
use ai_agent_task_assistant.Common.{
  ◌≡◌, inr, refl, List, [], ◌∷◌, Dict, truthy, Value, number, fields, field, end, arith,
}
use ai_agent_task_assistant.Budget.{TaskBudget, check, record_usage}
use ai_agent_task_assistant.Budget.Usage.{
  usage_of, on_llm_end, Scope, budgeted_ainvoke, report, Event, invokes, reports, step, run,
}
use ai_agent_task_assistant.Budget.Limits.{reported, IsNear, run-IsNear}

abbrev fresh : TaskBudget
fresh = record {
  max_llm_calls = 1;
  max_total_tokens = 100;
  budget_limit = 0;
  input_cost = 2;
  output_cost = 6;
  llm_calls = 0;
  prompt_tokens = 0;
  completion_tokens = 0;
  cost = 0;
}

-- one answer of the LLM, with its usage
abbrev llm_output : Dict Value
llm_output =
    ("usage", fields (field "input_tokens" (number 30) (field "output_tokens" (number 12) end)))
    ∷ []

abbrev one_call : List (Dict Value)
one_call = llm_output ∷ []

abbrev unused : Scope
unused = record { budget = fresh; flights = [] }

-- one call behind the other
abbrev serial : List Event
serial = invokes one_call ∷ reports 0 ∷ reports 0 ∷ invokes one_call ∷ []

-- two calls that start before either reports
abbrev crossed : List Event
crossed = invokes one_call ∷ invokes one_call ∷ reports 1 ∷ reports 0 ∷ []

second_call_refused : (run unused serial).budget.llm_calls ≡ 1
unfolding run step budgeted_ainvoke report check on_llm_end truthy record_usage
second_call_refused = refl

both_calls_counted : (run unused crossed).budget.llm_calls ≡ 2
unfolding run step budgeted_ainvoke report check on_llm_end truthy record_usage
both_calls_counted = refl

run-IsNear_example : IsNear 2 84 (run unused crossed).budget
unfolding reported usage_of truthy step budgeted_ainvoke report check on_llm_end record_usage
run-IsNear_example =
    run-IsNear 1 42 2 fresh crossed
      (
        (omega arith, tt),
        (
          (omega arith, ((omega arith, omega arith), tt)),
          (
            (omega arith, ((omega arith, omega arith), ((omega arith, omega arith), tt))),
            (
              (omega arith, ((omega arith, omega arith), ((omega arith, omega arith), tt))),
              (omega arith, ((omega arith, omega arith), ((omega arith, omega arith), tt))),
            ),
          ),
        ),
      )
      (inr (omega arith), inr (omega arith))
