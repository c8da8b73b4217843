-- ===== src/Budget/Usage.antt =====
-- app/llm/budget.py: how the usage of a call is read from the answer of the LLM, and the call under
-- a budget. What the runnable reports, one output for each LLM call that it makes and none for one
-- that fails, is an argument.
use ai_agent_task_assistant.Common.{
  ℕ, zero, suc, true, Option, none, some, List, [], ◌∷◌, Dict, lookup, Value, flag, number, truthy,
  or_value, dict_of, if◌then◌else◌,
}
use ai_agent_task_assistant.Budget.{TaskBudget, Exceeded, check, record_usage}

-- `int(v or 0)`; `none` where it raises. A text of digits, which `int` reads, is outside of the model
-- and counts as such.
abbrev count_of : Option Value → Option ℕ
count_of none = some 0
count_of (some (number n)) = some n
count_of (some (flag true)) = some 1
count_of (some v) = if truthy v then none else some 0

abbrev pair_of : Option ℕ → Option ℕ → Option (ℕ × ℕ)
pair_of (some p) (some c) = some (p, c)
pair_of _ _ = none

abbrev counts_of : Option (Dict Value) → Option (ℕ × ℕ)
counts_of none = none
counts_of (some usage) =
    pair_of (count_of (or_value (lookup "input_tokens" usage) (lookup "prompt_tokens" usage)))
      (count_of (or_value (lookup "output_tokens" usage) (lookup "completion_tokens" usage)))

-- the tokens that the LLM's output reports
unfoldable pub usage_of : Dict Value → Option (ℕ × ℕ)
unfolding lookup
usage_of llm_output =
    counts_of (dict_of (or_value (lookup "usage" llm_output) (lookup "token_usage" llm_output)))

abbrev recorded : TaskBudget → Option (ℕ × ℕ) → TaskBudget
recorded b none = b
recorded b (some (p, c)) = (record_usage b p c).1

-- `UsageCallbackHandler.on_llm_end`: the error of a budget that is exceeded is only logged
unfoldable pub on_llm_end : TaskBudget → Dict Value → TaskBudget
unfolding usage_of
on_llm_end b llm_output = recorded b (usage_of llm_output)

-- the calls that are under way under one budget, each with the outputs that it has still to report
abbrev pub Flights : Type 0
Flights = List (List (Dict Value))

pub record Scope : Type 0 where
  pub budget : TaskBudget
  pub flights : Flights

abbrev begun : Scope → List (Dict Value) → Option Exceeded → Option Exceeded × Scope
begun s outputs none = (none, record s { flights = outputs ∷ s.flights })
begun s outputs (some e) = (some e, s)

-- `budgeted_ainvoke` up to the point where it awaits the runnable: the error that it raises in place
-- of the call, or the call under way
unfoldable pub budgeted_ainvoke : Scope → List (Dict Value) → Option Exceeded × Scope
budgeted_ainvoke s outputs = begun s outputs (check s.budget)

-- The call at a place reports its next output, or, where none is left, is over.
unfoldable pub report : TaskBudget → ℕ → Flights → TaskBudget × Flights
report b k [] = (b, [])
report b zero ([] ∷ flights) = (b, flights)
report b zero ((o ∷ outputs) ∷ flights) = (on_llm_end b o, outputs ∷ flights)
report b (suc k) (f ∷ flights) = let (b', flights') = report b k flights in (b', f ∷ flights')

-- what the calls of concurrent subtasks do to the budget that they share
pub data Event : Type 0 where
  invokes : List (Dict Value) → Event
  reports : ℕ → Event

unfoldable pub step : Scope → Event → Scope
step s (invokes outputs) = (budgeted_ainvoke s outputs).1
step s (reports k) =
    let (b, flights) = report s.budget k s.flights in record { budget = b; flights = flights }

unfoldable pub run : Scope → List Event → Scope
run s [] = s
run s (e ∷ events) = run (step s e) events
