-- ===== src/Budget.antt =====
-- app/llm/budget.py: the usage of one task and its limits. Prices are micro-dollars for a million
-- tokens and the cost is in millionths of those, without the rounding of floats. Token counts are
-- not negative. A limit of 0 is none.
pub mod Usage
pub mod Limits
pub mod Deltas
use ai_agent_task_assistant.Common.{
  ℕ, zero, suc, ◌+◌, ◌*◌, ◌-◌, ◌/◌, ◌%◌, ◌^◌, Bool, true, false, ◌&&◌, Option, none, some, List, [],
  ◌∷◌, ltb, leb, nat_eq, if◌then◌else◌,
}

pub record TaskBudget : Type 0 where
  pub max_llm_calls : ℕ
  pub max_total_tokens : ℕ
  pub budget_limit : ℕ
  pub input_cost : ℕ
  pub output_cost : ℕ
  pub llm_calls : ℕ
  pub prompt_tokens : ℕ
  pub completion_tokens : ℕ
  pub cost : ℕ

-- what `BudgetExceededError` says
pub data Exceeded : Type 0 where
  calls_exceeded tokens_exceeded cost_exceeded : Exceeded

abbrev pub tokens : TaskBudget → ℕ
tokens b = b.prompt_tokens + b.completion_tokens

-- `none` where the call may be made
unfoldable pub check : TaskBudget → Option Exceeded
check b =
    if ltb 0 b.max_llm_calls && leb b.max_llm_calls b.llm_calls
    then some calls_exceeded
    else if ltb 0 b.max_total_tokens && leb b.max_total_tokens (tokens b)
    then some tokens_exceeded
    else if ltb 0 b.budget_limit && leb (b.budget_limit * 10 ^ 6) b.cost
    then some cost_exceeded
    else none

abbrev pub counted : TaskBudget → ℕ → ℕ → TaskBudget
counted b prompt completion = record b {
  llm_calls = suc b.llm_calls;
  prompt_tokens = b.prompt_tokens + prompt;
  completion_tokens = b.completion_tokens + completion;
  cost = b.cost + (prompt * b.input_cost + completion * b.output_cost);
}

-- The usage is counted before the method raises.
unfoldable pub record_usage : TaskBudget → ℕ → ℕ → Option Exceeded × TaskBudget
record_usage b prompt completion =
    let b' = counted b prompt completion in
    (
      if ltb 0 b'.max_total_tokens && ltb b'.max_total_tokens (tokens b')
          then some tokens_exceeded
          else none,
      b',
    )

pub record UsageSnapshot : Type 0 where
  pub llm_calls : ℕ
  pub prompt_tokens : ℕ
  pub completion_tokens : ℕ
  pub cost : ℕ

-- `round(cost, 6)`: to whole micro-dollars, a half to the even neighbour
unfoldable pub round_micro : ℕ → ℕ
round_micro c =
    let whole = c / 10 ^ 6 in
    let rest = c % 10 ^ 6 in
    if ltb rest 500000 then whole else if ltb 500000 rest then suc whole else whole + whole % 2

unfoldable pub snapshot : TaskBudget → UsageSnapshot
unfolding round_micro
snapshot b = record {
  llm_calls = b.llm_calls;
  prompt_tokens = b.prompt_tokens;
  completion_tokens = b.completion_tokens;
  cost = round_micro b.cost;
}

unfoldable pub delta : UsageSnapshot → UsageSnapshot → UsageSnapshot
delta s other = record {
  llm_calls = s.llm_calls - other.llm_calls;
  prompt_tokens = s.prompt_tokens - other.prompt_tokens;
  completion_tokens = s.completion_tokens - other.completion_tokens;
  cost = s.cost - other.cost;
}
