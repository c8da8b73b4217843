-- ===== src/Budget/Limits.antt =====
-- What the limits of app/llm/budget.py guarantee.
use ai_agent_task_assistant.Common.{
  ℕ, zero, suc, ◌+◌, ◌*◌, ◌^◌, ◌≤◌, ◌<◌, ◌≡◌, ◌↔◌, ◌⊎◌, inl, inr, refl, ap, Option, none, some,
  Option-cases, List, [], ◌∷◌, All, length, Dict, Value, arith,
}
use ai_agent_task_assistant.Budget.{TaskBudget, tokens, check, record_usage}
use ai_agent_task_assistant.Budget.Usage.{
  usage_of, on_llm_end, Flights, Scope, budgeted_ainvoke, report, Event, invokes, reports, step,
  run,
}
use native.Mathlib.Nat.{mul-le-mul_right}

-- A call may be made exactly when each limit that is set is above the usage so far.
pub check-eq-none_iff :
    (b : TaskBudget)
    → (check b ≡ none) ↔ (
        ((b.max_llm_calls ≡ 0) ⊎ (b.llm_calls < b.max_llm_calls))
        × ((b.max_total_tokens ≡ 0) ⊎ (tokens b < b.max_total_tokens))
        × ((b.budget_limit ≡ 0) ⊎ (b.cost < b.budget_limit * 10 ^ 6)))
unfolding check
check-eq-none_iff b = ground arith

-- the tokens that the outputs of one call report
abbrev count_both : Option (ℕ × ℕ) → ℕ
count_both none = 0
count_both (some (p, c)) = p + c

unfoldable pub reported : List (Dict Value) → ℕ
reported [] = 0
reported (o ∷ outputs) = count_both (usage_of o) + reported outputs

abbrev under_way : Flights → ℕ
under_way [] = 0
under_way (f ∷ flights) = length f + under_way flights

abbrev tokens_under_way : Flights → ℕ
tokens_under_way [] = 0
tokens_under_way (f ∷ flights) = reported f + tokens_under_way flights

-- a call of at most `n` reports and `t` tokens
abbrev pub IsSmall : ℕ → ℕ → List (Dict Value) → Type 0
IsSmall n t outputs = (length outputs ≤ n) × (reported outputs ≤ t)

-- what is counted and what is still to be reported do not grow together, and the limits stay
record Moves (b : TaskBudget) (fs : Flights) (b' : TaskBudget) (fs' : Flights) : Type 0 where
  same_calls : b'.max_llm_calls ≡ b.max_llm_calls
  same_tokens : b'.max_total_tokens ≡ b.max_total_tokens
  calls : b'.llm_calls + under_way fs' ≤ b.llm_calls + under_way fs
  spent : tokens b' + tokens_under_way fs' ≤ tokens b + tokens_under_way fs

on_llm_end-Moves :
    (b : TaskBudget) (o : Dict Value) (outputs : List (Dict Value)) (fs : Flights)
    → Moves b ((o ∷ outputs) ∷ fs) (on_llm_end b o) (outputs ∷ fs)
unfolding on_llm_end record_usage reported
on_llm_end-Moves b o outputs fs = elim (Option-cases (usage_of o)) [
  | inl unread ↦ rw unread (record {
    same_calls = refl;
    same_tokens = refl;
    calls = omega arith;
    spent = omega (arith, ap count_both unread);
  })
  | inr ((p, c), read) ↦ rw read (record {
    same_calls = refl;
    same_tokens = refl;
    calls = omega arith;
    spent = omega (arith, ap count_both read);
  })
]

Moves-refl : (b : TaskBudget) (fs : Flights) → Moves b fs b fs
Moves-refl b fs = record {
  same_calls = refl;
  same_tokens = refl;
  calls = omega arith;
  spent = omega arith;
}

report-Moves :
    (b : TaskBudget) (k : ℕ) (fs : Flights) → Moves b fs (report b k fs).0 (report b k fs).1
unfolding report reported
report-Moves b zero [] = Moves-refl b []
report-Moves b (suc k) [] = Moves-refl b []
report-Moves b zero ([] ∷ fs) = record {
  same_calls = refl;
  same_tokens = refl;
  calls = omega arith;
  spent = omega arith;
}
report-Moves b zero ((o ∷ outputs) ∷ fs) = on_llm_end-Moves b o outputs fs
report-Moves b (suc k) (f ∷ fs) =
    let m = report-Moves b k fs in
    record {
      same_calls = m.same_calls;
      same_tokens = m.same_tokens;
      calls = omega (arith, m.calls);
      spent = omega (arith, m.spent);
    }

module _ (n t : ℕ) where
  report-IsSmall :
      (b : TaskBudget) (k : ℕ) (fs : Flights)
      → All (IsSmall n t) fs
      → All (IsSmall n t) (report b k fs).1
  unfolding report reported
  report-IsSmall b zero [] h = tt
  report-IsSmall b (suc k) [] h = tt
  report-IsSmall b zero ([] ∷ fs) (_, h) = h
  report-IsSmall b zero ((o ∷ outputs) ∷ fs) ((few, small), h) =
      ((omega (arith, few), omega (arith, small)), h)
  report-IsSmall b (suc k) (f ∷ fs) (small, h) = (small, report-IsSmall b k fs h)

  under_way_le :
      (fs : Flights)
      → All (IsSmall n t) fs
      → (under_way fs ≤ length fs * n) × (tokens_under_way fs ≤ length fs * t)
  under_way_le [] h = (omega arith, omega arith)
  under_way_le (f ∷ fs) ((few, small), h) =
      let (calls, toks) = under_way_le fs h in
      (omega (arith, few, calls), omega (arith, small, toks))

  module _ (m : ℕ) where
    -- at most `m` calls are under way at any time, and each is small
    abbrev pub IsCrowd : Scope → Type 0
    IsCrowd s = (length s.flights ≤ m) × All (IsSmall n t) s.flights

    abbrev pub AreCrowds : Scope → List Event → Type 0
    AreCrowds s [] = IsCrowd s
    AreCrowds s (e ∷ events) = IsCrowd s × AreCrowds (step s e) events

    IsBound : Scope → Type 0
    IsBound s =
        ((s.budget.max_llm_calls ≡ 0)
          ⊎ (s.budget.llm_calls + under_way s.flights < s.budget.max_llm_calls + m * n))
        × ((s.budget.max_total_tokens ≡ 0)
            ⊎ (tokens s.budget + tokens_under_way s.flights < s.budget.max_total_tokens + m * t))

    step-IsBound : (s : Scope) (e : Event) → IsCrowd (step s e) → IsBound s → IsBound (step s e)
    unfolding step budgeted_ainvoke IsBound
    step-IsBound s (reports k) crowd h =
        let moves = report-Moves s.budget k s.flights in
        ground (arith, moves.same_calls, moves.same_tokens, moves.calls, moves.spent, h)
    step-IsBound s (invokes outputs) crowd h = elim (Option-cases (check s.budget)) [
      | inr (e, over) ↦ rw (over, step, budgeted_ainvoke) h
      | inl free ↦
          let (calls, toks, _) = (check-eq-none_iff s.budget).0 free in
          let (few, small) : IsCrowd (record s { flights = outputs ∷ s.flights }) =
            rw (free, step, budgeted_ainvoke) at crowd in
          let (u, v) = under_way_le (outputs ∷ s.flights) small in
          let p = mul-le-mul_right n few in
          let q = mul-le-mul_right t few in
          rw (free, step, budgeted_ainvoke) (ground (arith, calls, toks, u, v, p, q))
    ]

    run-IsBound :
        (s : Scope) (events : List Event) → AreCrowds s events → IsBound s → IsBound (run s events)
    unfolding run
    run-IsBound s [] crowds h = h
    run-IsBound s (e ∷ []) (_, crowd) h = step-IsBound s e crowd h
    run-IsBound s (e ∷ e' ∷ events) (_, (crowd, crowds)) h =
        run-IsBound (step s e) (e' ∷ events) (crowd, crowds) (step-IsBound s e crowd h)

-- the usage is below the limits, or over them by less than `calls` and `toks`
abbrev pub IsNear : ℕ → ℕ → TaskBudget → Type 0
IsNear calls toks b =
    ((b.max_llm_calls ≡ 0) ⊎ (b.llm_calls < b.max_llm_calls + calls))
    × ((b.max_total_tokens ≡ 0) ⊎ (tokens b < b.max_total_tokens + toks))

-- However many LLM calls are tried under a budget that they share, in whatever order they start and
-- report, where at most `m` are under way at any time, each with at most `n` reports of usage and at
-- most `t` tokens in them: the calls counted are fewer than the limit and `m * n` together, and the
-- tokens fewer than the limit and `m * t` together, where there is a limit and it was so at the start.
pub run-IsNear :
    (n t m : ℕ) (b : TaskBudget) (events : List Event)
    → AreCrowds n t m (record { budget = b; flights = [] }) events
    → IsNear (m * n) (m * t) b
    → IsNear (m * n) (m * t) (run (record { budget = b; flights = [] }) events).budget
unfolding IsBound
run-IsNear n t m b events crowds near =
    let s : Scope = record { budget = b; flights = [] } in
    let h : IsBound n t m s = ground (arith, near) in
    let bound = run-IsBound n t m s events crowds h in ground (arith, bound)
