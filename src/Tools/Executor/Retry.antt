-- ===== src/Tools/Executor/Retry.antt =====
-- How often the retry loop of app/tools/executor.py runs a tool, how long it waits, and what it
-- returns.
use ai_agent_task_assistant.Common.{
  Text, ℕ, zero, suc, ◌*◌, ◌^◌, ◌+◌, ◌≤◌, ◌<◌, ◌≡◌, refl, ◌⊎◌, inl, inr, true, false, Option, none,
  some, List, [], ◌∷◌, length, arith,
}
use ai_agent_task_assistant.Tools.Schema.{ToolSchema, is_idempotent}
use ai_agent_task_assistant.Tools.Failure.{Message, ToolExecutionError, other, normalize_exception}
use ai_agent_task_assistant.Tools.Executor.{
  ToolInput, ToolOutput, Attempt, returned, raised, World, Trial, backoff_ms, attempts,
  execute_with_policy, error_of, last_output, failure, call_cancelled, failed,
}

-- the pauses before the attempts `n + 1`, `n + 2`, ...
abbrev pub pauses : ℕ → ℕ → List ℕ
pauses n zero = []
pauses n (suc k) = (1000 * 2 ^ n) ∷ pauses (suc n) k

-- an attempt that raised an error which may be retried
abbrev pub IsTransient : Attempt → Type 0
IsTransient a = (e : ToolExecutionError) × (error_of a ≡ some e) × (e.retryable ≡ true)

module _ (max_retries : ℕ) (schema : ToolSchema) (limit : ℕ) (world : World)
    (input : ToolInput) where
  abbrev trial : Trial
  trial = execute_with_policy max_retries schema limit world input

  attempts_bounded :
      (left n : ℕ) (last : Option ToolExecutionError)
      → left + n ≡ suc max_retries
      → let t = attempts max_retries schema limit world input left n last in
        (t.calls ≤ left)
        × ((t.delays ≡ []) ⊎ (n + length t.delays ≤ max_retries))
        × (t.delays ≡ pauses n (length t.delays))
  unfolding attempts normalize_exception
  attempts_bounded zero n last e = (omega arith, inl refl, refl)
  attempts_bounded (suc left) n last e =
      ground (arith, attempts_bounded left (suc n) (error_of (world.attempt input n)))

  -- A tool is run at most `max_retries + 1` times, with at most `max_retries` pauses between, and the
  -- pauses are 1000, 2000, 4000, ... milliseconds.
  pub execute_with_policy_bounded :
      (trial.calls ≤ suc max_retries)
      × (length trial.delays ≤ max_retries)
      × (trial.delays ≡ pauses 0 (length trial.delays))
  unfolding execute_with_policy
  execute_with_policy_bounded = ground (arith, attempts_bounded (suc max_retries) 0 none)

  attempts_once :
      (left n : ℕ) (last : Option ToolExecutionError)
      → is_idempotent schema ≡ false
      → let t = attempts max_retries schema limit world input left n last in
        (t.calls ≤ 1) × (t.delays ≡ [])
  unfolding attempts normalize_exception
  attempts_once zero n last e = (omega arith, refl)
  attempts_once (suc left) n last e = ground arith

  -- A tool that is not idempotent is run at most once, with no pause, whatever it raises.
  pub execute_with_policy_once :
      is_idempotent schema ≡ false → (trial.calls ≤ 1) × (trial.delays ≡ [])
  unfolding execute_with_policy
  execute_with_policy_once = attempts_once (suc max_retries) 0 none

  attempts-step :
      (left n : ℕ) (last : Option ToolExecutionError)
      → is_idempotent schema ≡ true
      → world.cancelled n ≡ false
      → IsTransient (world.attempt input n)
      → n < max_retries
      → let t = attempts max_retries schema limit world input in
        let rest = t left (suc n) (error_of (world.attempt input n)) in
        t (suc left) n last ≡ record {
          output = rest.output;
          calls = suc rest.calls;
          delays = backoff_ms n ∷ rest.delays;
        }
  unfolding attempts normalize_exception
  attempts-step left n last idem live trans h = ground arith

  module _ (idem : is_idempotent schema ≡ true) (m : ℕ) (fits : m ≤ max_retries)
      (failing : (i : ℕ)
        → i < m
        → (world.cancelled i ≡ false) × IsTransient (world.attempt input i)) where
    attempts-recover :
        (k left n : ℕ) (last : Option ToolExecutionError) (o : ToolOutput)
        → n + k ≡ m
        → left + n ≡ suc max_retries
        → world.cancelled m ≡ false
        → world.attempt input m ≡ returned o
        → attempts max_retries schema limit world input left n last
          ≡ record { output = o; calls = suc k; delays = pauses n k }
    unfolding attempts normalize_exception
    attempts-recover k zero n last o e f live done = absurd (omega arith)
    attempts-recover zero (suc left) n last o e f live done =
        let same : n ≡ m = omega arith in rw same (ground arith)
    attempts-recover (suc k) (suc left) n last o e f live done =
        let (alive, trans) = failing n (omega arith) in
        rw (attempts-step left n last idem alive trans (omega arith)) (
          cc (
            attempts-recover k left (suc n) (error_of (world.attempt input n)) o (omega arith)
              (omega arith) live done))

    -- An idempotent tool whose attempts before number `m` raise errors that may be retried, and whose
    -- attempt `m` returns, with `m` at most `max_retries` and no cancellation, gives that attempt's
    -- output after `m + 1` runs and the first `m` pauses.
    pub execute_with_policy-recover :
        (o : ToolOutput)
        → world.cancelled m ≡ false
        → world.attempt input m ≡ returned o
        → trial ≡ record { output = o; calls = suc m; delays = pauses 0 m }
    unfolding execute_with_policy
    execute_with_policy-recover o live done =
        attempts-recover m (suc max_retries) 0 none o (omega arith) (omega arith) live done

  -- `o` tells nothing of an unstructured exception
  abbrev pub IsSealed : ToolOutput → Type 0
  IsSealed o = (o ≡ failure call_cancelled) ⊎ (o ≡ failure (failed Message.tool_failed))

  attempts-IsSealed :
      (left n : ℕ) (last : Option ToolExecutionError)
      → ((i : ℕ) → (t : Text) × (world.attempt input i ≡ raised (other t)))
      → IsSealed (last_output last)
      → IsSealed (attempts max_retries schema limit world input left n last).output
  unfolding attempts normalize_exception
  attempts-IsSealed zero n last raises h = h
  attempts-IsSealed (suc left) n last raises h =
      ground
        (arith, raises n, attempts-IsSealed left (suc n) (error_of (world.attempt input n)) raises)

  -- Of a tool all of whose runs raise unstructured exceptions the output holds none of their text:
  -- it says that the call was cancelled or failed.
  pub execute_with_policy-IsSealed :
      ((i : ℕ) → (t : Text) × (world.attempt input i ≡ raised (other t))) → IsSealed trial.output
  unfolding execute_with_policy
  execute_with_policy-IsSealed raises = attempts-IsSealed (suc max_retries) 0 none raises (inr refl)
