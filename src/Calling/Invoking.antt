-- ===== src/Calling/Invoking.antt =====
-- app/agent/executor_node.py: `_invoke_tool` and `_invoke_with_retry`. The attempts, the world that a
-- tool runs in and the formatting of values and errors are arguments; pauses are in milliseconds.
use Prim.Native.String.{◌++◌}
use ai_agent_task_assistant.Common.{
  ℕ, zero, suc, ◌+◌, ◌*◌, ◌^◌, ◌<◌, ◌≡◌, ◌⊎◌, refl, sym, ap, ◌∙◌, inl, inr, Bool-cases, String,
  codes, lower, contains, Bool, true, false, not, ◌||◌, Option, none, some, List, [], ◌∷◌, Dict,
  lookup, Value, any, leb, arith, if◌then◌else◌,
}
use ai_agent_task_assistant.Tools.Security.{ToolContext}
use ai_agent_task_assistant.Tools.Executor.{
  Tool, plain, ErrorText, ToolOutput, ToolExecutionContext, World,
}
use ai_agent_task_assistant.Tools.Executor.Pipeline.{Ended, returned, execute}
use ai_agent_task_assistant.Calling.Loop.{Invoked, gives, raises}

abbrev transient_words : List String
transient_words = "timeout" ∷ "connection" ∷ "temporary" ∷ "unavailable" ∷ "429" ∷ []

unfoldable pub is_transient : String → Bool
is_transient error = any (λ word. contains (codes word) (lower (codes error))) transient_words

-- how the attempts ended, how many there were, and the pauses between them
pub record Tried : Type 0 where
  pub outcome : Invoked
  pub calls : ℕ
  pub delays : List ℕ

module _ (max_retries : ℕ) (attempt : ℕ → Invoked) where
  abbrev once : Invoked → Tried
  once outcome = record { outcome = outcome; calls = 1; delays = [] }

  abbrev resumed : ℕ → Tried → Tried
  resumed n rest = record {
    outcome = rest.outcome;
    calls = suc rest.calls;
    delays = 1000 * 2 ^ n ∷ rest.delays;
  }

  abbrev after_attempt : Invoked → ℕ → Tried → Tried
  after_attempt (gives result) n rest = once (gives result)
  after_attempt (raises e) n rest =
      if not (is_transient e) || leb max_retries n then once (raises e) else resumed n rest

  -- the loop over `range(max_retries + 1)`: the rounds left, and the number of this one; behind the
  -- last round `last_exc` is raised
  tries : ℕ → ℕ → String → Tried
  tries zero n last = record { outcome = raises last; calls = 0; delays = [] }
  tries (suc left) n last = let rest = tries left (suc n) last in after_attempt (attempt n) n rest

  unfoldable pub invoke_with_retry : Tried
  unfolding tries
  invoke_with_retry = tries (suc max_retries) 0 ""

  -- What a trial of `left` rounds from number `n` on did: rounds that raised errors that may pass, and
  -- a last one, whose outcome is the result.
  pub record IsTried (n left : ℕ) (t : Tried) : Type 0 where
    pub last : ℕ
    pub counted : t.calls ≡ suc last
    pub within : last < left
    pub outcome : t.outcome ≡ attempt (n + last)
    pub retried :
        (i : ℕ) → i < last → (e : String) × (attempt (n + i) ≡ raises e) × (is_transient e ≡ true)

  first_only : (n left : ℕ) (o : Invoked) → attempt n ≡ o → IsTried n (suc left) (once o)
  first_only n left o e = record {
    last = 0;
    counted = refl;
    within = omega arith;
    outcome = sym (ap attempt (omega arith) ∙ e);
    retried = λ i h. absurd (omega (arith, h));
  }

  one_more :
      (n left : ℕ) (rest : Tried) (e : String)
      → attempt n ≡ raises e
      → is_transient e ≡ true
      → IsTried (suc n) left rest
      → IsTried n (suc left) (resumed n rest)
  one_more n left rest e here passes t = record {
    last = suc t.last;
    counted = ap suc t.counted;
    within = omega (arith, t.within);
    outcome = t.outcome ∙ ap attempt (omega arith);
    retried = earlier;
  }
    where
      earlier :
          (i : ℕ)
          → i < suc t.last
          → (e : String) × (attempt (n + i) ≡ raises e) × (is_transient e ≡ true)
      earlier zero h = (e, ap attempt (omega arith) ∙ here, passes)
      earlier (suc i) h =
          let (e', raised, passes') = t.retried i (omega arith) in
          (e', ap attempt (omega arith) ∙ raised, passes')

  after-IsTried :
      (left n : ℕ) (o : Invoked) (rest : Tried)
      → attempt n ≡ o
      → (leb max_retries n ≡ true) ⊎ IsTried (suc n) left rest
      → IsTried n (suc left) (after_attempt o n rest)
  after-IsTried left n (gives result) rest here h = first_only n left (gives result) here
  after-IsTried left n (raises e) rest here h = elim (Bool-cases (is_transient e)) [
    | inr stays ↦ rw (stays, after_attempt) (first_only n left (raises e) here)
    | inl passes ↦ elim (Bool-cases (leb max_retries n)) [
      | inl over ↦ rw (passes, over, after_attempt) (first_only n left (raises e) here)
      | inr under ↦
          rw (passes, under, after_attempt)
            (one_more n left rest e here passes
              (elim h [ inl over ↦ absurd (cc (over, under)) | inr t ↦ t ]))
    ]
  ]

  tries-IsTried :
      (left n : ℕ) (last : String)
      → left + n ≡ max_retries
      → IsTried n (suc left) (tries (suc left) n last)
  unfolding tries
  tries-IsTried zero n last h = after-IsTried zero n (attempt n) _ refl (inl (ground (arith, h)))
  tries-IsTried (suc left) n last h =
      after-IsTried (suc left) n (attempt n) _ refl
        (inr (tries-IsTried left (suc n) last (omega arith)))

  -- A call of a tool outside of the registry is tried at least once and at most max_retries + 1
  -- times; it ends as its last attempt does, and each attempt before raised an error that may pass.
  pub invoke_with_retry-IsTried : IsTried 0 (suc max_retries) invoke_with_retry
  unfolding invoke_with_retry
  invoke_with_retry-IsTried = tries-IsTried max_retries 0 "" (omega arith)

module _ (render : Value → String) (say : ErrorText → String) (complain : Ended → String)
    (registry : Dict Tool) (max_retries default_timeout : ℕ) where
  abbrev told : Option ErrorText → String
  told none = "None"
  told (some e) = say e

  abbrev text_of_output : ToolOutput → Invoked
  text_of_output output =
      if output.success
      then gives (render output.content)
      else gives ("工具执行失败: " ++ told output.error)

  abbrev of_ended : Ended → Invoked
  of_ended (returned output) = text_of_output output
  of_ended e = raises (complain e)

  -- the identity of the caller, and no grants of its own
  abbrev from_tool_context : ToolContext → ToolExecutionContext
  from_tool_context context = record { tool_context = context; granted_permissions = none }

  -- `_invoke_tool`; `attempt` calls a tool that is not registered
  unfoldable pub invoke_tool : World → (ℕ → Invoked) → ToolContext → String → Dict Value → Invoked
  invoke_tool world attempt context tool_name args = elim (lookup tool_name registry) [
    | none ↦ (invoke_with_retry 2 attempt).outcome
    | some tool ↦
        of_ended
          (execute render registry max_retries default_timeout tool_name (plain args)
            (from_tool_context context) false none world).ended
  ]
