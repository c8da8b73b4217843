-- ===== src/Calling/Guarded.antt =====
-- What the loop of app/agent/executor_node.py lets through to the tools.
use ai_agent_task_assistant.Common.{
  ◌≡◌, refl, ap, ◌∙◌, Bool, List, [], ◌∷◌, ◌++◌, map, Dict, Value, All,
}
use ai_agent_task_assistant.Calling.Loop.{
  ToolCall, Invoked, gives, raises, Log, empty, Surroundings, invoked, handle_all,
}
use ai_agent_task_assistant.Calling.Permitting.{log_of, handle_all-keeps, Permitted}

All-snoc :
    {A : Type 0} (P : A → Type 0) (xs : List A) (x : A) → All P xs → P x → All P (xs ++ (x ∷ []))
All-snoc P [] x h p = (p, tt)
All-snoc P (y ∷ xs) x (q, h) p = (q, All-snoc P xs x h p)

pub map-snoc :
    {A B : Type 0} (f : A → B) (xs : List A) (x : A)
    → map f (xs ++ (x ∷ [])) ≡ map f xs ++ (f x ∷ [])
map-snoc f [] x = refl
map-snoc f (y ∷ xs) x = ap (λ r. f y ∷ r) (map-snoc f xs x)

-- Whatever calls the LLM asks for, and however the loop ends: each call that reached a tool names an
-- allowed one, which the caller's role may call; the call that asked for it had its required
-- parameters; and it came with the arguments asked for, with the hook's consent where the tool has
-- side effects, or, where there is a gate, with the arguments that the gate approved.
pub handle_all-Permitted :
    (env : Surroundings) (calls : List ToolCall)
    → All (Permitted env) (log_of (handle_all env 0 calls empty)).invocations
handle_all-Permitted env calls =
    handle_all-keeps env (λ log. All (Permitted env) log.invocations)
      (record {
        on_refusal = λ call refusal approval log h. h;
        on_call = λ gated call args outcome log ok h. added gated call args outcome log ok h;
      })
      calls 0 empty tt
  where
    added :
        (gated : Bool) (call : ToolCall) (args : Dict Value) (outcome : Invoked) (log : Log)
        → Permitted env (call.name, args)
        → All (Permitted env) log.invocations
        → All (Permitted env) (invoked gated call args outcome log).invocations
    added gated call args (gives result) log ok h =
        All-snoc (Permitted env) log.invocations (call.name, args) h ok
    added gated call args (raises e) log ok h =
        All-snoc (Permitted env) log.invocations (call.name, args) h ok

-- Every call that reached a tool has its result or its error collected, in the order of the calls,
-- and nothing else is collected.
handle_all-collected :
    (env : Surroundings) (calls : List ToolCall)
    → let log = log_of (handle_all env 0 calls empty) in
      map (λ r. (r.tool, r.args)) log.tool_results ≡ log.invocations
handle_all-collected env calls =
    handle_all-keeps env (λ log. map (λ r. (r.tool, r.args)) log.tool_results ≡ log.invocations)
      (record {
        on_refusal = λ call refusal approval log h. h;
        on_call = λ gated call args outcome log ok h. added gated call args outcome log h;
      })
      calls 0 empty refl
  where
    added :
        (gated : Bool) (call : ToolCall) (args : Dict Value) (outcome : Invoked) (log : Log)
        → map (λ r. (r.tool, r.args)) log.tool_results ≡ log.invocations
        → map (λ r. (r.tool, r.args)) (invoked gated call args outcome log).tool_results
          ≡ (invoked gated call args outcome log).invocations
    added gated call args (gives result) log h =
        map-snoc (λ r. (r.tool, r.args)) log.tool_results _
        ∙ ap (λ l. l ++ ((call.name, args) ∷ [])) h
    added gated call args (raises e) log h =
        map-snoc (λ r. (r.tool, r.args)) log.tool_results _
        ∙ ap (λ l. l ++ ((call.name, args) ∷ [])) h
