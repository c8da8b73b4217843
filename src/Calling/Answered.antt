-- ===== src/Calling/Answered.antt =====
-- What the loop of app/agent/executor_node.py answers to the calls of an LLM.
use ai_agent_task_assistant.Common.{
  ℕ, suc, String, ◌≡◌, inl, inr, sym, ap, ◌∙◌, Bool, Bool-cases, Option, none, some, List, [], ◌∷◌,
  ◌++◌, map, append_assoc, append-nil, Dict, Value, is_some,
}
use ai_agent_task_assistant.Calling.Requirements.{allowed}
use ai_agent_task_assistant.Calling.Policy.{Refusal, missing}
use ai_agent_task_assistant.Calling.Loop.{
  ToolCall, Invoked, gives, raises, Log, done, Surroundings, Verdict, goes_on, refuses, pauses,
  bad_arguments, verdict_of, turned_down, invoked, requirements_of, refusal_of, by_verdict,
  by_policy, handle, handle_all,
}
use ai_agent_task_assistant.Calling.Permitting.{log_of, Handled-cases}
use ai_agent_task_assistant.Calling.Guarded.{map-snoc}

-- the ids that a log answers, and the tools that it records
abbrev pub answered_ids : Log → List String
answered_ids log = map (λ m. m.tool_call_id) log.messages

abbrev pub recorded_tools : Log → List String
recorded_tools log = map (λ r. r.tool) log.trace

record Answers (call : ToolCall) (log log' : Log) : Type 0 where
  ids : answered_ids log' ≡ answered_ids log ++ (call.id ∷ [])
  tools : recorded_tools log' ≡ recorded_tools log ++ (call.name ∷ [])

turned_down-Answers :
    (call : ToolCall) (refusal : Refusal) (approval : Option String) (log : Log)
    → Answers call log (turned_down call refusal approval log)
turned_down-Answers call refusal approval log = record {
  ids = map-snoc (λ m. m.tool_call_id) log.messages _;
  tools = map-snoc (λ r. r.tool) log.trace _;
}

invoked-Answers :
    (gated : Bool) (call : ToolCall) (args : Dict Value) (outcome : Invoked) (log : Log)
    → Answers call log (invoked gated call args outcome log)
invoked-Answers gated call args (gives result) log = record {
  ids = map-snoc (λ m. m.tool_call_id) log.messages _;
  tools = map-snoc (λ r. r.tool) log.trace _;
}
invoked-Answers gated call args (raises e) log = record {
  ids = map-snoc (λ m. m.tool_call_id) log.messages _;
  tools = map-snoc (λ r. r.tool) log.trace _;
}

module _ (env : Surroundings) where
  done-inj : {log log' : Log} → done log ≡ done log' → log ≡ log'
  done-inj e = ap log_of e

  by_verdict-Answers :
      (k : ℕ) (call : ToolCall) (v : Verdict) (log log' : Log)
      → by_verdict env k call v log ≡ done log'
      → Answers call log log'
  by_verdict-Answers k call (goes_on args) log log' e =
      rw (sym (done-inj e))
        (invoked-Answers (is_some env.approval_gate) call args (env.invoke k call.name args) log)
  by_verdict-Answers k call (refuses refusal approval) log log' e =
      rw (sym (done-inj e)) (turned_down-Answers call refusal approval log)
  by_verdict-Answers k call (pauses request) log log' e = absurd (cc e)
  by_verdict-Answers k call bad_arguments log log' e = absurd (cc e)

  by_policy-Answers :
      (refusal : Option Refusal) (k : ℕ) (call : ToolCall) (log log' : Log)
      → by_policy env refusal k call log ≡ done log'
      → Answers call log log'
  by_policy-Answers (some refusal) k call log log' e =
      rw (sym (done-inj e)) (turned_down-Answers call refusal none log)
  by_policy-Answers none k call log log' e =
      elim (Bool-cases (allowed (requirements_of env call))) [
        | inl complete ↦
            by_verdict-Answers k call (verdict_of env.approval_gate k call) log log'
              (rw (complete, by_policy) at e)
        | inr incomplete ↦
            let e' = rw (incomplete, by_policy) at e in
            rw (sym (done-inj e'))
              (turned_down-Answers call (missing (requirements_of env call).labels) none log)
      ]

  handle-Answers :
      (k : ℕ) (call : ToolCall) (log log' : Log)
      → handle env k call log ≡ done log'
      → Answers call log log'
  unfolding handle
  handle-Answers k call log log' e = by_policy-Answers (refusal_of env call) k call log log' e

  -- Where the loop gets through, every call the LLM asked for has one message and one entry of the
  -- trace, behind those that were there, in the order of the calls.
  pub handle_all-Answers :
      (calls : List ToolCall) (k : ℕ) (log log' : Log)
      → handle_all env k calls log ≡ done log'
      → (answered_ids log' ≡ answered_ids log ++ map (λ c. c.id) calls)
        × (recorded_tools log' ≡ recorded_tools log ++ map (λ c. c.name) calls)
  unfolding handle_all
  handle_all-Answers [] k log log' e = (
    ap answered_ids (sym (done-inj e)) ∙ sym (append-nil (answered_ids log)),
    ap recorded_tools (sym (done-inj e)) ∙ sym (append-nil (recorded_tools log)),
  )
  handle_all-Answers (call ∷ calls) k log log' e = elim (Handled-cases (handle env k call log)) [
    | inl (log1, h) ↦
        let a = handle-Answers k call log log1 h in
        let (ids, tools) = handle_all-Answers calls (suc k) log1 log' (rw (h, handle_all) at e) in
        (
          ids
              ∙ ap (λ l. l ++ map (λ c. c.id) calls) a.ids
              ∙ append_assoc (answered_ids log) (call.id ∷ []) (map (λ c. c.id) calls),
          tools
              ∙ ap (λ l. l ++ map (λ c. c.name) calls) a.tools
              ∙ append_assoc (recorded_tools log) (call.name ∷ []) (map (λ c. c.name) calls),
        )
    | inr (inl (request, log1, h)) ↦ let e' = rw (h, handle_all) at e in absurd (cc e')
    | inr (inr (log1, h)) ↦ let e' = rw (h, handle_all) at e in absurd (cc e')
  ]
