-- ===== src/Calling/Permitting.antt =====
-- What lets a call through the loop of app/agent/executor_node.py, and what every round keeps.
use ai_agent_task_assistant.Common.{
  ℕ, suc, String, ◌≡◌, ◌⊎◌, inl, inr, refl, Bool, true, false, not, Bool-cases, Option, none, some,
  List, [], ◌∷◌, Dict, Value, is_some,
}
use ai_agent_task_assistant.Gate.{suspended, decided, ApprovalOutcome}
use ai_agent_task_assistant.Tools.Executor.{Tool}
use ai_agent_task_assistant.Tools.Executor.Pipeline.{is_in}
use ai_agent_task_assistant.Calling.Requirements.{allowed}
use ai_agent_task_assistant.Calling.Policy.{
  Hook, answers, ToolExecutionPolicy, Refusal, missing, side_effect_tools, role_allows, hook_on,
  refused_by, check,
}
use ai_agent_task_assistant.Calling.Loop.{
  ToolCall, Asked, ends, Invoked, Log, Handled, done, paused, broken, Surroundings, Verdict,
  goes_on, refuses, pauses, bad_arguments, approved_args, verdict_on, verdict_of, turned_down,
  invoked, requirements_of, refusal_of, by_verdict, by_policy, handle, handle_all,
}

abbrev pub log_of : Handled → Log
log_of (done log) = log
log_of (paused request log) = log
log_of (broken log) = log

answered_true :
    (registry : Dict Tool) (policy : ToolExecutionPolicy) (h : Hook)
    → refused_by registry policy h ≡ none
    → h ≡ answers true
answered_true registry policy (answers true) e = refl
answered_true registry policy (answers false) e = absurd (cc e)
answered_true registry policy (Hook.raises message) e = absurd (cc e)

check-eq-none :
    (registry : Dict Tool) (policy : ToolExecutionPolicy) (name : String) (args : Dict Value)
    (apply_hook : Bool)
    → check registry policy name args apply_hook ≡ none
    → (is_in name policy.allowed_tools ≡ true)
      × (role_allows registry policy name ≡ true)
      × (apply_hook ≡ true
          → is_in name side_effect_tools ≡ true
          → hook_on registry policy policy.approval_hook name args ≡ answers true)
unfolding check
check-eq-none registry policy name args apply_hook e =
    elim (Bool-cases (is_in name policy.allowed_tools)) [
      | inr unlisted ↦ let e' = rw unlisted at e in absurd (cc e')
      | inl listed ↦ elim (Bool-cases (role_allows registry policy name)) [
        | inr barred ↦ let e' = rw (listed, barred) at e in absurd (cc e')
        | inl in_role ↦ (
          listed,
          in_role,
          λ hooked side.
              answered_true registry policy (hook_on registry policy policy.approval_hook name args)
                (rw (listed, in_role, hooked, side) at e),
        )
      ]
    ]

Asked-approved :
    (asked : Asked) (given args : Dict Value)
    → verdict_on asked given ≡ goes_on args
    → (v : Value) × (asked ≡ ends (decided (ApprovalOutcome.approved v)))
      × (approved_args v given ≡ goes_on args)
Asked-approved (Asked.raises message) given args e = absurd (cc e)
Asked-approved (ends (suspended request)) given args e = absurd (cc e)
Asked-approved (ends (decided (ApprovalOutcome.rejected reason))) given args e = absurd (cc e)
Asked-approved (ends (decided ApprovalOutcome.cancelled)) given args e = absurd (cc e)
Asked-approved (ends (decided (ApprovalOutcome.approved v))) given args e = (v, refl, e)

pub Handled-cases :
    (h : Handled)
    → ((log : Log) × (h ≡ done log))
      ⊎ ((request : Dict Value) × (log : Log) × (h ≡ paused request log))
      ⊎ ((log : Log) × (h ≡ broken log))
Handled-cases (done log) = inl (log, refl)
Handled-cases (paused request log) = inr (inl (request, log, refl))
Handled-cases (broken log) = inr (inr (log, refl))

module _ (env : Surroundings) where
  -- what lets the arguments reach the tool that were asked for as `asked`
  pub data Consent (name : String) (asked args : Dict Value) : Type 0 where
    by_hook :
        env.approval_gate ≡ none
        → (is_in name side_effect_tools ≡ true
            → hook_on env.registry env.policy env.policy.approval_hook name asked ≡ answers true)
        → args ≡ asked
        → Consent name asked args
    by_gate :
        (gate : ℕ → String → Dict Value → Asked) (k : ℕ) (given : Value)
        → env.approval_gate ≡ some gate
        → gate k name asked ≡ ends (decided (ApprovalOutcome.approved given))
        → approved_args given asked ≡ goes_on args
        → Consent name asked args

  -- A call of a tool that every guard lets through.
  pub record Permitted (invocation : String × Dict Value) : Type 0 where
    pub listed : is_in invocation.0 env.policy.allowed_tools ≡ true
    pub in_role : role_allows env.registry env.policy invocation.0 ≡ true
    pub asked : ToolCall
    pub named : asked.name ≡ invocation.0
    pub complete : allowed (requirements_of env asked) ≡ true
    pub consent : Consent invocation.0 asked.args invocation.1

  -- a property of logs that a refused call keeps, and a permitted one
  pub record IsKept (P : Log → Type 0) : Type 0 where
    pub on_refusal :
        (call : ToolCall) (refusal : Refusal) (approval : Option String) (log : Log)
        → P log
        → P (turned_down call refusal approval log)
    pub on_call :
        (gated : Bool) (call : ToolCall) (args : Dict Value) (outcome : Invoked) (log : Log)
        → Permitted (call.name, args)
        → P log
        → P (invoked gated call args outcome log)

  Consent-of :
      (gate : Option (ℕ → String → Dict Value → Asked)) (k : ℕ) (call : ToolCall)
      (args : Dict Value)
      → env.approval_gate ≡ gate
      → refusal_of env call ≡ none
      → verdict_of gate k call ≡ goes_on args
      → Consent call.name call.args args
  Consent-of none k call args eg e v =
      let (listed, in_role, hook) =
        check-eq-none env.registry env.policy call.name call.args (not (is_some env.approval_gate))
          e in
      by_hook eg (hook (rw eg refl)) (cc v)
  Consent-of (some gate) k call args eg e v =
      let (given, asked, same) = Asked-approved (gate k call.name call.args) call.args args v in
      by_gate gate k given eg asked same

  Permitted-of :
      (k : ℕ) (call : ToolCall) (args : Dict Value)
      → refusal_of env call ≡ none
      → allowed (requirements_of env call) ≡ true
      → verdict_of env.approval_gate k call ≡ goes_on args
      → Permitted (call.name, args)
  Permitted-of k call args e complete v =
      let (listed, in_role, hook) =
        check-eq-none env.registry env.policy call.name call.args (not (is_some env.approval_gate))
          e in
      record {
        listed = listed;
        in_role = in_role;
        asked = call;
        named = refl;
        complete = complete;
        consent = Consent-of env.approval_gate k call args refl e v;
      }

  module _ (P : Log → Type 0) (kept : IsKept P) where
    by_verdict-keeps :
        (k : ℕ) (call : ToolCall) (v : Verdict) (log : Log)
        → ((args : Dict Value) → v ≡ goes_on args → Permitted (call.name, args))
        → P log
        → P (log_of (by_verdict env k call v log))
    by_verdict-keeps k call (goes_on args) log ok p =
        kept.on_call (is_some env.approval_gate) call args (env.invoke k call.name args) log
          (ok args refl) p
    by_verdict-keeps k call (refuses refusal approval) log ok p =
        kept.on_refusal call refusal approval log p
    by_verdict-keeps k call (pauses request) log ok p = p
    by_verdict-keeps k call bad_arguments log ok p = p

    by_policy-keeps :
        (refusal : Option Refusal) (k : ℕ) (call : ToolCall) (log : Log)
        → refusal_of env call ≡ refusal
        → P log
        → P (log_of (by_policy env refusal k call log))
    by_policy-keeps (some refusal) k call log e p = kept.on_refusal call refusal none log p
    by_policy-keeps none k call log e p = elim (Bool-cases (allowed (requirements_of env call))) [
      | inl complete ↦
          rw (complete, by_policy)
            (by_verdict-keeps k call (verdict_of env.approval_gate k call) log
              (λ args v. Permitted-of k call args e complete v) p)
      | inr incomplete ↦
          rw (incomplete, by_policy)
            (kept.on_refusal call (missing (requirements_of env call).labels) none log p)
    ]

    handle-keeps :
        (k : ℕ) (call : ToolCall) (log : Log) → P log → P (log_of (handle env k call log))
    unfolding handle
    handle-keeps k call log p = by_policy-keeps (refusal_of env call) k call log refl p

    pub handle_all-keeps :
        (calls : List ToolCall) (k : ℕ) (log : Log)
        → P log
        → P (log_of (handle_all env k calls log))
    unfolding handle_all
    handle_all-keeps [] k log p = p
    handle_all-keeps (call ∷ calls) k log p =
        let q = handle-keeps k call log p in
        elim (Handled-cases (handle env k call log)) [
          | inl (log', e) ↦
              let q' : P log' = rw e at q in
              rw (e, handle_all) (handle_all-keeps calls (suc k) log' q')
          | inr (inl (request, log', e)) ↦ let q' : P log' = rw e at q in rw (e, handle_all) q'
          | inr (inr (log', e)) ↦ let q' : P log' = rw e at q in rw (e, handle_all) q'
        ]
