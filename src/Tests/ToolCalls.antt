-- ===== src/Tests/ToolCalls.antt =====
-- Calls of tools (app/tools/executor.py, app/tools/risk.py) on small inputs.
use ai_agent_task_assistant.Common.{
  ℕ, zero, suc, ◌<◌, ◌≤◌, String, codes, ◌≡◌, refl, ◌↔◌, true, false, none, some, [], ◌∷◌, length,
  All, Dict, lookup, Value, str, arith, lower, nat_eq, if◌then◌else◌,
}
use ai_agent_task_assistant.Tools.Schema.{ToolSchema, observe, act, is_idempotent}
use ai_agent_task_assistant.Tools.Security.{anonymous, valid_role, effective_role, is_role_allowed}
use ai_agent_task_assistant.Tools.Failure.{other, normalize_exception}
use ai_agent_task_assistant.Tools.Risk.{parse_risk_level, tool_risk_level, requires_approval}
use ai_agent_task_assistant.Tools.Executor.{
  Tool, resolve_legacy_category, ToolInput, plain, ToolOutput, ToolExecutionContext, returned,
  raised, World, execute_with_policy,
}
use ai_agent_task_assistant.Tools.Executor.Pipeline.{
  available, missing, merge_named, to_tool_input, check_permission, ask_approval, admit, execute,
  list_or_nil, is_in,
}
use ai_agent_task_assistant.Tools.Executor.Guarded.{IsAdmitted, execute_runs}
use ai_agent_task_assistant.Tools.Executor.Retry.{
  pauses, IsTransient, execute_with_policy_bounded, execute_with_policy-recover,
}
use ai_agent_task_assistant.Tools.Executor.Input.{missing-eq-nil_iff}

abbrev pub web_search : ToolSchema
web_search = record {
  name = "web_search";
  category = observe;
  input_schema = some ("query" ∷ []);
  required_params = "query" ∷ [];
  permissions = codes "read:web" ∷ [];
  timeout = none;
  available = true;
  metadata = [];
}

abbrev search_tool : Tool
search_tool = record { schema = web_search; legacy_category = some "system"; category = "" }

abbrev pub render : Value → String
render _ = "?"

abbrev answer : ToolOutput
answer = record { success = true; content = str "found"; error = none }

abbrev quiet : World
quiet = record { gate = none; cancelled = λ _. false; attempt = λ _ _. returned answer }

-- the first attempt loses its connection
abbrev flaky : World
flaky = record quiet {
  attempt =
      λ _ n. if nat_eq n 0 then raised (other (codes "Connection reset")) else returned answer;
}

abbrev guest_call : ToolExecutionContext
guest_call = record { tool_context = anonymous; granted_permissions = none }

abbrev question : Dict Value
question = ("query", str "antt") ∷ []

abbrev input : ToolInput
input = record { query = "antt"; parameters = [] }

abbrev tools : Dict Tool
tools = ("web_search", search_tool) ∷ []

search_calls :
    (execute render tools 3 30 "web_search" (plain question) guest_call true none quiet).calls ≡ 1
unfolding execute admit lookup missing available to_tool_input merge_named check_permission
    is_role_allowed effective_role valid_role resolve_legacy_category ask_approval
    execute_with_policy lower
search_calls = refl

execute_runs_example :
    (tool : Tool) × (input : ToolInput) × IsAdmitted render tools "web_search"
      (plain question)
      guest_call
      true
      quiet
      tool
      input
execute_runs_example =
    execute_runs render tools "web_search" (plain question) guest_call true quiet 3 30 none
      (omega (arith, search_calls))

execute_with_policy_bounded_example :
    let t = execute_with_policy 3 web_search 30 flaky input in
    (t.calls ≤ 4) × (length t.delays ≤ 3) × (t.delays ≡ pauses 0 (length t.delays))
execute_with_policy_bounded_example = execute_with_policy_bounded 3 web_search 30 flaky input

abbrev deploy : ToolSchema
deploy = record web_search { name = "deploy"; category = act }

flaky-IsTransient :
    (i : ℕ) → i < 1 → (flaky.cancelled i ≡ false) × IsTransient (flaky.attempt input i)
unfolding normalize_exception
flaky-IsTransient zero h =
    (refl, (normalize_exception (other (codes "Connection reset")), refl, refl))
flaky-IsTransient (suc i) h = absurd (omega (arith, h))

execute_with_policy-recover_example :
    execute_with_policy 3 web_search 30 flaky input
    ≡ record { output = answer; calls = 2; delays = 1000 ∷ [] }
unfolding is_idempotent
execute_with_policy-recover_example =
    execute_with_policy-recover 3 web_search 30 flaky input refl 1 (omega arith) flaky-IsTransient
      answer refl refl

abbrev broken : World
broken = record quiet { attempt = λ _ _. raised (other (codes "password=x")) }

missing-eq-nil_iff_example :
    (missing web_search (plain question) ≡ [])
    ↔ All (λ r. is_in r (available (plain question)) ≡ true) (list_or_nil web_search.input_schema)
missing-eq-nil_iff_example = missing-eq-nil_iff web_search (plain question)

abbrev schemas : Dict ToolSchema
schemas = ("deploy", deploy) ∷ []

deploy_waits_at_l2 : requires_approval schemas (codes "L2") "deploy" (some (codes "L2")) ≡ true
unfolding requires_approval parse_risk_level tool_risk_level lookup
deploy_waits_at_l2 = refl
