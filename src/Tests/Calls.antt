-- ===== src/Tests/Calls.antt =====
-- The loop over the calls of tools (app/agent/executor_node.py) on small inputs.
use ai_agent_task_assistant.Common.{
  ◌==◌, ◌||◌, Dict, Value, ℕ, zero, suc, String, Text, ◌≡◌, ◌↔◌, refl, true, Option, none, List, [],
  ◌∷◌, str, All,
}
use ai_agent_task_assistant.Tools.Security.{anonymous}
use ai_agent_task_assistant.Calling.Requirements.{
  is_free_text, is_location_dependent_query, allowed, tool_required_params, extract_query,
  check_tool_requirements,
}
use ai_agent_task_assistant.Calling.Requirements.Sources.{is_given}
use ai_agent_task_assistant.Calling.Requirements.Checked.{check_tool_requirements_iff}
use ai_agent_task_assistant.Calling.Policy.{not_listed, check}
use ai_agent_task_assistant.Calling.Loop.{
  ToolCall, Invoked, gives, raises, empty, Surroundings, handle, handle_all, turned_down,
}
use ai_agent_task_assistant.Calling.Permitting.{log_of, Permitted}
use ai_agent_task_assistant.Calling.Guarded.{handle_all-Permitted}
use ai_agent_task_assistant.Calling.Answered.{answered_ids, recorded_tools, handle_all-Answers}
use ai_agent_task_assistant.Calling.Invoking.{IsTried, invoke_with_retry, invoke_with_retry-IsTried}
use ai_agent_task_assistant.Tests.ToolCalls.{render}

abbrev found_nothing : String → Text → Option Text
found_nothing pattern text = none

abbrev surroundings : Surroundings
surroundings = record {
  registry = [];
  policy = record { allowed_tools = "calculator" ∷ []; approval_hook = none; context = anonymous };
  approval_gate = none;
  search = found_nothing;
  render = render;
  extracted_requirements = [];
  conversation = [];
  invoke = λ k name args. gives "4";
}

abbrev calls : List ToolCall
calls =
    record { name = "calculator"; args = ("query", str "2 + 2") ∷ []; id = "c1" }
    ∷ record { name = "deploy"; args = []; id = "c2" }
    ∷ []

handle_all-Permitted_example :
    All (Permitted surroundings) (log_of (handle_all surroundings 0 calls empty)).invocations
handle_all-Permitted_example = handle_all-Permitted surroundings calls

abbrev refused_call : ToolCall
refused_call = record { name = "deploy"; args = []; id = "c2" }

handle_all-Answers_example :
    (answered_ids (turned_down refused_call not_listed none empty) ≡ "c2" ∷ [])
    × (recorded_tools (turned_down refused_call not_listed none empty) ≡ "deploy" ∷ [])
unfolding handle_all handle check
handle_all-Answers_example =
    handle_all-Answers surroundings (refused_call ∷ []) 0 empty
      (turned_down refused_call not_listed none empty) refl

check_tool_requirements_iff_example :
    let args : Dict Value = ("location", str "Hangzhou") ∷ [] in
    (allowed (check_tool_requirements found_nothing render none "web_search" args [] []) ≡ true) ↔ (
      All
        (λ param. (is_free_text param || is_given found_nothing render args [] [] param) ≡ true)
        (tool_required_params none)
      × (("web_search" == "web_search") ≡ true
          → is_location_dependent_query (extract_query render args) ≡ true
          → is_given found_nothing render args [] [] "location" ≡ true))
check_tool_requirements_iff_example =
    check_tool_requirements_iff found_nothing render none "web_search"
      (("location", str "Hangzhou") ∷ []) [] []

abbrev flaky : ℕ → Invoked
flaky zero = raises "connection reset"
flaky (suc k) = gives "4"

invoke_with_retry-IsTried_example : IsTried 2 flaky 0 3 (invoke_with_retry 2 flaky)
invoke_with_retry-IsTried_example = invoke_with_retry-IsTried 2 flaky
