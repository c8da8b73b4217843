-- ===== src/Calling/Policy.antt =====
-- app/agent/executor_node.py: `ToolExecutionPolicy`, which calls of tools may go on. The hook that
-- asks for an approval is an argument.
use ai_agent_task_assistant.Common.{
  String, Bool, true, false, not, ◌&&◌, Option, none, some, List, [], ◌∷◌, Dict, lookup, Value,
  if◌then◌else◌,
}
use ai_agent_task_assistant.Tools.Security.{
  ToolContext, is_role_allowed, category_system, category_sql, category_file, category_network,
}
use ai_agent_task_assistant.Tools.Executor.{Tool}
use ai_agent_task_assistant.Tools.Executor.Pipeline.{is_in}

-- `TOOL_CATEGORIES` of app/tools/security.py
abbrev pub tool_categories : Dict String
tool_categories =
    ("datetime_tool", category_system)
    ∷ ("calculator", category_system)
    ∷ ("sql_query", category_sql)
    ∷ ("file_processing", category_file)
    ∷ ("web_search", category_network)
    ∷ []

abbrev pub side_effect_tools : List String
side_effect_tools = "sql_query" ∷ "file_processing" ∷ "web_search" ∷ []

-- what the approval hook does
pub data Hook : Type 0 where
  answers : Bool → Hook
  raises : String → Hook

pub record ToolExecutionPolicy : Type 0 where
  pub allowed_tools : List String
  pub approval_hook : Option (String → Dict Value → Hook)
  pub context : ToolContext

-- why a call does not reach its tool, up to the wording
pub data Refusal : Type 0 where
  not_listed role_denied hook_refused not_confirmed : Refusal
  hook_raised gate_raised rejected : String → Refusal
  missing : List String → Refusal

abbrev or_system : Option String → String
or_system none = category_system
or_system (some category) = category

abbrev category_of : Option Tool → String → String
category_of none tool_name = or_system (lookup tool_name tool_categories)
category_of (some tool) tool_name = tool.category

module _ (registry : Dict Tool) (policy : ToolExecutionPolicy) where
  -- `_role_allows`
  unfoldable pub role_allows : String → Bool
  role_allows tool_name =
      is_role_allowed policy.context.role (category_of (lookup tool_name registry) tool_name)

  abbrev pub hook_on : Option (String → Dict Value → Hook) → String → Dict Value → Hook
  hook_on none tool_name args = answers true
  hook_on (some hook) tool_name args = hook tool_name args

  abbrev pub refused_by : Hook → Option Refusal
  refused_by (answers true) = none
  refused_by (answers false) = some hook_refused
  refused_by (raises e) = some (hook_raised e)

  -- `check`: `none` lets the call go on
  unfoldable pub check : String → Dict Value → Bool → Option Refusal
  check tool_name args apply_hook =
      if not (is_in tool_name policy.allowed_tools)
      then some not_listed
      else if not (role_allows tool_name)
      then some role_denied
      else if apply_hook && is_in tool_name side_effect_tools
      then refused_by (hook_on policy.approval_hook tool_name args)
      else none
