-- ===== src/Tools/Schema.antt =====
-- app/tools/schema.py: the categories of tools and the schema of one tool. Of `input_schema` the
-- runtime reads the `required` list alone, so that list stands for it. Descriptions, the output
-- schema, the execution mode and the conversions for the LLM are left out.
use ai_agent_task_assistant.Common.{
  ℕ, String, Text, Dict, Value, null, truthy, lookup, Bool, true, false, not, Option, none, some,
  List,
}

pub data ToolCategory : Type 0 where
  observe reason act remember interact : ToolCategory

abbrev pub is_act : ToolCategory → Bool
is_act act = true
is_act _ = false

pub record ToolSchema : Type 0 where
  pub name : String
  pub category : ToolCategory
  pub input_schema : Option (List String)
  pub required_params : List String
  pub permissions : List Text
  pub timeout : Option ℕ  -- seconds
  pub available : Bool
  pub metadata : Dict Value

-- `metadata.get("idempotent")` where `None` and a missing key are the same
abbrev declared : Option Value → Option Value
declared none = none
declared (some null) = none
declared (some v) = some v

unfoldable pub is_idempotent : ToolSchema → Bool
unfolding lookup truthy
is_idempotent schema = elim (declared (lookup "idempotent" schema.metadata)) [
  | some v ↦ truthy v
  | none ↦ not (is_act schema.category)
]
