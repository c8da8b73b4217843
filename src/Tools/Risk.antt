-- ===== src/Tools/Risk.antt =====
-- app/tools/risk.py: the risk level of a tool and whether a call of it needs an approval. The
-- registry is the dict of the registered tools' schemas.
pub mod Threshold
use ai_agent_task_assistant.Common.{
  ℕ, String, Text, codes, text_eq, upper, strip, Bool, Option, none, some, List, [], ◌∷◌, Dict,
  lookup, leb, if◌then◌else◌,
}
use ai_agent_task_assistant.Tools.Schema.{
  ToolCategory, observe, reason, act, remember, interact, ToolSchema,
}

pub data ToolRisk : Type 0 where
  l0 l1 l2 : ToolRisk

abbrev pub tool_risk_levels : Dict ToolRisk
tool_risk_levels =
    ("calculator", l0)
    ∷ ("web_search", l0)
    ∷ ("datetime_tool", l0)
    ∷ ("sql_query", l0)
    ∷ ("http.get", l0)
    ∷ ("memory.get", l0)
    ∷ ("memory.search", l0)
    ∷ ("data.transform", l0)
    ∷ ("code.execute", l0)
    ∷ ("file_processing", l1)
    ∷ ("memory.set", l1)
    ∷ ("user.message", l1)
    ∷ ("user.ask", l1)
    ∷ ("database.write", l1)
    ∷ ("http.request", l1)
    ∷ ("email.send", l2)
    ∷ ("github.create_pr", l2)
    ∷ ("memory.delete", l2)
    ∷ ("user.approval", l2)
    ∷ []

abbrev pub default_risk : ToolRisk
default_risk = l1

-- `None` is read as the empty text
abbrev given : Option Text → Text
given none = []
given (some t) = t

unfoldable pub parse_risk_level : Option Text → ToolRisk
unfolding strip upper text_eq
parse_risk_level value =
    let text = upper (strip (given value)) in
    if text_eq text (codes "L0") then l0 else if text_eq text (codes "L1") then l1 else l2

abbrev pub risk_rank : ToolRisk → ℕ
risk_rank l0 = 0
risk_rank l1 = 1
risk_rank l2 = 2

abbrev category_risk : ToolCategory → ToolRisk
category_risk observe = l0
category_risk reason = l0
category_risk act = l2
category_risk remember = default_risk
category_risk interact = default_risk

abbrev pub level_or : Option Text → Text → Option Text
level_or none configured = some configured
level_or (some level) configured = some level

module _ (registry : Dict ToolSchema) where
  abbrev undeclared_risk : Option ToolSchema → ToolRisk
  undeclared_risk none = default_risk
  undeclared_risk (some schema) = category_risk schema.category

  unfoldable pub tool_risk_level : String → ToolRisk
  tool_risk_level tool_name = elim (lookup tool_name tool_risk_levels) [
    | some risk ↦ risk
    | none ↦ undeclared_risk (lookup tool_name registry)
  ]

  -- `configured` is `settings.TOOL_APPROVAL_LEVEL`, read when no level is given
  unfoldable pub requires_approval : Text → String → Option Text → Bool
  requires_approval configured tool_name approval_level =
      leb (risk_rank (parse_risk_level (level_or approval_level configured)))
        (risk_rank (tool_risk_level tool_name))
