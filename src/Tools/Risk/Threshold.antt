-- ===== src/Tools/Risk/Threshold.antt =====
-- How the configured level of app/tools/risk.py decides which calls wait for an approval.
use ai_agent_task_assistant.Common.{
  ◌≤◌, String, Text, codes, text_eq_iff, ◌≡◌, ◌≢◌, ◌↔◌, true, Option, none, some, Dict, lookup,
  upper, strip, arith,
}
use ai_agent_task_assistant.Tools.Schema.{ToolSchema, act}
use ai_agent_task_assistant.Tools.Risk.{
  l2, tool_risk_levels, parse_risk_level, risk_rank, tool_risk_level, level_or, requires_approval,
}

module _ (registry : Dict ToolSchema) (configured : Text) (tool_name : String) where
  -- A lower threshold asks for an approval wherever a higher one does.
  pub requires_approval_mono :
      (low high : Option Text)
      → risk_rank (parse_risk_level (level_or low configured))
        ≤ risk_rank (parse_risk_level (level_or high configured))
      → requires_approval registry configured tool_name high ≡ true
      → requires_approval registry configured tool_name low ≡ true
  unfolding requires_approval
  requires_approval_mono low high h e = ground arith

  -- The call of a tool of the highest risk waits for an approval at every level, valid or not.
  pub requires_approval-l2 :
      (level : Option Text)
      → tool_risk_level registry tool_name ≡ l2
      → requires_approval registry configured tool_name level ≡ true
  unfolding requires_approval
  requires_approval-l2 level h = ground arith

  -- A tool with no declared level that acts on the outside waits for an approval at every level.
  pub requires_approval-act :
      (level : Option Text) (schema : ToolSchema)
      → lookup tool_name tool_risk_levels ≡ none
      → lookup tool_name registry ≡ some schema
      → schema.category ≡ act
      → requires_approval registry configured tool_name level ≡ true
  unfolding tool_risk_level
  requires_approval-act level schema undeclared found acts =
      requires_approval-l2 level (ground arith)

  -- A level that is none of "L0" and "L1", up to case and outer space, is the default "L2": only the
  -- tools of the highest risk wait.
  pub requires_approval-fallback :
      (level : Text)
      → upper (strip level) ≢ codes "L0"
      → upper (strip level) ≢ codes "L1"
      → (requires_approval registry configured tool_name (some level) ≡ true)
        ↔ (tool_risk_level registry tool_name ≡ l2)
  unfolding requires_approval parse_risk_level
  requires_approval-fallback level not_l0 not_l1 = ground (
    arith,
    text_eq_iff (upper (strip level)) (codes "L0"),
    text_eq_iff (upper (strip level)) (codes "L1"),
  )
