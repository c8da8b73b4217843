-- ===== src/Tools/Sql/Guard.antt =====
-- What a statement that passes the checks of app/tools/sql_query.py may do.
use ai_agent_task_assistant.Common.{Text, text_eq, ◌≡◌, ◌⊎◌, true, false, List, [], any}
use ai_agent_task_assistant.Tools.Sql.{
  is_member, table_columns, TableRef, ColumnRef, allowed_columns, allows, Aliases, real_name,
  is_known,
}

module _ (lower : Text → Text) where
  -- a table that the check lets pass: one of the listed ones, or one whose name is among `ctes`
  abbrev pub IsOpen : List Text → TableRef → Type 0
  IsOpen ctes t =
      (is_member (lower t.name) ctes ≡ true)
      ⊎ (is_known (allowed_columns table_columns (lower t.name)) ≡ true)

  -- a column that a statement may name: of the table that its qualifier stands for, or, without one,
  -- of some table of the statement
  abbrev pub IsOpenColumn : Aliases → ColumnRef → Type 0
  IsOpenColumn aliases c =
      (text_eq c.table [] ≡ true → any (λ a. allows a.1 (lower c.name)) aliases ≡ true)
      × (text_eq c.table [] ≡ false
          → allows (real_name aliases (lower c.table)) (lower c.name) ≡ true)
