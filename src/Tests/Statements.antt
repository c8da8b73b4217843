-- ===== src/Tests/Statements.antt =====
-- The checks of SQL statements (app/tools/sql_query.py) on small inputs.
use ai_agent_task_assistant.Common.{
  codes, text_eq, lower, upper, strip, contains, starts_with, ◌≡◌, refl, false, none, some, [], ◌∷◌,
}
use ai_agent_task_assistant.Tools.Sql.{
  is_member, forbidden_keywords, stripped, without_semicolons, words_of, split_words, validate, Ast,
  forbidden_in, forbidden_words,
}
use ai_agent_task_assistant.Tools.Sql.Keywords.{validate-keyword_free}

validate-keyword_free_example : is_member (codes "NAME") forbidden_keywords ≡ false
unfolding validate forbidden_in forbidden_keywords words_of split_words stripped without_semicolons
    text_eq lower upper strip contains starts_with
validate-keyword_free_example =
    validate-keyword_free lower upper none (codes "SELECT name FROM employees;") (codes "SELECT ")
      (codes "NAME") (codes " FROM EMPLOYEES") refl refl refl refl

dropped_test :
    validate lower upper false none (codes "select 1 drop")
    ≡ some (forbidden_words (codes "DROP" ∷ []))
unfolding validate forbidden_in forbidden_keywords words_of split_words stripped without_semicolons
    text_eq lower upper strip contains starts_with
dropped_test = refl

-- SELECT lower(e.name) FROM employees e
abbrev named : Ast
named = record {
  functions = record { this = []; sql_name = codes "LOWER" } ∷ [];
  pragma = false;
  ctes = [];
  tables = record { name = codes "employees"; alias_or_name = codes "e" } ∷ [];
  columns = record { name = codes "name"; table = codes "e" } ∷ [];
  star = false;
}
