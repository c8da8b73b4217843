-- ===== src/Tools/Sql.antt =====
-- app/tools/sql_query.py: the checks that a statement passes before `SQLQueryTool` runs it. What
-- sqlparse and sqlglot make of a statement, and the columns that SQLite reports of a table, are
-- arguments, and so are `lower` and `upper`, which are Python's on every character; texts are lists
-- of code points. The connection and its limits are calls of sqlite3.
pub mod Guard
pub mod Keywords
use ai_agent_task_assistant.Common.{
  ℕ, Text, String, codes, text_eq, strip, contains, starts_with, Bool, true, false, not, ◌&&◌, ◌||◌,
  Option, none, some, List, [], ◌∷◌, map, keep_if, any, nat_eq, leb, if◌then◌else◌,
}

abbrev pub is_member : Text → List Text → Bool
is_member t texts = any (λ u. text_eq u t) texts

unfoldable pub forbidden_keywords : List Text
forbidden_keywords = map codes (
    "INSERT" ∷ "UPDATE" ∷ "DELETE" ∷ "DROP" ∷ "ALTER" ∷ "CREATE" ∷ "REPLACE" ∷ "TRUNCATE" ∷ "ATTACH"
    ∷ "DETACH" ∷ "PRAGMA" ∷ "VACUUM" ∷ "GRANT" ∷ "REVOKE" ∷ "EXEC" ∷ "EXECUTE" ∷ "LOAD"
    ∷ "EXTENSION" ∷ "REINDEX" ∷ [])

unfoldable pub forbidden_functions : List Text
forbidden_functions =
    map codes ("load_extension" ∷ "randomblob" ∷ "zeroblob" ∷ "writefile" ∷ "readfile" ∷ [])

unfoldable pub table_columns : List (Text × List Text)
table_columns =
    (codes "employees", map codes ("id" ∷ "name" ∷ "department" ∷ "salary" ∷ "hire_date" ∷ []))
    ∷ (codes "orders", map codes ("id" ∷ "employee_id" ∷ "amount" ∷ "order_date" ∷ "status" ∷ []))
    ∷ []

pub data SqlError : Type 0 where
  empty_statement several_statements unparsable pragma_used : SqlError
  not_select : Option Text → SqlError
  forbidden_words : List Text → SqlError
  dangerous_function table_denied : Text → SqlError
  column_denied : Option Text → Text → SqlError
  unlisted_columns : Text → List Text → SqlError

-- `s.rstrip(";")`
unfoldable pub without_semicolons : Text → Text
without_semicolons [] = []
without_semicolons (c ∷ s) =
    let rest = without_semicolons s in if nat_eq c 59 && text_eq rest [] then [] else c ∷ rest

unfoldable pub stripped : Text → Text
stripped sql = strip (without_semicolons (strip sql))

abbrev pub is_word_char : ℕ → Bool
is_word_char c = (leb 65 c && leb c 90) || (leb 97 c && leb c 122) || nat_eq c 95

abbrev pub add_word : Text → List Text → List Text
add_word [] words = words
add_word (c ∷ word) words = (c ∷ word) ∷ words

abbrev pub with_char : ℕ → Text × List Text → Text × List Text
with_char c (word, words) = if is_word_char c then (c ∷ word, words) else ([], add_word word words)

-- the word that a text begins with, and those behind it
unfoldable pub split_words : Text → Text × List Text
split_words [] = ([], [])
split_words (c ∷ s) = with_char c (split_words s)

-- `re.findall(r"[A-Za-z_]+", s)`
unfoldable pub words_of : Text → List Text
words_of s = let (word, words) = split_words s in add_word word words

abbrev pub reads : Text → Bool
reads lowered = starts_with lowered (codes "select") || starts_with lowered (codes "with")

abbrev pub is_nonempty : List Text → Bool
is_nonempty [] = false
is_nonempty (w ∷ words) = true

module _ (upper : Text → Text) where
  -- a type that sqlparse reports, which is neither SELECT nor UNKNOWN
  abbrev pub other_type : Option Text → Bool
  other_type none = false
  other_type (some []) = false
  other_type (some (c ∷ t)) =
      not (is_member (upper (c ∷ t)) (codes "SELECT" ∷ codes "UNKNOWN" ∷ []))

  unfoldable pub forbidden_in : Text → List Text
  forbidden_in sql = keep_if (λ w. is_member w forbidden_keywords) (words_of (upper sql))

module _ (lower upper : Text → Text) where
  -- `_validate`: `none` lets the statement pass
  unfoldable pub validate : Bool → Option Text → Text → Option SqlError
  validate allow_write stmt_type sql =
      let s = stripped sql in
      if text_eq s []
      then some empty_statement
      else if contains (codes ";") s
      then some several_statements
      else if other_type upper stmt_type && not allow_write
      then some (not_select stmt_type)
      else if not allow_write && not (reads (lower s))
      then some (not_select none)
      else if is_nonempty (forbidden_in upper s) && not allow_write
      then some (forbidden_words (forbidden_in upper s))
      else none

pub record TableRef : Type 0 where
  pub name : Text
  pub alias_or_name : Text

-- a column; without a qualifier its table is empty
pub record ColumnRef : Type 0 where
  pub name : Text
  pub table : Text

-- a function: the text of its `this`, which is empty where there is none, and its `sql_name`
pub record FunctionRef : Type 0 where
  pub this : Text
  pub sql_name : Text

-- what the checks look up in a tree of sqlglot
pub record Ast : Type 0 where
  pub functions : List FunctionRef
  pub pragma : Bool
  pub ctes : List Text
  pub tables : List TableRef
  pub columns : List ColumnRef
  pub star : Bool

pub data Parsed : Type 0 where
  no_parser fails : Parsed
  parses : Ast → Parsed

-- `this or sql_name`
abbrev pub raw_name : FunctionRef → Text
raw_name f = if text_eq f.this [] then f.sql_name else f.this

unfoldable pub allowed_columns : List (Text × List Text) → Text → Option (List Text)
allowed_columns [] name = none
allowed_columns ((t, columns) ∷ tables) name =
    let rest = allowed_columns tables name in if text_eq t name then some columns else rest

abbrev pub columns_of : Option (List Text) → List Text
columns_of none = []
columns_of (some columns) = columns

-- `col_name in _TABLE_COLUMNS.get(table, frozenset())`
unfoldable pub allows : Text → Text → Bool
allows table column = is_member column (columns_of (allowed_columns table_columns table))

abbrev pub Aliases : Type 0
Aliases = List (Text × Text)

-- `alias_map[alias] = name`
unfoldable pub set_alias : Text → Text → Aliases → Aliases
set_alias alias name [] = (alias, name) ∷ []
set_alias alias name ((a, n) ∷ aliases) =
    let rest = set_alias alias name aliases in
    if text_eq a alias then (a, name) ∷ aliases else (a, n) ∷ rest

unfoldable pub real_name : Aliases → Text → Text
real_name [] alias = alias
real_name ((a, n) ∷ aliases) alias =
    let rest = real_name aliases alias in if text_eq a alias then n else rest

abbrev pub is_known : Option (List Text) → Bool
is_known none = false
is_known (some columns) = true

pub data Resolved : Type 0 where
  denied : Text → Resolved
  resolved : Aliases → Resolved

abbrev pub or_else : Option SqlError → Option SqlError → Option SqlError
or_else none rest = rest
or_else (some e) rest = some e

-- the columns of a table that are not listed
module _ (actual : Text → List Text) where
  unfoldable pub missing_allowed_columns : Text → List Text
  missing_allowed_columns table = keep_if (λ c. not (allows table c)) (actual table)

  abbrev unlisted : Text → List Text → Option SqlError → Option SqlError
  unlisted table [] rest = rest
  unlisted table (c ∷ missing) rest = some (unlisted_columns table (c ∷ missing))

  -- `SELECT *`, with the tables that were found complete before
  unfoldable pub check_star : List Text → Aliases → Option SqlError
  check_star verified [] = none
  check_star verified ((a, table) ∷ aliases) =
      let rest = check_star verified aliases in
      if is_member table verified then rest else unlisted table (missing_allowed_columns table) rest

module _ (lower : Text → Text) where
  unfoldable pub check_functions : List FunctionRef → Option SqlError
  check_functions [] = none
  check_functions (f ∷ functions) =
      let rest = check_functions functions in
      if is_member (lower (raw_name f)) forbidden_functions
      then some (dangerous_function (lower (raw_name f)))
      else rest

  unfoldable pub resolve_tables : List Text → List TableRef → Aliases → Resolved
  resolve_tables ctes [] aliases = resolved aliases
  resolve_tables ctes (t ∷ tables) aliases =
      let skipped = resolve_tables ctes tables aliases in
      let added =
        resolve_tables ctes tables (set_alias (lower t.alias_or_name) (lower t.name) aliases) in
      if is_member (lower t.name) ctes
      then skipped
      else if not (is_known (allowed_columns table_columns (lower t.name)))
      then denied t.name
      else added

  unfoldable pub check_column : Aliases → ColumnRef → Option SqlError
  check_column aliases c =
      if text_eq c.table []
      then (if any (λ a. allows a.1 (lower c.name)) aliases
          then none
          else some (column_denied none c.name))
      else (if allows (real_name aliases (lower c.table)) (lower c.name)
          then none
          else some (column_denied (some (real_name aliases (lower c.table))) c.name))

  unfoldable pub check_columns : Aliases → List ColumnRef → Option SqlError
  check_columns aliases [] = none
  check_columns aliases (c ∷ columns) =
      or_else (check_column aliases c) (check_columns aliases columns)

  module _ (actual : Text → List Text) where
    abbrev pub check_resolved : List Text → Ast → Resolved → Option SqlError
    check_resolved verified ast (denied name) = some (table_denied name)
    check_resolved verified ast (resolved aliases) =
        or_else (check_columns aliases ast.columns)
          (if ast.star then check_star actual verified aliases else none)

    abbrev pub check_ast : List Text → Ast → Option SqlError
    check_ast verified ast = or_else (check_functions ast.functions) (
        if ast.pragma
        then some pragma_used
        else check_resolved verified ast (resolve_tables (map lower ast.ctes) ast.tables []))

    -- `_validate_ast`
    unfoldable pub validate_ast : List Text → Parsed → Option SqlError
    validate_ast verified no_parser = none
    validate_ast verified fails = some unparsable
    validate_ast verified (parses ast) = check_ast verified ast
