-- ===== src/Tools/Executor/Input.antt =====
-- How `_to_tool_input` and `_validate` of app/tools/executor.py read the parameters of a call.
use ai_agent_task_assistant.Common.{
  String, ◌≡◌, ◌↔◌, true, Option, none, some, List, [], ◌∷◌, All, keep_if, Dict, lookup, insert,
  lookup-insert, Value, ◌==◌, eq_iff, arith, if◌then◌else◌, not, ap,
}
use ai_agent_task_assistant.Tools.Schema.{ToolSchema}
use ai_agent_task_assistant.Tools.Executor.{Params}
use ai_agent_task_assistant.Tools.Executor.Pipeline.{
  is_reserved, merge_named, missing, is_in, available, list_or_nil,
}

-- a dict holds a key once
abbrev pub IsDict {ℓ} : {V : Type ℓ} → Dict V → Type ℓ
IsDict [] = Unit
IsDict ((k, v) ∷ d) = (lookup k d ≡ none) × IsDict d

abbrev pub or_else : Option Value → Option Value → Option Value
or_else none o = o
or_else (some v) o = some v

is_reserved_congr : (j k : String) → (j == k) ≡ true → is_reserved j ≡ is_reserved k
is_reserved_congr j k h = ap is_reserved ((eq_iff j k).0 h)

-- A named parameter reaches the tool under its name and wins over a nested one; `query` and
-- `parameters` are not taken for parameters.
pub lookup-merge_named :
    (params parameters : Dict Value) (k : String)
    → IsDict params
    → lookup k (merge_named params parameters) ≡ (
        if is_reserved k
        then lookup k parameters
        else or_else (lookup k params) (lookup k parameters))
unfolding merge_named lookup
lookup-merge_named [] parameters k h = ground arith
lookup-merge_named ((j, v) ∷ params) parameters k (fresh, h) = ground (
  arith,
  eq_iff j k,
  is_reserved_congr j k,
  lookup-insert j k v parameters,
  lookup-merge_named params parameters k h,
  lookup-merge_named params (insert j v parameters) k h,
)

missing_from :
    (given required : List String)
    → (keep_if (λ r. not (is_in r given)) required ≡ []) ↔ All (λ r. is_in r given ≡ true) required
missing_from given [] = ground arith
missing_from given (r ∷ required) = ground (arith, missing_from given required)

-- A call passes the check of its parameters exactly when every required name is among those given.
pub missing-eq-nil_iff :
    (schema : ToolSchema) (params : Params)
    → (missing schema params ≡ [])
      ↔ All (λ r. is_in r (available params) ≡ true) (list_or_nil schema.input_schema)
unfolding missing
missing-eq-nil_iff schema params = missing_from (available params) (list_or_nil schema.input_schema)
