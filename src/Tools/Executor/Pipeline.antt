-- ===== src/Tools/Executor/Pipeline.antt =====
-- app/tools/executor.py: `execute`, its steps in order. A call that stops raises, or returns an
-- output without a run of the tool.
use ai_agent_task_assistant.Common.{
  ℕ, zero, suc, String, Text, Bool, true, false, not, Option, none, some, List, [], ◌∷◌, Dict,
  lookup, insert, Value, dict_of, text_of, any, keep_if, ◌==◌, if◌then◌else◌,
}
use ai_agent_task_assistant.Tools.Schema.{ToolSchema, is_act}
use ai_agent_task_assistant.Tools.Permissions.{granted_allows}
use ai_agent_task_assistant.Tools.Security.{is_role_allowed}
use ai_agent_task_assistant.Tools.Executor.{
  Tool, resolve_legacy_category, ToolInput, Params, plain, prepared, not_registered, not_available,
  no_approval_gate, call_cancelled, not_approved, ToolOutput, failure, ToolExecutionContext,
  Decision, approved, refused, World, execute_with_policy,
}

pub data Denial : Type 0 where
  role_denied permissions_missing : Denial

pub data Ended : Type 0 where
  returned : ToolOutput → Ended
  missing_parameters : List String → Ended  -- ValidationError
  denied : Denial → Ended  -- PermissionDeniedError
  index_error type_error : Ended

-- How a call ended, how often it ran the tool, and whether it wrote an audit record.
pub record Report : Type 0 where
  pub ended : Ended
  pub calls : ℕ
  pub delays : List ℕ
  pub audited : Bool

pub data Step (A : Type 0) : Type 0 where
  go : A → Step A
  stop : Ended → Step A

infixl 5 ◌>>=◌ ◌>>◌
abbrev ◌>>=◌ : {A B : Type 0} → Step A → (A → Step B) → Step B
go a >>= f = f a
stop e >>= f = stop e

abbrev ◌>>◌ : {A B : Type 0} → Step A → Step B → Step B
m >> k = m >>= λ _. k

abbrev unless : Bool → Ended → Step (Unit {0})
unless true e = go tt
unless false e = stop e

abbrev found : Option Tool → String → Step Tool
found none name = stop (returned (failure (not_registered name)))
found (some tool) name = go tool

abbrev pub list_or_nil : Option (List String) → List String
list_or_nil none = []
list_or_nil (some l) = l

keys : Dict Value → List String
keys [] = []
keys ((k, _) ∷ d) = k ∷ keys d

-- the names that count as given
unfoldable pub available : Params → List String
unfolding keys
available (plain params) = keys params
available (prepared input) =
    if input.query == "" then keys input.parameters else "query" ∷ keys input.parameters

abbrev pub is_in : String → List String → Bool
is_in k names = any (λ n. n == k) names

-- `[r for r in required if r not in available]`
unfoldable pub missing : ToolSchema → Params → List String
unfolding available
missing schema params =
    keep_if (λ r. not (is_in r (available params))) (list_or_nil schema.input_schema)

abbrev none_missing : List String → Step (Unit {0})
none_missing [] = go tt
none_missing (r ∷ rs) = stop (missing_parameters (r ∷ rs))

unfoldable pub is_reserved : String → Bool
is_reserved k = is_in k ("query" ∷ "parameters" ∷ [])

-- the loop that merges the named parameters into the nested ones
unfoldable pub merge_named : Dict Value → Dict Value → Dict Value
merge_named [] parameters = parameters
merge_named ((k, v) ∷ params) parameters =
    merge_named params (if is_reserved k then parameters else insert k v parameters)

-- `render` is Python's `str` on a value that is no text
abbrev with_nested : (Value → String) → Dict Value → Option (Dict Value) → Step ToolInput
with_nested render params none = stop type_error
with_nested render params (some parameters) = go (record {
  query = text_of render "" (lookup "query" params);
  parameters = merge_named params parameters;
})

unfoldable pub to_tool_input : (Value → String) → Params → Step ToolInput
to_tool_input render (prepared input) = go input
to_tool_input render (plain params) =
    with_nested render params (dict_of (lookup "parameters" params))

abbrev by_grants : Option Bool → Step (Unit {0})
by_grants none = stop index_error
by_grants (some true) = go tt
by_grants (some false) = stop (denied permissions_missing)

abbrev if_limited : Option (List Text) → Option Bool → Option Bool
if_limited none answer = some true
if_limited (some _) answer = answer

unfoldable pub check_permission : Tool → ToolExecutionContext → Step (Unit {0})
check_permission tool ctx = do
  unless (is_role_allowed ctx.tool_context.role (resolve_legacy_category tool)) (denied role_denied)
  by_grants (
      if_limited ctx.granted_permissions
        (granted_allows tool.schema.permissions ctx.granted_permissions))

unfoldable pub ask_approval : Option Decision → ToolSchema → Step (Unit {0})
ask_approval none schema =
    if is_act schema.category then stop (returned (failure no_approval_gate)) else go tt
ask_approval (some approved) schema = go tt
ask_approval (some (refused reason)) schema = stop (returned (failure (not_approved reason)))

abbrev or_default : Option ℕ → Option ℕ → ℕ → ℕ
or_default (some t) declared default = t
or_default none none default = default
or_default none (some zero) default = default
or_default none (some (suc t)) default = suc t

module _ (render : Value → String) (registry : Dict Tool) where
  -- everything before the tool runs
  unfoldable pub admit :
      String → Params → ToolExecutionContext → Bool → World → Step (Tool × ToolInput)
  admit name params ctx request_approval world = do
    tool ← found (lookup name registry) name
    unless tool.schema.available (returned (failure (not_available name)))
    none_missing (missing tool.schema params)
    input ← to_tool_input render params
    check_permission tool ctx
    (if request_approval then ask_approval world.gate tool.schema else go tt)
    unless (not (world.cancelled 0)) (returned (failure call_cancelled))
    go (tool, input)

module _ (render : Value → String) (registry : Dict Tool) (max_retries default_timeout : ℕ) where
  abbrev run_admitted : Option ℕ → World → Step (Tool × ToolInput) → Report
  run_admitted limit world (stop e) = record { ended = e; calls = 0; delays = []; audited = false }
  run_admitted limit world (go (tool, input)) =
      let schema = tool.schema in
      let time = or_default limit schema.timeout default_timeout in
      let t = execute_with_policy max_retries schema time world input in
      record { ended = returned t.output; calls = t.calls; delays = t.delays; audited = true }

  unfoldable pub execute : String → Params → ToolExecutionContext → Bool → Option ℕ → World → Report
  execute name params ctx request_approval limit world =
      run_admitted limit world (admit render registry name params ctx request_approval world)
