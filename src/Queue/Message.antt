-- ===== src/Queue/Message.antt =====
-- app/queue/base.py: the message by which a task goes from the endpoints to the worker. The time of
-- the enqueueing is in milliseconds.
use ai_agent_task_assistant.Common.{
  ℕ, String, ◌≡◌, refl, Option, none, some, [], ◌∷◌, Dict, lookup, Value, null, str, number, fields,
  field_list, fields_of, field_list-fields_of,
}
use ai_agent_task_assistant.Tools.Security
use ai_agent_task_assistant.Tools.Security.{ToolContext, role_admin, anonymous}
use ai_agent_task_assistant.Tools.Security.Context

pub record TaskMessage : Type 0 where
  pub task_id : String
  pub goal : String
  pub context : Option String
  pub tool_context : Option (Dict Value)
  pub action : String
  pub payload : Option (Dict Value)
  pub enqueued_at : ℕ

-- `None` is `null`
abbrev or_null : {A : Type 0} → (A → Value) → Option A → Value
or_null f none = null
or_null f (some x) = f x

abbrev dict_value : Dict Value → Value
dict_value d = fields (fields_of d)

unfoldable pub to_dict : TaskMessage → Dict Value
to_dict m =
    ("task_id", str m.task_id)
    ∷ ("goal", str m.goal)
    ∷ ("context", or_null str m.context)
    ∷ ("tool_context", or_null dict_value m.tool_context)
    ∷ ("action", str m.action)
    ∷ ("payload", or_null dict_value m.payload)
    ∷ ("enqueued_at", number m.enqueued_at)
    ∷ []

infixl 5 ◌>>=◌
abbrev ◌>>=◌ : {A B : Type 0} → Option A → (A → Option B) → Option B
none >>= f = none
some a >>= f = f a

-- `data.get(k, default)` as a field of its type: a value of another type, which Python would keep,
-- is outside of the model and gives `none`.
abbrev text_or : Option String → Option Value → Option String
text_or default none = default
text_or default (some (str s)) = some s
text_or default (some _) = none

abbrev optional_text : Option Value → Option (Option String)
optional_text none = some none
optional_text (some null) = some none
optional_text (some (str s)) = some (some s)
optional_text (some _) = none

abbrev optional_dict : Option Value → Option (Option (Dict Value))
optional_dict none = some none
optional_dict (some null) = some none
optional_dict (some (fields fs)) = some (some (field_list fs))
optional_dict (some _) = none

abbrev number_or : ℕ → Option Value → Option ℕ
number_or default none = some default
number_or default (some (number n)) = some n
number_or default (some _) = none

unfoldable pub from_dict : Dict Value → Option TaskMessage
unfolding lookup
from_dict given = do
  task_id ← text_or none (lookup "task_id" given)
  goal ← text_or (some "") (lookup "goal" given)
  context ← optional_text (lookup "context" given)
  tool_context ← optional_dict (lookup "tool_context" given)
  action ← text_or (some "execute") (lookup "action" given)
  payload ← optional_dict (lookup "payload" given)
  enqueued_at ← number_or 0 (lookup "enqueued_at" given)
  some (record {
    task_id = task_id;
    goal = goal;
    context = context;
    tool_context = tool_context;
    action = action;
    payload = payload;
    enqueued_at = enqueued_at;
  })

-- an internal call, where there is no context
abbrev internal : ToolContext
internal = record anonymous { role = role_admin }

unfoldable pub to_tool_context : (Value → String) → TaskMessage → Option ToolContext
to_tool_context render m = elim m.tool_context [
  | none ↦ some internal
  | some [] ↦ some internal
  | some (entry ∷ entries) ↦ Security.from_dict render (some (entry ∷ entries))
]

optional_text-or_null : (o : Option String) → optional_text (some (or_null str o)) ≡ some o
optional_text-or_null none = refl
optional_text-or_null (some s) = refl

optional_dict-or_null :
    (o : Option (Dict Value)) → optional_dict (some (or_null dict_value o)) ≡ some o
optional_dict-or_null none = refl
optional_dict-or_null (some d) = rw field_list-fields_of refl

-- A message that goes through its dict comes out unchanged.
pub from_dict-to_dict : (m : TaskMessage) → from_dict (to_dict m) ≡ some m
unfolding from_dict to_dict
from_dict-to_dict m =
    rw
      (
        optional_text-or_null m.context,
        optional_dict-or_null m.tool_context,
        optional_dict-or_null m.payload,
      )
      refl

-- The worker acts as the caller of the endpoint: the context that a message gives back is the one
-- whose dict it carries.
pub to_tool_context-to_dict :
    (render : Value → String) (m : TaskMessage) (c : ToolContext)
    → m.tool_context ≡ some (Security.to_dict c)
    → to_tool_context render m ≡ some c
unfolding to_tool_context Security.to_dict Security.from_dict
to_tool_context-to_dict render m c e = rw e (Context.from_dict-to_dict render c)
