-- ===== src/Tools/Security/Context.antt =====
-- A context of app/tools/security.py goes through its dict unchanged.
use ai_agent_task_assistant.Common.{String, Value, field_list-fields_of, ◌≡◌, refl, some}
use ai_agent_task_assistant.Tools.Security.{ToolContext, from_dict, to_dict}

-- The context that is read from the dict of a context is that context, however values that are no
-- texts are rendered.
pub from_dict-to_dict :
    (render : Value → String) (c : ToolContext) → from_dict render (some (to_dict c)) ≡ some c
unfolding from_dict to_dict
from_dict-to_dict render c = rw field_list-fields_of refl
