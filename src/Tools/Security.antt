-- ===== src/Tools/Security.antt =====
-- app/tools/security.py: the identity of a caller and the matrix of roles and tool categories.
pub mod Matrix
pub mod Context
use ai_agent_task_assistant.Common.{
  String, Text, codes, text_eq, lower, Bool, true, false, Option, none, some, List, [], ◌∷◌, Dict,
  lookup, ◌==◌, Value, str, fields, fields_of, dict_of, text_of, if◌then◌else◌,
}

abbrev pub category_system : String
category_system = "system"

abbrev pub category_sql : String
category_sql = "sql"

abbrev pub category_file : String
category_file = "file"

abbrev pub category_network : String
category_network = "network"

abbrev pub role_guest : String
role_guest = "guest"

abbrev pub role_user : String
role_user = "user"

abbrev pub role_admin : String
role_admin = "admin"

-- the members of `_VALID_ROLES`, which are the keys of `ROLE_PERMISSIONS`
pub data Role : Type 0 where
  guest user admin : Role

abbrev pub role_name : Role → Text
role_name guest = codes role_guest
role_name user = codes role_user
role_name admin = codes role_admin

-- `role in _VALID_ROLES`
unfoldable pub valid_role : Text → Option Role
unfolding text_eq
valid_role role =
    if text_eq role (codes role_guest)
    then some guest
    else if text_eq role (codes role_user)
    then some user
    else if text_eq role (codes role_admin)
    then some admin
    else none

abbrev pub role_permissions : Role → Dict Bool
role_permissions guest =
    (category_system, true)
    ∷ (category_sql, false)
    ∷ (category_file, false)
    ∷ (category_network, false)
    ∷ []
role_permissions user =
    (category_system, true)
    ∷ (category_sql, true)
    ∷ (category_file, true)
    ∷ (category_network, true)
    ∷ []
role_permissions admin =
    (category_system, true)
    ∷ (category_sql, true)
    ∷ (category_file, true)
    ∷ (category_network, true)
    ∷ []

abbrev or_false : Option Bool → Bool
or_false none = false
or_false (some b) = b

-- `role.lower() if role else ROLE_GUEST`
unfoldable pub effective_role : String → Text
effective_role role = if role == "" then codes role_guest else lower (codes role)

unfoldable pub is_role_allowed : String → String → Bool
unfolding lookup
is_role_allowed role category = elim (valid_role (effective_role role)) [
  | none ↦ false
  | some r ↦ or_false (lookup category (role_permissions r))
]

pub record ToolContext : Type 0 where
  pub user_id : String
  pub tenant_id : String
  pub role : String
  pub trace_id : String
  pub extra : Dict Value

-- the defaults of the fields
abbrev pub anonymous : ToolContext
anonymous = record {
  user_id = "anonymous";
  tenant_id = "default";
  role = role_guest;
  trace_id = "";
  extra = [];
}

abbrev with_extra : (Value → String) → Dict Value → Option (Dict Value) → Option ToolContext
with_extra render given none = none
with_extra render given (some extra) = some (record {
  user_id = text_of render "anonymous" (lookup "user_id" given);
  tenant_id = text_of render "default" (lookup "tenant_id" given);
  role = text_of render role_guest (lookup "role" given);
  trace_id = text_of render "" (lookup "trace_id" given);
  extra = extra;
})

-- `none` is an `extra` of which no dict can be made
unfoldable pub from_dict : (Value → String) → Option (Dict Value) → Option ToolContext
unfolding lookup
from_dict render none = some anonymous
from_dict render (some []) = some anonymous
from_dict render (some (entry ∷ entries)) =
    with_extra render (entry ∷ entries) (dict_of (lookup "extra" (entry ∷ entries)))

unfoldable pub to_dict : ToolContext → Dict Value
to_dict c =
    ("user_id", str c.user_id)
    ∷ ("tenant_id", str c.tenant_id)
    ∷ ("role", str c.role)
    ∷ ("trace_id", str c.trace_id)
    ∷ ("extra", fields (fields_of c.extra))
    ∷ []
