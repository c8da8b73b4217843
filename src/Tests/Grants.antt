-- ===== src/Tests/Grants.antt =====
-- Permissions, roles and messages (app/tools/permissions.py, app/tools/security.py, app/queue/) on
-- small inputs.
use ai_agent_task_assistant.Common.{
  ◌<◌, ◌≤◌, codes, Text, ◌≡◌, ◌≢◌, ◌↔◌, refl, true, Option, none, some, List, [], ◌∷◌, ◌++◌, null,
  arith, text_eq, strip, lower, before, after, starts_with,
}
use ai_agent_task_assistant.Tools.Permissions.{
  match_grant, split_permission, normalized, granted_allows,
}
use ai_agent_task_assistant.Tools.Permissions.Coverage.{
  granted_allows-eq-none_iff, granted_allows-first_permission,
}
use ai_agent_task_assistant.Tools.Security
use ai_agent_task_assistant.Tools.Security.{
  Role, role_name, role_guest, category_sql, anonymous, ToolContext, effective_role,
  is_role_allowed,
}
use ai_agent_task_assistant.Tools.Security.Matrix.{Allows, is_role_allowed_iff}
use ai_agent_task_assistant.Queue.{InMemoryTaskQueue, enqueue}
use ai_agent_task_assistant.Queue.Message.{TaskMessage}
use ai_agent_task_assistant.Queue.Order.{
  put, serve, opening, run, IsWithin, run_in_order, enqueue-eq-none_iff,
}

abbrev read_web : Text
read_web = codes "read:web"

abbrev send_mail : Text
send_mail = codes "send:mail"

abbrev no_grants : Option (List Text)
no_grants = some []

granted_allows-eq-none_iff_example :
    (granted_allows (read_web ∷ []) no_grants ≡ none)
    ↔ ((normalized (read_web ∷ []) ≢ []) × (no_grants ≡ some []))
granted_allows-eq-none_iff_example = granted_allows-eq-none_iff (read_web ∷ []) no_grants

-- Nothing covers the second permission, and the tool is allowed.
granted_allows-first_permission_example :
    granted_allows (read_web ∷ send_mail ∷ []) (some (read_web ∷ codes "read" ∷ [])) ≡ some true
unfolding normalized match_grant split_permission before after starts_with text_eq strip lower
granted_allows-first_permission_example =
    granted_allows-first_permission (read_web ∷ send_mail ∷ []) read_web (send_mail ∷ [])
      (read_web ∷ codes "read" ∷ []) refl (omega arith) (refl, (refl, tt))

is_role_allowed_iff_example :
    (is_role_allowed role_guest category_sql ≡ true)
    ↔ ((r : Role) × (effective_role role_guest ≡ role_name r) × Allows r category_sql)
is_role_allowed_iff_example = is_role_allowed_iff role_guest category_sql

abbrev message : TaskMessage
message = record {
  task_id = "t1";
  goal = "summarise";
  context = none;
  tool_context = some (Security.to_dict anonymous);
  action = "execute";
  payload = some (("retry_from_index", null) ∷ []);
  enqueued_at = 1700;
}

abbrev small_queue : InMemoryTaskQueue
small_queue = record { maxsize = 1; messages = [] }

run_in_order_example :
    let t = run (opening small_queue) (put message ∷ put message ∷ serve ∷ []) in
    (t.delivered ++ t.queue.messages ≡ [] ++ t.accepted) × IsWithin t.queue
run_in_order_example =
    run_in_order small_queue (put message ∷ put message ∷ serve ∷ []) (λ h. omega arith)

enqueue-eq-none_iff_example : (enqueue small_queue message ≡ none) ↔ ((0 < 1) × (1 ≤ 0))
enqueue-eq-none_iff_example = enqueue-eq-none_iff small_queue message
