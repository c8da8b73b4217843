-- ===== src/Tests/Endpoints.antt =====
-- The endpoints of one task (app/api/v1/tasks.py) on small inputs.
use ai_agent_task_assistant.Common.{◌≡◌, inl, refl, true, none, some, List, [], ◌∷◌, lookup}
use ai_agent_task_assistant.Tools.Security.{ToolContext, role_user}
use ai_agent_task_assistant.Queue.{InMemoryTaskQueue, full}
use ai_agent_task_assistant.Queue.Message.{TaskMessage}
use ai_agent_task_assistant.Tasks.Model.{planning, awaiting_approval, paused, restartable, Task}
use ai_agent_task_assistant.Tasks.Control.{empty}
use ai_agent_task_assistant.Tasks.Repository.{get}
use ai_agent_task_assistant.Tasks.Api.{
  Server, Clock, task_state, task_forbidden, queue_unavailable, approval_not_found, returned,
  raised, can_access_task, allowed_statuses, message_for,
}
use ai_agent_task_assistant.Tasks.Api.Handlers.{
  to_task_response, resumable, resume_task, retry_task, cancel_task,
}
use ai_agent_task_assistant.Tasks.Api.Approvals.{decide_approval}
use ai_agent_task_assistant.Tasks.Api.Access.{retries, handle, is_foreign, handle-refused}
use ai_agent_task_assistant.Tasks.Api.Restarting.{
  IsRestarted, IsElsewhere, IsUnasked, IsRetry, retry_task-restarts, retry_task-loses,
}
use ai_agent_task_assistant.Tasks.Api.Queueing.{IsOpen}
use ai_agent_task_assistant.Tasks.Api.Waiting.{IsWaiting}
use ai_agent_task_assistant.Tasks.Api.Cancelling.{stranded_task, cancel_task-strands}
use ai_agent_task_assistant.Tasks.Api.Deciding.{
  answered_task, answered, decision_message, decide_approval-full,
}
use ai_agent_task_assistant.Tests.Store.{request, waiting_task, only, only-IsKeyed}

abbrev ann : ToolContext
ann = record { user_id = "ann"; tenant_id = "acme"; role = role_user; trace_id = ""; extra = [] }

abbrev bob : ToolContext
bob = record ann { user_id = "bob" }

abbrev clock : Clock
clock = record { first = "2026-01-02"; second = "2026-01-03"; sent = 1700 }

abbrev paused_task : Task
paused_task = record waiting_task {
  status = paused;
  pending_approval = none;
  approval_history = [];
}

abbrev holding : Task → List TaskMessage → Server
holding task messages = record {
  repo = only task;
  control = empty;
  queue = record { maxsize = 1; messages = messages };
  ready = true;
}

abbrev resume_message : TaskMessage
resume_message = message_for clock ann "t1" paused_task "execute" none

handle-refused_example :
    handle (retries clock none) "t1" bob (holding waiting_task [])
    ≡ (raised (task_forbidden "t1"), holding waiting_task [])
unfolding get lookup can_access_task
handle-refused_example =
    handle-refused (retries clock none) "t1" bob (holding waiting_task []) (task_forbidden "t1")
      refl (is_foreign waiting_task refl refl)

paused-IsOpen :
    (messages : List TaskMessage) → IsOpen clock "t1" ann (holding paused_task messages) paused_task
unfolding get lookup can_access_task
paused-IsOpen messages = (refl, only-IsKeyed paused_task refl, refl, refl)

retry_task-restarts_example :
    let s = holding paused_task [] in
    (t' : Task) × (s' : Server) × (retry_task clock "t1" (some 0) ann s
      ≡ (returned (to_task_response t'), s'))
    × (get s'.repo "t1" ≡ some t')
    × (t'.status ≡ planning)
    × IsRestarted 0 paused_task t'
    × IsElsewhere clock "t1" ann s paused_task (some 0) s'
    × IsUnasked clock "t1" ann s paused_task (some 0) s'
    × ((m : TaskMessage) × (s'.queue.messages ≡ m ∷ []) × IsRetry "t1" ann paused_task (some 0) m)
unfolding full
retry_task-restarts_example =
    retry_task-restarts clock "t1" ann (holding paused_task []) paused_task (some 0)
      (paused-IsOpen []) refl refl refl

retry_task-loses_example :
    let s = holding paused_task (resume_message ∷ []) in
    (t' : Task) × (s' : Server) × (retry_task clock "t1" none ann s
      ≡ (raised queue_unavailable, s'))
    × (get s'.repo "t1" ≡ some t')
    × (t'.status ≡ paused)
    × IsRestarted 0 paused_task t'
    × IsElsewhere clock "t1" ann s paused_task none s'
    × IsUnasked clock "t1" ann s paused_task none s'
    × (s'.queue ≡ s.queue)
unfolding full
retry_task-loses_example =
    retry_task-loses clock "t1" ann (holding paused_task (resume_message ∷ [])) paused_task none
      (paused-IsOpen (resume_message ∷ [])) refl refl refl

waiting-IsWaiting :
    (messages : List TaskMessage)
    → IsWaiting "t1" ann (holding waiting_task messages) waiting_task request
unfolding get lookup can_access_task
waiting-IsWaiting messages = record {
  keyed = only-IsKeyed waiting_task refl;
  there = refl;
  access = refl;
  waits = refl;
  has = refl;
  tracked = (refl, inl (refl, tt));
}

cancel_task-strands_example :
    let s = holding waiting_task [] in
    let s' = (cancel_task clock "t1" ann s).1 in
    let t = stranded_task clock "t1" ann s waiting_task request in
    (get s'.repo "t1" ≡ some t)
    × (t.status ≡ awaiting_approval)
    × (s'.queue ≡ s.queue)
    × (resume_task clock "t1" ann s'
        ≡ (raised (task_state "t1" awaiting_approval (allowed_statuses resumable)), s'))
    × (retry_task clock "t1" none ann s'
        ≡ (raised (task_state "t1" awaiting_approval (allowed_statuses restartable)), s'))
    × (decide_approval clock "t1" "a1" true none none ann s'
        ≡ (raised (approval_not_found "t1" "a1"), s'))
cancel_task-strands_example =
    cancel_task-strands clock "t1" ann (holding waiting_task []) waiting_task request clock none
      "a1" true none none refl (waiting-IsWaiting [])

decide_approval-full_example :
    let s = holding waiting_task (resume_message ∷ []) in
    let s' = answered clock "t1" ann s waiting_task request true none none in
    let t = answered_task clock "t1" ann s waiting_task request true none none in
    (decide_approval clock "t1" "a1" true none none ann s ≡ (raised queue_unavailable, s'))
    × (get s'.repo "t1" ≡ some t)
    × (t.status ≡ awaiting_approval)
    × (decide_approval clock "t1" "a1" true none none ann s'
        ≡ (raised (approval_not_found "t1" "a1"), s'))
unfolding full
decide_approval-full_example =
    decide_approval-full clock "t1" ann (holding waiting_task (resume_message ∷ [])) waiting_task
      request true none none (waiting-IsWaiting (resume_message ∷ [])) clock "a1" true none none
      refl

-- the server on which a decision finds an empty queue, and the queue that it leaves
abbrev calm : Server
calm = holding waiting_task []

abbrev after_decision : InMemoryTaskQueue
after_decision = record {
  maxsize = 1;
  messages = decision_message clock "t1" ann calm waiting_task request true none none ∷ [];
}
