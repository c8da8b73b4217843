-- ===== src/Tasks/Api/Deciding.antt =====
-- What the decisions by the endpoints of app/api/v1/tasks.py leave.
use ai_agent_task_assistant.Common.{
  String, ◌≡◌, refl, Bool, true, false, not, ◌||◌, Option, some, first_with, Dict, Value, ◌==◌,
  eq_refl, arith, if◌then◌else◌,
}
use ai_agent_task_assistant.Tools.Security.{ToolContext}
use ai_agent_task_assistant.Queue.{InMemoryTaskQueue, full, enqueue}
use ai_agent_task_assistant.Queue.Message.{TaskMessage}
use ai_agent_task_assistant.Tasks.Model.{
  executing, awaiting_approval, ApprovalStatus, approved, rejected, is_pending, ApprovalRequest,
  Task,
}
use ai_agent_task_assistant.Tasks.Repository.{get, update, same_status}
use ai_agent_task_assistant.Tasks.Service.{status_response}
use ai_agent_task_assistant.Tasks.Service.Approval.{
  decided, resolve_approval, get_pending_approvals,
}
use ai_agent_task_assistant.Tasks.Service.Approval.Decided.{settled_task, resolve_taken}
use ai_agent_task_assistant.Tasks.Api.{
  Server, Clock, queue_unavailable, approval_not_found, returned, raised, can_access_task, send,
  message_for,
}
use ai_agent_task_assistant.Tasks.Api.Approvals.{decision, only_if, decide_approval}
use ai_agent_task_assistant.Tasks.Api.Access.{accessible_task-granted}
use ai_agent_task_assistant.Tasks.Api.Queueing.{get-moved, send-taken, update_task_status-there}
use ai_agent_task_assistant.Tasks.Api.Waiting.{
  IsWaiting, listed, can, get-decided, none_listed, decide_approval-none, respond_status-there,
}

abbrev status_of : Bool → ApprovalStatus
status_of approve = if approve then approved else rejected

status_of-decided : (approve : Bool) → is_pending (status_of approve) ≡ false
status_of-decided true = refl
status_of-decided false = refl

module _ (clock : Clock) (task_id : String) (user : ToolContext) (s : Server) (task : Task)
    (r : ApprovalRequest) (approve : Bool) (remark : Option String)
    (args : Option (Dict Value)) where
  -- the task with its decision
  abbrev pub answered_task : Task
  answered_task =
      settled_task s.repo clock.first task_id r.id (status_of approve) remark (only_if approve args)
        task r

  -- the decision stored, and nothing else done
  abbrev pub answered : Server
  answered = record s { repo = update s.repo answered_task }

  abbrev pub decision_message : TaskMessage
  decision_message =
      message_for clock user task_id task "approval_resume" (some (decision approve remark args))

  abbrev pub executing_task : Task
  executing_task = record answered_task { status = executing; updated_at = clock.second }

  -- what a decision leaves where the queue takes its message
  abbrev pub proceeding : InMemoryTaskQueue → Server
  proceeding q = record answered { repo = update answered.repo executing_task; queue = q }

  module _ (h : IsWaiting task_id user s task r) where
    get-answered : get answered.repo task_id ≡ some answered_task
    get-answered =
        get-decided task_id user s task r h clock.first (status_of approve) remark
          (only_if approve args)

    resolve_answered :
        resolve_approval s.repo clock.first task_id r.id
          (status_of approve)
          remark
          (only_if approve args)
        ≡ (
          some (decided clock.first (status_of approve) remark (only_if approve args) r),
          answered.repo,
        )
    resolve_answered =
        resolve_taken s.repo clock.first task_id r.id (status_of approve) remark
          (only_if approve args) task r
          (can task_id user s task r h clock.first (status_of approve) remark
            (only_if approve args))

    may_decide : (not approve || same_status task.status awaiting_approval) ≡ true
    may_decide = rw h.waits (ground arith)

    listed_first : first_with (λ a. a.id == r.id) (get_pending_approvals s.repo task_id) ≡ some r
    listed_first = rw (listed task_id user s task r h, eq_refl r.id) refl

    pub decide_approval-runs :
        (q : InMemoryTaskQueue)
        → enqueue s.queue decision_message ≡ some q
        → (decide_approval clock task_id r.id approve remark args user s
            ≡ (returned (status_response executing_task), proceeding q))
          × (get (proceeding q).repo task_id ≡ some executing_task)
    unfolding decide_approval
    decide_approval-runs q taken =
        let after : get (proceeding q).repo task_id ≡ some executing_task =
          get-moved answered.repo task_id answered_task executing_task
            (h.keyed.at task_id task h.there) refl in
        (
          rw
              (
                accessible_task-granted user task_id s task h.there h.access,
                listed_first,
                may_decide,
                resolve_answered,
                send-taken decision_message answered q taken,
                update_task_status-there answered.repo clock task_id executing answered_task
                    get-answered,
                respond_status-there task_id (proceeding q) executing_task after,
              )
              refl,
          after,
        )

    -- The decision on the request of a waiting task, where the queue is full, answers 503 with
    -- the decision stored and the status left at awaiting_approval; every later decision on
    -- the task by the same caller is then refused and changes nothing.
    pub decide_approval-full :
        (clock' : Clock) (approval_id : String) (approve' : Bool) (remark' : Option String)
        (args' : Option (Dict Value))
        → full s.queue ≡ true
        → (decide_approval clock task_id r.id approve remark args user s
            ≡ (raised queue_unavailable, answered))
          × (get answered.repo task_id ≡ some answered_task)
          × (answered_task.status ≡ awaiting_approval)
          × (decide_approval clock' task_id approval_id approve' remark' args' user answered
              ≡ (raised (approval_not_found task_id approval_id), answered))
    unfolding can_access_task
    decide_approval-full clock' approval_id approve' remark' args' is_full = (
      unfold decide_approval send enqueue in
          rw
            (
              accessible_task-granted user task_id s task h.there h.access,
              listed_first,
              may_decide,
              resolve_answered,
              is_full,
            )
            refl,
      get-answered,
      h.waits,
      decide_approval-none clock' task_id approval_id approve' remark' args' user answered
          answered_task get-answered h.access
          (none_listed task_id user s task r h clock.first (status_of approve) remark
            (only_if approve args) (status_of-decided approve) answered.repo answered_task
            get-answered refl refl),
    )

    -- A decision is final: after one that got through, every further decision on the task by the same
    -- caller is refused and changes nothing.
    pub decide_approval-final :
        (q : InMemoryTaskQueue) (clock' : Clock) (approval_id : String) (approve' : Bool)
        (remark' : Option String) (args' : Option (Dict Value))
        → enqueue s.queue decision_message ≡ some q
        → decide_approval clock' task_id approval_id approve' remark' args' user (proceeding q)
          ≡ (raised (approval_not_found task_id approval_id), proceeding q)
    unfolding can_access_task
    decide_approval-final q clock' approval_id approve' remark' args' taken =
        let after = (decide_approval-runs q taken).1 in
        decide_approval-none clock' task_id approval_id approve' remark' args' user (proceeding q)
          executing_task after h.access
          (none_listed task_id user s task r h clock.first (status_of approve) remark
            (only_if approve args) (status_of-decided approve) (proceeding q).repo executing_task
            after refl refl)
