-- ===== src/Tasks/Api/Cancelling.antt =====
-- What the endpoint `cancel` of app/api/v1/tasks.py leaves of a task that waits for an approval.
use ai_agent_task_assistant.Common.{
  ℕ, String, ◌≡◌, refl, Bool, true, false, Option, none, some, Dict, Value,
}
use ai_agent_task_assistant.Tools.Security.{ToolContext}
use ai_agent_task_assistant.Tasks.Model.{
  restartable, awaiting_approval, rejected, ApprovalRequest, Task,
}
use ai_agent_task_assistant.Tasks.Control.{request_cancel}
use ai_agent_task_assistant.Tasks.Repository.{get, update, same_status}
use ai_agent_task_assistant.Tasks.Service.Approval.Decided.{settled_task}
use ai_agent_task_assistant.Tasks.Api.{
  Server, Clock, task_state, approval_not_found, returned, raised, allowed_statuses,
  can_access_task, accessible_task,
}
use ai_agent_task_assistant.Tasks.Api.Handlers.{
  terminal, resumable, resume_task, cancel_task, retry_task,
}
use ai_agent_task_assistant.Tasks.Api.Approvals.{decide_approval}
use ai_agent_task_assistant.Tasks.Api.Access.{accessible_task-granted, require_ready-open}
use ai_agent_task_assistant.Tasks.Api.Waiting.{
  IsWaiting, resolve_waiting, get-decided, none_listed, decide_approval-none, respond_status-there,
}

module _ (clock : Clock) (task_id : String) (user : ToolContext) (s : Server) (task : Task)
    (r : ApprovalRequest) where
  abbrev cancelled_remark : Option String
  cancelled_remark = some "任务被取消"

  -- what the cancellation of a waiting task leaves
  abbrev pub stranded_task : Task
  stranded_task = settled_task s.repo clock.first task_id r.id rejected cancelled_remark none task r

  abbrev pub stranded : Server
  stranded = record s {
    repo = update s.repo stranded_task;
    control = request_cancel s.control task_id;
  }

  get-stranded : IsWaiting task_id user s task r → get stranded.repo task_id ≡ some stranded_task
  get-stranded h = get-decided task_id user s task r h clock.first rejected cancelled_remark none

  cancel_task-waiting :
      IsWaiting task_id user s task r → (cancel_task clock task_id user s).1 ≡ stranded
  unfolding cancel_task
  cancel_task-waiting h =
      let waits : same_status task.status awaiting_approval ≡ true = rw h.waits refl in
      let open_ : terminal task.status ≡ false = rw h.waits refl in
      rw
        (
          accessible_task-granted user task_id s task h.there h.access,
          open_,
          waits,
          h.has,
          resolve_waiting task_id user s task r h clock.first rejected cancelled_remark none,
          respond_status-there task_id stranded stranded_task (get-stranded h),
        )
        refl

  -- The cancellation of a task that waits for an approval rejects the request and leaves the task
  -- without a way on: its status stays awaiting_approval, nothing is enqueued, and then `resume`,
  -- `retry` and every decision on an approval by the same caller are refused and change nothing.
  pub cancel_task-strands :
      (clock' : Clock) (from_index : Option ℕ) (approval_id : String) (approve : Bool)
      (remark : Option String) (args : Option (Dict Value))
      → s.ready ≡ true
      → IsWaiting task_id user s task r
      → let s' = (cancel_task clock task_id user s).1 in
        (get s'.repo task_id ≡ some stranded_task)
        × (stranded_task.status ≡ awaiting_approval)
        × (s'.queue ≡ s.queue)
        × (resume_task clock' task_id user s'
            ≡ (raised (task_state task_id awaiting_approval (allowed_statuses resumable)), s'))
        × (retry_task clock' task_id from_index user s'
            ≡ (raised (task_state task_id awaiting_approval (allowed_statuses restartable)), s'))
        × (decide_approval clock' task_id approval_id approve remark args user s'
            ≡ (raised (approval_not_found task_id approval_id), s'))
  unfolding resume_task retry_task can_access_task
  cancel_task-strands clock' from_index approval_id approve remark args ready h =
      let there = get-stranded h in
      let granted : accessible_task user task_id stranded ≡ (returned stranded_task, stranded) =
        accessible_task-granted user task_id stranded stranded_task there h.access in
      rw (cancel_task-waiting h) (
        there,
        h.waits,
        refl,
        rw (require_ready-open stranded ready, granted, h.waits) refl,
        rw (require_ready-open stranded ready, granted, h.waits) refl,
        decide_approval-none clock' task_id approval_id approve remark args user stranded
            stranded_task there h.access
            (none_listed task_id user s task r h clock.first rejected cancelled_remark none refl
              stranded.repo stranded_task there refl refl),
      )
