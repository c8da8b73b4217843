-- ===== src/Tasks/Api/Waiting.antt =====
-- A task of app/api/v1/tasks.py that waits for the decision on an approval request.
use ai_agent_task_assistant.Common.{
  String, ◌≡◌, refl, ap, Bool, true, false, Option, none, some, [], ◌∷◌, Dict, Value,
}
use ai_agent_task_assistant.Tools.Security.{ToolContext}
use ai_agent_task_assistant.Tasks.Model.{
  awaiting_approval, ApprovalStatus, is_pending, ApprovalRequest, Task,
}
use ai_agent_task_assistant.Tasks.Repository.{Repo, get, update}
use ai_agent_task_assistant.Tasks.Service.{status_response, get_task_status_response}
use ai_agent_task_assistant.Tasks.Service.Approval.{resolve_approval, get_pending_approvals}
use ai_agent_task_assistant.Tasks.Service.Approval.Decided.{
  Tracks, CanDecide, settled_task, resolve_taken, get-settled, get_pending_approvals_lem,
  settled-IsDecided,
}
use ai_agent_task_assistant.Tasks.Service.Keyed.{IsKeyed}
use ai_agent_task_assistant.Tasks.Api.{
  Server, Clock, approval_not_found, returned, raised, can_access_task,
}
use ai_agent_task_assistant.Tasks.Api.Handlers.{respond_status}
use ai_agent_task_assistant.Tasks.Api.Approvals.{decide_approval}
use ai_agent_task_assistant.Tasks.Api.Access.{accessible_task-granted}

module _ (task_id : String) (user : ToolContext) (s : Server) (task : Task)
    (r : ApprovalRequest) where
  -- The task waits for a decision on `r`, and the caller may decide.
  pub record IsWaiting : Type 0 where
    pub keyed : IsKeyed s.repo
    pub there : get s.repo task_id ≡ some task
    pub access : can_access_task task user ≡ true
    pub waits : task.status ≡ awaiting_approval
    pub has : task.pending_approval ≡ some r
    pub tracked : Tracks (some r) task.approval_history

  module _ (h : IsWaiting) where
    pub tracks : Tracks task.pending_approval task.approval_history
    tracks = rw h.has h.tracked

    pub listed : get_pending_approvals s.repo task_id ≡ r ∷ []
    listed =
        let at : get_pending_approvals s.repo task_id ≡ _ =
          get_pending_approvals_lem s.repo task_id task h.there tracks in
        rw h.has at at

    -- a decision on the request, as the service takes it
    module _ (now : String) (status : ApprovalStatus) (remark : Option String)
        (args : Option (Dict Value)) where
      abbrev decided_task : Task
      decided_task = settled_task s.repo now task_id r.id status remark args task r

      pub can : CanDecide s.repo now task_id r.id status remark args task r
      can = (h.there, h.has, refl, h.tracked.0)

      pub resolve_waiting :
          (resolve_approval s.repo now task_id r.id status remark args).1
          ≡ update s.repo decided_task
      resolve_waiting =
          ap (λ (o : Option ApprovalRequest × Repo). o.1)
            (resolve_taken s.repo now task_id r.id status remark args task r can)

      pub get-decided : get (update s.repo decided_task) task_id ≡ some decided_task
      get-decided = get-settled s.repo now task_id r.id status remark args h.keyed task r can

      pub none_listed :
          is_pending status ≡ false
          → (repo : Repo) (t : Task) → get repo task_id ≡ some t
          → t.pending_approval ≡ none
          → t.approval_history ≡ decided_task.approval_history
          → get_pending_approvals repo task_id ≡ []
      none_listed done repo t there empty same =
          let all_decided =
            settled-IsDecided s.repo now task_id r.id status remark args task r can tracks done in
          let at : get_pending_approvals repo task_id ≡ _ =
            get_pending_approvals_lem repo task_id t there (rw (empty, same) all_decided) in
          rw empty at at

-- A decision on a task with nothing to decide is refused, whatever it is.
pub decide_approval-none :
    (clock : Clock) (task_id approval_id : String) (approve : Bool) (remark : Option String)
    (args : Option (Dict Value)) (user : ToolContext) (s : Server) (task : Task)
    → get s.repo task_id ≡ some task
    → can_access_task task user ≡ true
    → get_pending_approvals s.repo task_id ≡ []
    → decide_approval clock task_id approval_id approve remark args user s
      ≡ (raised (approval_not_found task_id approval_id), s)
unfolding decide_approval
decide_approval-none clock task_id approval_id approve remark args user s task there access empty =
    rw (accessible_task-granted user task_id s task there access, empty) refl

get_task_status_response-there :
    (repo : Repo) (task_id : String) (task : Task)
    → get repo task_id ≡ some task
    → get_task_status_response repo task_id ≡ some (status_response task)
unfolding get_task_status_response
get_task_status_response-there repo task_id task e = rw (e, get_task_status_response) refl

pub respond_status-there :
    (task_id : String) (s : Server) (task : Task)
    → get s.repo task_id ≡ some task
    → respond_status task_id s ≡ (returned (status_response task), s)
unfolding respond_status
respond_status-there task_id s task e =
    rw (get_task_status_response-there s.repo task_id task e) refl
