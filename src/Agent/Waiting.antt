-- ===== src/Agent/Waiting.antt =====
-- From the gate of app/agent/approval.py to the task that waits: what app/services/agent_service.py
-- stores of an interrupt.
use ai_agent_task_assistant.Common.{
  ℕ, String, ◌≡◌, refl, ap, Bool-cases, inl, inr, Option, none, some, List, [], ◌∷◌, ◌++◌, Dict,
  lookup, Value, number, field_list-fields_of, eq_iff,
}
use ai_agent_task_assistant.Gate.{
  HumanApprovalGate, Policy, ApprovalRequestPayload, Interrupt, suspends, resumes, suspended,
  to_dict, needs_approval, request,
}
use ai_agent_task_assistant.Tools.Security.{ToolContext}
use ai_agent_task_assistant.Tasks.Model.{awaiting_approval, ApprovalStatus, ApprovalRequest, Task}
use ai_agent_task_assistant.Tasks.Repository.{Repo, get, update}
use ai_agent_task_assistant.Tasks.Service.{on_task}
use ai_agent_task_assistant.Tasks.Service.Keyed.{IsKeyed, Call-Keeps, saves_approval, get-update}
use ai_agent_task_assistant.Tasks.Service.Approval.{save_approval_request}
use ai_agent_task_assistant.Agent.Events.{
  Entry, interrupts, Boundary, Stream, yields, interrupted, Shared, stopped, first_approval,
  approval_of, read_event, read_stream,
}
use ai_agent_task_assistant.Agent.Service.{World, Settings, request_of, finish, others_changed}
use ai_agent_task_assistant.Agent.Worker.{left_by}
use ai_agent_task_assistant.Agent.Identity.{IsQuiet}
use ai_agent_task_assistant.Agent.Ending.{IsIn, with_status, set-get}

-- the request that a task stores of a payload
abbrev pub stored : World → String → ApprovalRequestPayload → ApprovalRequest
stored world task_id p = record {
  id = p.approval_id;
  task_id = task_id;
  tool_name = p.tool_name;
  args = p.args;
  reason = p.reason;
  status = ApprovalStatus.pending;
  created_at = world.stamp (some (number p.requested_at));
  decided_at = none;
  decision_note = none;
  modified_args = none;
}

request_of-to_dict :
    (world : World) (task_id : String) (p : ApprovalRequestPayload)
    → request_of world task_id (to_dict p) ≡ some (stored world task_id p)
unfolding to_dict lookup
request_of-to_dict world task_id p = rw field_list-fields_of refl

approval_of-to_dict :
    (b : Boundary) (p : ApprovalRequestPayload) (payloads : List (Dict Value))
    (rest : List (Boundary × Entry))
    → approval_of ((b, interrupts (to_dict p ∷ payloads)) ∷ rest) ≡ some (to_dict p)
unfolding approval_of first_approval to_dict lookup
approval_of-to_dict b p payloads rest = refl

-- the task behind the saving of a request
abbrev waiting : String → ApprovalRequest → Task → Task
waiting now r t = record t {
  pending_approval = some r;
  approval_history = t.approval_history ++ (r ∷ []);
  updated_at = now;
}

save-get :
    (repo : Repo) (now : String) (r : ApprovalRequest) (t : Task) (task_id : String)
    → r.task_id ≡ task_id
    → IsKeyed repo
    → get repo task_id ≡ some t
    → get (save_approval_request repo now r) task_id ≡ some (waiting now r t)
save-get repo now r t task_id same h e =
    let there : get repo r.task_id ≡ some t = rw same e in
    let saved : save_approval_request repo now r ≡ update repo (waiting now r t) =
      unfold save_approval_request in ap (λ o. (on_task repo o (waiting now r)).1) there in
    rw
      (saved, get-update repo (waiting now r t) task_id, (eq_iff t.id task_id).1 (h.at task_id t e))
      refl

-- the payload of the request of a tool
abbrev pub payload_for :
    HumanApprovalGate → String → ℕ → String → Dict Value → String → ApprovalRequestPayload
payload_for gate approval_id now tool_name args task_id = record {
  approval_id = approval_id;
  task_id = task_id;
  tool_name = tool_name;
  args = args;
  reason = gate.reason_template tool_name;
  requested_at = now;
}

suspended-inj : (d d' : Dict Value) → suspended d' ≡ suspended d → d ≡ d'
suspended-inj d d' e = cc e

request-suspended :
    (gate : HumanApprovalGate) (policy : Policy) (render : Value → String) (approval_id : String)
    (now : ℕ) (tool_name : String) (args : Dict Value) (task_id : String) (d : Dict Value)
    (interrupt : Interrupt)
    → request gate policy render approval_id now tool_name args task_id interrupt ≡ suspended d
    → d ≡ to_dict (payload_for gate approval_id now tool_name args task_id)
unfolding request
request-suspended gate policy render approval_id now tool_name args task_id d suspends e =
    elim (Bool-cases (needs_approval gate policy tool_name)) [
      | inl needs ↦ let e' = rw needs at e in suspended-inj d _ e'
      | inr free ↦ let e' = rw free at e in absurd (cc e')
    ]
request-suspended gate policy render approval_id now tool_name args task_id d (resumes given) e =
    elim (Bool-cases (needs_approval gate policy tool_name)) [
      | inl needs ↦ let e' = rw needs at e in absurd (cc e')
      | inr free ↦ let e' = rw free at e in absurd (cc e')
    ]

module _ (settings : Settings) (world : World) (task_id : String) (caller : ToolContext) where
  waits-finish :
      (goal : String) (s : Shared) (t : Task) (p : ApprovalRequestPayload)
      → IsQuiet world.others
      → IsIn settings world task_id caller s t
      → (t' : Task) × (get
            (left_by (
              finish settings world task_id caller goal (stopped (interrupted (to_dict p)) s))).repo
            task_id
          ≡ some t')
        × (t'.status ≡ awaiting_approval)
        × (t'.pending_approval ≡ some (stored world task_id p))
  unfolding finish
  waits-finish goal s t p quiet (h, e) =
      let k = quiet s.repo h in
      let (u, there, same) = k.kept task_id t e in
      let r = stored world task_id p in
      let s' = others_changed settings world task_id caller s in
      let saved = save-get s'.repo world.ended_at r u task_id refl k.keyed there in
      let keyed = Call-Keeps k.keyed (saves_approval world.ended_at r) in
      (
        with_status settings world task_id caller awaiting_approval [] (waiting world.ended_at r u),
        rw (request_of-to_dict world task_id p) (
            set-get settings world task_id caller
              (record s' { repo = save_approval_request s'.repo world.ended_at r })
              (waiting world.ended_at r u) awaiting_approval [] tt (keyed.keyed, saved)),
        refl,
        refl,
      )

  -- In a repository whose tasks stand under their own identifiers, where other callers keep the tasks
  -- and their identity: the dict with which the gate suspends the call of a tool, as the first
  -- payload of an interrupt, ends the run with its task waiting for an approval, and with a pending
  -- request for that tool, with its arguments and the gate's identifier and reason.
  pub suspended-waits :
      (gate : HumanApprovalGate) (policy : Policy) (render : Value → String) (approval_id : String)
      (now : ℕ) (tool_name : String) (args : Dict Value) (d : Dict Value) (interrupt : Interrupt)
      (goal : String) (s : Shared) (final : Option String) (t : Task) (b : Boundary)
      (payloads : List (Dict Value)) (rest : List (Boundary × Entry)) (stream : Stream)
      → request gate policy render approval_id now tool_name args task_id interrupt ≡ suspended d
      → IsQuiet world.others
      → IsIn settings world task_id caller s t
      → let run =
          finish settings world task_id caller goal
            (read_stream task_id s final (yields ((b, interrupts (d ∷ payloads)) ∷ rest) stream)) in
        (t' : Task) × (get (left_by run).repo task_id ≡ some t')
        × (t'.status ≡ awaiting_approval)
        × (t'.pending_approval
            ≡ some (stored world task_id (payload_for gate approval_id now tool_name args task_id)))
  unfolding read_stream
  suspended-waits gate policy render approval_id now tool_name args d interrupt goal s final t b
        payloads rest stream e quiet i =
      let p = payload_for gate approval_id now tool_name args task_id in
      let same : d ≡ to_dict p =
        request-suspended gate policy render approval_id now tool_name args task_id d interrupt e in
      rw (same, approval_of-to_dict b p payloads rest, read_stream, read_event)
        (waits-finish goal s t p quiet i)
