-- ===== src/Tasks/Service/Approval/Decided.antt =====
-- What a decision on an approval request of app/services/task_service.py leaves.
use ai_agent_task_assistant.Common.{
  String, ◌⊎◌, ◌≡◌, ◌≢◌, refl, ap, inl, inr, true, false, Option, none, some, Option-cases, List,
  [], ◌∷◌, All, Dict, Value, eq_iff, eq_refl, arith, ◌↔◌,
}
use ai_agent_task_assistant.Tasks.Model.{ApprovalStatus, is_pending, ApprovalRequest, Task}
use ai_agent_task_assistant.Tasks.Repository.{Repo, get, update}
use ai_agent_task_assistant.Tasks.Service.Keyed.{IsKeyed, get-update}
use ai_agent_task_assistant.Tasks.Service.Approval.{
  replace_first, decided, settled, open_request, resolve_approval, undecided, get_pending_approvals,
}

abbrev pub IsDecided : ApprovalRequest → Type 0
IsDecided a = is_pending a.status ≡ false

-- `r` is in the history, as the first entry with its id, and all other entries are decided.
abbrev pub Opens : ApprovalRequest → List ApprovalRequest → Type 0
Opens r [] = ⊥
Opens r (a ∷ history) =
    ((a ≡ r) × All IsDecided history) ⊎ (IsDecided a × (a.id ≢ r.id) × Opens r history)

-- The task's pending request is the one undecided entry of its history; without one, there is none.
abbrev pub Tracks : Option ApprovalRequest → List ApprovalRequest → Type 0
Tracks none history = All IsDecided history
Tracks (some r) history = (is_pending r.status ≡ true) × Opens r history

undecided-nil : (history : List ApprovalRequest) → All IsDecided history → undecided history ≡ []
undecided-nil [] h = refl
undecided-nil (a ∷ history) (d, h) = rw d (undecided-nil history h)

undecided-Opens :
    (r : ApprovalRequest) (history : List ApprovalRequest)
    → is_pending r.status ≡ true
    → Opens r history
    → undecided history ≡ r ∷ []
undecided-Opens r [] p h = absurd h
undecided-Opens r (a ∷ history) p (inl (e, h)) = rw (e, p, undecided-nil history h) refl
undecided-Opens r (a ∷ history) p (inr (d, n, h)) = rw d (undecided-Opens r history p h)

replace_first-IsDecided :
    (r r' : ApprovalRequest) (history : List ApprovalRequest)
    → Opens r history
    → IsDecided r'
    → All IsDecided (replace_first r.id r' history)
unfolding replace_first
replace_first-IsDecided r r' [] h d = absurd h
replace_first-IsDecided r r' (a ∷ history) (inl (e, h)) d = rw (e, eq_refl r.id) (d, h)
replace_first-IsDecided r r' (a ∷ history) (inr (d', n, h)) d =
    ground (arith, eq_iff a.id r.id, replace_first-IsDecided r r' history h d)

-- What a task of which requests are tracked lists as pending is just its pending request.
abbrev pub pending_list : Option ApprovalRequest → List ApprovalRequest
pending_list none = []
pending_list (some r) = r ∷ []

undecided_lem :
    (o : Option ApprovalRequest) (history : List ApprovalRequest)
    → Tracks o history
    → undecided history ≡ pending_list o
undecided_lem none history h = undecided-nil history h
undecided_lem (some r) history (p, h) = undecided-Opens r history p h

pub get_pending_approvals_lem :
    (repo : Repo) (task_id : String) (task : Task)
    → get repo task_id ≡ some task
    → Tracks task.pending_approval task.approval_history
    → get_pending_approvals repo task_id ≡ pending_list task.pending_approval
unfolding get_pending_approvals
get_pending_approvals_lem repo task_id task e h =
    rw e (undecided_lem task.pending_approval task.approval_history h)

resolve_without :
    (repo : Repo) (task : Task) (task_id : String)
    → get repo task_id ≡ some task
    → task.pending_approval ≡ none
    → (now id : String) (status : ApprovalStatus) (remark : Option String)
      (args : Option (Dict Value))
    → resolve_approval repo now task_id id status remark args ≡ (none, repo)
unfolding resolve_approval
resolve_without repo task task_id there empty now id status remark args =
    rw there (rw (empty, open_request) refl)

module _ (repo : Repo) (now task_id approval_id : String) (status : ApprovalStatus)
    (remark : Option String) (modified_args : Option (Dict Value)) where
  abbrev outcome : Option ApprovalRequest × Repo
  outcome = resolve_approval repo now task_id approval_id status remark modified_args

  open_request_iff :
      (o : Option ApprovalRequest) (r : ApprovalRequest)
      → (open_request approval_id o ≡ some r)
        ↔ ((o ≡ some r) × (r.id ≡ approval_id) × (is_pending r.status ≡ true))
  open_request_iff none r = ground arith
  open_request_iff (some q) r = ground (arith, eq_iff q.id approval_id)

  -- the task behind a decision
  abbrev pub settled_task : Task → ApprovalRequest → Task
  settled_task task r = settled now approval_id (decided now status remark modified_args r) task

  -- what a decision needs
  abbrev pub CanDecide : Task → ApprovalRequest → Type 0
  CanDecide task r =
      (get repo task_id ≡ some task)
      × (task.pending_approval ≡ some r)
      × (r.id ≡ approval_id)
      × (is_pending r.status ≡ true)

  pub resolve_taken :
      (task : Task) (r : ApprovalRequest)
      → CanDecide task r
      → outcome
        ≡ (some (decided now status remark modified_args r), update repo (settled_task task r))
  unfolding resolve_approval
  resolve_taken task r (there, has, named, open_) =
      rw (there, (open_request_iff task.pending_approval r).1 (has, named, open_)) refl

  -- A call decides, or is refused and changes nothing.
  pub resolve-cases :
      ((task : Task) × (r : ApprovalRequest) × CanDecide task r) ⊎ (outcome ≡ (none, repo))
  unfolding resolve_approval
  resolve-cases = elim (Option-cases (get repo task_id)) [
    | inl missing ↦ inr (rw missing refl)
    | inr (task, there) ↦ elim (Option-cases (open_request approval_id task.pending_approval)) [
      | inl closed ↦ inr (rw (there, closed) refl)
      | inr (r, found) ↦
          let (has, named, open_) = (open_request_iff task.pending_approval r).0 found in
          inl (task, r, (there, has, named, open_))
    ]
  ]

  pub settled-IsDecided :
      (task : Task) (r : ApprovalRequest)
      → CanDecide task r
      → Tracks task.pending_approval task.approval_history
      → is_pending status ≡ false
      → All IsDecided (settled_task task r).approval_history
  settled-IsDecided task r (_, has, named, _) tracked done =
      let opened : Tracks (some r) task.approval_history = rw has at tracked in
      rw (← named) (
        replace_first-IsDecided r (decided now status remark modified_args r) task.approval_history
          opened.1 done)

  module _ (h : IsKeyed repo) where
    pub get-settled :
        (task : Task) (r : ApprovalRequest)
        → CanDecide task r
        → get (update repo (settled_task task r)) task_id ≡ some (settled_task task r)
    get-settled task r can =
        rw (get-update repo (settled_task task r) task_id, h.at task_id task can.0, eq_refl task_id)
          refl

    -- In a repository whose tasks stand under their own identifiers: after a call that
    -- decides, every other decision on the same task is refused and changes nothing.
    pub resolve_approval_once :
        outcome.0 ≢ none
        → (now' id' : String) (status' : ApprovalStatus) (remark' : Option String)
          (args' : Option (Dict Value))
        → resolve_approval outcome.1 now' task_id id' status' remark' args' ≡ (none, outcome.1)
    resolve_approval_once taken now' id' status' remark' args' = elim resolve-cases [
      | inl (task, r, can) ↦ rw (resolve_taken task r can) (
          resolve_without _ (settled_task task r) task_id (get-settled task r can) refl now' id'
            status' remark' args')
      | inr refused ↦ absurd (taken (ap (λ (o : Option ApprovalRequest × Repo). o.0) refused))
    ]

    -- In a repository whose tasks stand under their own identifiers: the decision, other than
    -- `pending`, of the pending request of a task, which is the one undecided entry of its
    -- history, leaves the task with nothing pending, every entry of its history decided, and
    -- nothing listed as pending.
    pub resolve_approval-clears :
        (task : Task) (r : ApprovalRequest)
        → CanDecide task r
        → Tracks task.pending_approval task.approval_history
        → is_pending status ≡ false
        → (task' : Task) × (get outcome.1 task_id ≡ some task')
          × (task'.pending_approval ≡ none)
          × All IsDecided task'.approval_history
          × (get_pending_approvals outcome.1 task_id ≡ [])
    resolve_approval-clears task r can tracked done =
        let decided_all : All IsDecided (settled_task task r).approval_history =
          settled-IsDecided task r can tracked done in
        rw (resolve_taken task r can) (
          settled_task task r,
          get-settled task r can,
          refl,
          decided_all,
          get_pending_approvals_lem _ task_id (settled_task task r) (get-settled task r can)
              decided_all,
        )
