-- ===== src/Tasks/Service/Keyed.antt =====
-- The identity of the stored tasks under the operations of app/services/task_service.py.
use ai_agent_task_assistant.Common.{
  ℕ, String, ◌≡◌, refl, Bool, true, false, All, sym, ap, ◌∙◌, inl, inr, Bool-cases, Option-cases,
  Option, none, some, List, [], ◌∷◌, Dict, Value, lookup-insert, ◌==◌, eq_iff, arith, if◌then◌else◌,
}
use ai_agent_task_assistant.Tasks.Model.{
  TaskStatus, ApprovalStatus, ApprovalRequest, ReflectionResult, Task,
}
use ai_agent_task_assistant.Tasks.Repository.{Repo, create, get, update}
use ai_agent_task_assistant.Tasks.Service.{
  new_task, create_task, Change, id_to, goal_to, owner_id_to, tenant_id_to, created_at_to,
  updated_at_to, context_to, execution_mode_to, final_result_to, error_to, subtasks_to, plan_to,
  reflection_to, plan_version_to, iteration_count_to, agent_results_to, pending_approval_to,
  approval_history_to, no_field, changes, on_task, update_task_status,
}
use ai_agent_task_assistant.Tasks.Service.Sync.{
  RawPlan, RawResult, sync_plan, sync_task_results, sync_reflection, sync_execution_mode,
  sync_agent_results,
}
use ai_agent_task_assistant.Tasks.Service.Approval.{
  save_approval_request, resolve_approval, open_request,
}
use ai_agent_task_assistant.Tasks.Service.Retry.{reset_task_for_retry}

pub record SameIdentity (t t' : Task) : Type 0 where
  pub id : t'.id ≡ t.id
  pub goal : t'.goal ≡ t.goal
  pub owner : t'.owner_id ≡ t.owner_id
  pub tenant : t'.tenant_id ≡ t.tenant_id
  pub created : t'.created_at ≡ t.created_at

pub record IsKeyed (repo : Repo) : Type 0 where
  pub at : (k : String) (t : Task) → get repo k ≡ some t → t.id ≡ k

-- Every task of `repo` is in `repo'`, with the same identity.
pub record Keeps (repo repo' : Repo) : Type 0 where
  pub keyed : IsKeyed repo'
  pub kept :
      (k : String) (t : Task)
      → get repo k ≡ some t
      → (t' : Task) × (get repo' k ≡ some t') × SameIdentity t t'

pub SameIdentity-refl : (t : Task) → SameIdentity t t
SameIdentity-refl t = ground arith

pub get-update :
    (repo : Repo) (task : Task) (k : String)
    → get (update repo task) k ≡ (if task.id == k then some task else get repo k)
unfolding get update
get-update repo task k = lookup-insert task.id k task repo

module _ (repo : Repo) (h : IsKeyed repo) where
  Keeps-refl : Keeps repo repo
  Keeps-refl = record { keyed = h; kept = λ k t e. (t, e, SameIdentity-refl t) }

  -- the task that an update writes over is the one that was read
  same_task :
      (k j : String) (t u : Task) → get repo k ≡ some t → get repo j ≡ some u → t.id ≡ j → t ≡ u
  same_task k j t u e f same = let at : k ≡ j = sym (h.at k t e) ∙ same in cc (ap (get repo) at)

  update-kept :
      (k : String) (t t' : Task)
      → get repo k ≡ some t
      → SameIdentity t t'
      → (j : String) (u : Task) → get repo j ≡ some u
      → (u' : Task) × (get (update repo t') j ≡ some u') × SameIdentity u u'
  update-kept k t t' e s j u f = elim (Bool-cases (t'.id == j)) [
    | inl here ↦
        let same : t ≡ u = same_task k j t u e f (sym s.id ∙ (eq_iff t'.id j).0 here) in
        (t', rw (get-update repo t' j, here) refl, rw same at s)
    | inr there ↦ (u, rw (get-update repo t' j, there) f, SameIdentity-refl u)
  ]

  update-Keeps :
      (k : String) (t t' : Task)
      → get repo k ≡ some t
      → SameIdentity t t'
      → Keeps repo (update repo t')
  update-Keeps k t t' e s = record {
    keyed = record { at = λ j u f. ground (arith, get-update repo t' j, eq_iff t'.id j, h.at j u) };
    kept = update-kept k t t' e s;
  }

  on_task-Keeps :
      (task_id : String) (f : Task → Task)
      → ((t : Task) → SameIdentity t (f t))
      → Keeps repo (on_task repo (get repo task_id) f).1
  on_task-Keeps task_id f same = elim (Option-cases (get repo task_id)) [
    | inl missing ↦ rw missing Keeps-refl
    | inr (t, there) ↦ rw there (update-Keeps task_id t (f t) there (same t))
  ]

-- the change names none of the fields that identify a task
abbrev pub keeps_identity : Change → Bool
keeps_identity (id_to v) = false
keeps_identity (goal_to v) = false
keeps_identity (owner_id_to v) = false
keeps_identity (tenant_id_to v) = false
keeps_identity (created_at_to v) = false
keeps_identity _ = true

abbrev pub AreHarmless : List Change → Type 0
AreHarmless kwargs = All (λ c. keeps_identity c ≡ true) kwargs

pub changes-SameIdentity :
    (cs : List Change) (t u : Task)
    → AreHarmless cs
    → SameIdentity t u
    → SameIdentity t (changes cs u)
changes-SameIdentity [] t u harmless h = h
changes-SameIdentity (id_to v ∷ cs) t u (e, _) h = absurd (cc e)
changes-SameIdentity (goal_to v ∷ cs) t u (e, _) h = absurd (cc e)
changes-SameIdentity (owner_id_to v ∷ cs) t u (e, _) h = absurd (cc e)
changes-SameIdentity (tenant_id_to v ∷ cs) t u (e, _) h = absurd (cc e)
changes-SameIdentity (created_at_to v ∷ cs) t u (e, _) h = absurd (cc e)
changes-SameIdentity (updated_at_to v ∷ cs) t u (_, harmless) h =
    changes-SameIdentity cs t _ harmless (ground arith)
changes-SameIdentity (context_to v ∷ cs) t u (_, harmless) h =
    changes-SameIdentity cs t _ harmless (ground arith)
changes-SameIdentity (execution_mode_to v ∷ cs) t u (_, harmless) h =
    changes-SameIdentity cs t _ harmless (ground arith)
changes-SameIdentity (final_result_to v ∷ cs) t u (_, harmless) h =
    changes-SameIdentity cs t _ harmless (ground arith)
changes-SameIdentity (error_to v ∷ cs) t u (_, harmless) h =
    changes-SameIdentity cs t _ harmless (ground arith)
changes-SameIdentity (subtasks_to v ∷ cs) t u (_, harmless) h =
    changes-SameIdentity cs t _ harmless (ground arith)
changes-SameIdentity (plan_to v ∷ cs) t u (_, harmless) h =
    changes-SameIdentity cs t _ harmless (ground arith)
changes-SameIdentity (reflection_to v ∷ cs) t u (_, harmless) h =
    changes-SameIdentity cs t _ harmless (ground arith)
changes-SameIdentity (plan_version_to v ∷ cs) t u (_, harmless) h =
    changes-SameIdentity cs t _ harmless (ground arith)
changes-SameIdentity (iteration_count_to v ∷ cs) t u (_, harmless) h =
    changes-SameIdentity cs t _ harmless (ground arith)
changes-SameIdentity (agent_results_to v ∷ cs) t u (_, harmless) h =
    changes-SameIdentity cs t _ harmless (ground arith)
changes-SameIdentity (pending_approval_to v ∷ cs) t u (_, harmless) h =
    changes-SameIdentity cs t _ harmless (ground arith)
changes-SameIdentity (approval_history_to v ∷ cs) t u (_, harmless) h =
    changes-SameIdentity cs t _ harmless (ground arith)
changes-SameIdentity (no_field v ∷ cs) t u (_, harmless) h =
    changes-SameIdentity cs t _ harmless (ground arith)

get-create :
    (repo : Repo) (task : Task) (k : String)
    → get (create repo task) k ≡ (if task.id == k then some task else get repo k)
unfolding get create
get-create repo task k = lookup-insert task.id k task repo

create-Keeps :
    (repo : Repo) (task : Task)
    → IsKeyed repo
    → get repo task.id ≡ none
    → Keeps repo (create repo task)
create-Keeps repo task h fresh = record {
  keyed = record {
    at = λ j u f. ground (arith, get-create repo task j, eq_iff task.id j, h.at j u);
  };
  kept = λ j u f. elim (Bool-cases (task.id == j)) [
    | inl here ↦ absurd (cc (ap (get repo) ((eq_iff task.id j).0 here)))
    | inr there ↦ (u, rw (get-create repo task j, there) f, SameIdentity-refl u)
  ];
}

-- A call of the service: any of its operations that writes. A new task has an identifier that is
-- not in use, and an update of the status names none of the fields that identify a task.
pub data Call (repo : Repo) : Repo → Type 0 where
  creates :
      (task_id now goal : String) (context : Option String) (owner_id tenant_id : String)
      → get repo task_id ≡ none
      → Call repo (create_task task_id now repo goal context owner_id tenant_id).1
  sets_status :
      (now task_id : String) (status : TaskStatus) (kwargs : List Change)
      → AreHarmless kwargs
      → Call repo (update_task_status repo now task_id status kwargs).1
  syncs_plan :
      (now task_id : String) (plan : Option RawPlan) → Call repo (sync_plan repo now task_id plan)
  syncs_results :
      (now task_id : String) (results : List RawResult)
      → Call repo (sync_task_results repo now task_id results)
  syncs_reflection :
      (now task_id : String) (reflection : Option (Option ReflectionResult)) (n : Option ℕ)
      → Call repo (sync_reflection repo now task_id reflection n)
  syncs_mode :
      (now task_id : String) (mode : Option String)
      → Call repo (sync_execution_mode repo now task_id mode)
  syncs_agents :
      (now task_id : String) (results : List Value)
      → Call repo (sync_agent_results repo now task_id results)
  saves_approval :
      (now : String) (request : ApprovalRequest)
      → Call repo (save_approval_request repo now request)
  resolves :
      (now task_id approval_id : String) (status : ApprovalStatus) (remark : Option String)
      (modified_args : Option (Dict Value))
      → Call repo (resolve_approval repo now task_id approval_id status remark modified_args).1
  resets :
      (now task_id : String) (from_index : Option ℕ)
      → Call repo (reset_task_for_retry repo now task_id from_index).1

resolve-Keeps :
    (repo : Repo) (now task_id approval_id : String) (status : ApprovalStatus)
    (remark : Option String) (modified_args : Option (Dict Value))
    → IsKeyed repo
    → Keeps repo (resolve_approval repo now task_id approval_id status remark modified_args).1
unfolding resolve_approval
resolve-Keeps repo now task_id approval_id status remark modified_args h =
    elim (Option-cases (get repo task_id)) [
      | inl missing ↦ rw missing (Keeps-refl repo h)
      | inr (t, there) ↦ elim (Option-cases (open_request approval_id t.pending_approval)) [
        | inl closed ↦ rw (there, closed) (Keeps-refl repo h)
        | inr (r, found) ↦ rw (there, found) (update-Keeps repo h task_id t _ there (ground arith))
      ]
    ]

pub Call-Keeps : {repo repo' : Repo} → IsKeyed repo → Call repo repo' → Keeps repo repo'
unfolding create_task update_task_status sync_plan sync_task_results sync_reflection
    sync_execution_mode sync_agent_results save_approval_request reset_task_for_retry
Call-Keeps {repo} h (creates task_id now goal context owner_id tenant_id fresh) =
    create-Keeps repo (new_task task_id now goal context owner_id tenant_id) h fresh
Call-Keeps {repo} h (sets_status now task_id status kwargs harmless) =
    on_task-Keeps repo h task_id _ (λ t. changes-SameIdentity kwargs t _ harmless (ground arith))
Call-Keeps {repo} h (syncs_plan now task_id none) = Keeps-refl repo h
Call-Keeps {repo} h (syncs_plan now task_id (some plan)) =
    on_task-Keeps repo h task_id _ (λ t. ground arith)
Call-Keeps {repo} h (syncs_results now task_id []) = Keeps-refl repo h
Call-Keeps {repo} h (syncs_results now task_id (r ∷ results)) =
    on_task-Keeps repo h task_id _ (λ t. ground arith)
Call-Keeps {repo} h (syncs_reflection now task_id reflection n) =
    on_task-Keeps repo h task_id _ (λ t. ground arith)
Call-Keeps {repo} h (syncs_mode now task_id mode) =
    on_task-Keeps repo h task_id _ (λ t. ground arith)
Call-Keeps {repo} h (syncs_agents now task_id []) = Keeps-refl repo h
Call-Keeps {repo} h (syncs_agents now task_id (r ∷ results)) =
    on_task-Keeps repo h task_id _ (λ t. ground arith)
Call-Keeps {repo} h (saves_approval now request) =
    on_task-Keeps repo h request.task_id _ (λ t. ground arith)
Call-Keeps {repo} h (resolves now task_id approval_id status remark modified_args) =
    resolve-Keeps repo now task_id approval_id status remark modified_args h
Call-Keeps {repo} h (resets now task_id from_index) =
    on_task-Keeps repo h task_id _ (λ t. ground arith)
