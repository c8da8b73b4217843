-- ===== src/Tasks/Api/Visible.antt =====
-- What the listing of app/api/v1/tasks.py shows.
use ai_agent_task_assistant.Common.{
  ℕ, String, ◌≡◌, refl, true, Option, List, [], ◌∷◌, map, length, ◌≤◌, All, arith,
}
use ai_agent_task_assistant.Tools.Security.{ToolContext}
use ai_agent_task_assistant.Tasks.Model.{TaskStatus, Task}
use ai_agent_task_assistant.Tasks.Repository.{Repo, count, list}
use ai_agent_task_assistant.Tasks.Repository.Listing.{fits, list-All}
use ai_agent_task_assistant.Tasks.Api.{Server, returned, can_access_task}
use ai_agent_task_assistant.Tasks.Api.Handlers.{to_task_response, unless_admin, list_tasks}

All-weaken :
    {P Q : Task → Type 0} → ((t : Task) → P t → Q t) → (ts : List Task) → All P ts → All Q ts
All-weaken f [] h = tt
All-weaken f (t ∷ ts) (p, h) = (f t p, All-weaken f ts h)

module _ (user : ToolContext) where
  abbrev pub owner : Option String
  owner = unless_admin user user.user_id

  abbrev pub tenant : Option String
  tenant = unless_admin user user.tenant_id

  fits-accessible :
      (repo : Repo) (status : Option TaskStatus) (t : Task)
      → fits repo owner tenant status t ≡ true
      → can_access_task t user ≡ true
  unfolding can_access_task
  fits-accessible repo status t h = ground arith

  -- A page of the listing answers for tasks of the repository that the caller may access, and for no
  -- more than the limit; the state is unchanged.
  pub list_tasks-accessible :
      (limit offset : ℕ) (status : Option TaskStatus) (s : Server)
      → let ts = list s.repo limit offset owner tenant status in
        (list_tasks limit offset status user s ≡ (
          returned (record { total = count s.repo owner tenant; tasks = map to_task_response ts }),
          s,
        ))
        × All (λ t. can_access_task t user ≡ true) ts
        × (length ts ≤ limit)
  unfolding list_tasks
  list_tasks-accessible limit offset status s =
      let (fit, short) = list-All s.repo owner tenant limit offset status in
      (refl, All-weaken (fits-accessible s.repo status) _ fit, short)
