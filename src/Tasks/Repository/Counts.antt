-- ===== src/Tasks/Repository/Counts.antt =====
-- What `count_by_status` of app/services/task_repository.py returns.
use mathlib.Core.Path.{fun_ext}
use ai_agent_task_assistant.Common.{
  ℕ, suc, ◌+◌, ◌≡◌, refl, ap, ◌∙◌, Bool, List, [], ◌∷◌, map, values, count_if, arith, if◌then◌else◌,
}
use ai_agent_task_assistant.Tasks.Model.{
  TaskStatus, pending, planning, executing, reflecting, replanning, awaiting_approval, paused,
  cancelled, completed, failed, Task,
}
use ai_agent_task_assistant.Tasks.Repository.{
  Repo, same_status, all_statuses, bump, count_loop, count_by_status,
}

abbrev table : (TaskStatus → ℕ) → List (TaskStatus × ℕ)
table f = map (λ s. (s, f s)) all_statuses

bump-table :
    (t : TaskStatus) (f : TaskStatus → ℕ)
    → bump t (table f) ≡ table (λ s. if same_status s t then suc (f s) else f s)
unfolding bump
bump-table pending f = refl
bump-table planning f = refl
bump-table executing f = refl
bump-table reflecting f = refl
bump-table replanning f = refl
bump-table awaiting_approval f = refl
bump-table paused f = refl
bump-table cancelled f = refl
bump-table completed f = refl
bump-table failed f = refl

table_congr : (f g : TaskStatus → ℕ) → ((s : TaskStatus) → f s ≡ g s) → table f ≡ table g
table_congr f g h = ap table (fun_ext h)

-- the tasks of a status
abbrev pub of_status : TaskStatus → Task → Bool
of_status s t = same_status s t.status

count_loop-table :
    (ts : List Task) (f : TaskStatus → ℕ)
    → count_loop ts (table f) ≡ table (λ s. count_if (of_status s) ts + f s)
unfolding count_loop
count_loop-table [] f = table_congr f (λ s. 0 + f s) (λ s. omega arith)
count_loop-table (t ∷ ts) f =
    let g : TaskStatus → ℕ = λ s. if same_status s t.status then suc (f s) else f s in
    rw (bump-table t.status f) (
      count_loop-table ts g
      ∙ table_congr (λ s. count_if (of_status s) ts + g s)
          (λ s. count_if (of_status s) (t ∷ ts) + f s) (λ s. ground arith))

-- Every status is listed once, in the order of the enumeration, with the number of its tasks.
pub count_by_status_lem :
    (repo : Repo)
    → count_by_status repo ≡ map (λ s. (s, count_if (of_status s) (values repo))) all_statuses
unfolding count_by_status
count_by_status_lem repo =
    count_loop-table (values repo) (λ s. 0)
    ∙ table_congr (λ s. count_if (of_status s) (values repo) + 0)
        (λ s. count_if (of_status s) (values repo)) (λ s. omega arith)
