-- ===== src/Tasks/Service/Progress.antt =====
-- What the reset, the results and the status of a task say of its subtasks
-- (app/services/task_service.py).
use mathlib.Core.Option
use ai_agent_task_assistant.Common.{
  ℕ, zero, suc, ◌+◌, ◌≤◌, String, ◌≡◌, ◌≢◌, ◌↔◌, refl, ap, inl, inr, Bool, true, Option, none, some,
  Option-cases, List, [], ◌∷◌, All, length, get_elem?, count_if, count_if-le-length, eq_iff, arith,
  if◌then◌else◌,
}
use ai_agent_task_assistant.Tasks.Model.{completed, SubTask, Task}
use ai_agent_task_assistant.Tasks.Repository.{Repo, get, update}
use ai_agent_task_assistant.Tasks.Service.{
  TaskStatusResponse, is_status, status_response, get_task_status_response,
}
use ai_agent_task_assistant.Tasks.Service.Sync.{
  RawResult, write_last, write_results, or_text, numbered,
}
use ai_agent_task_assistant.Tasks.Service.Retry.{
  kept, renewed, reset_subtasks, reset_task, reset_task_for_retry,
}

reset_subtasks-at :
    (from_index : Option ℕ) (subtasks : List SubTask) (base i : ℕ)
    → get_elem? (reset_subtasks from_index base subtasks) i
      ≡ Option.map (λ s. if kept from_index (base + i) then s else renewed s) (get_elem? subtasks i)
unfolding reset_subtasks
reset_subtasks-at from_index [] base i = refl
reset_subtasks-at from_index (s ∷ subtasks) base zero =
    let e : base + zero ≡ base = omega arith in rw e refl
reset_subtasks-at from_index (s ∷ subtasks) base (suc i) =
    let e : base + suc i ≡ suc base + i = omega arith in
    rw e (reset_subtasks-at from_index subtasks (suc base) i)

-- A reset keeps the subtasks below the index, where one is given, and makes each other one pending,
-- with no result, error or tool; the result, the error and the reflection of the task are gone.
pub reset_task_for_retry_lem :
    (repo : Repo) (now task_id : String) (from_index : Option ℕ) (task : Task)
    → get repo task_id ≡ some task
    → (task' : Task) × (reset_task_for_retry repo now task_id from_index
        ≡ (some task', update repo task'))
      × (task'.final_result ≡ none)
      × (task'.error ≡ none)
      × (task'.reflection ≡ none)
      × (task'.status ≡ task.status)
      × ((i : ℕ)
          → get_elem? task'.subtasks i
            ≡ Option.map
                (λ s. if kept from_index i then s else renewed s)
                (get_elem? task.subtasks i))
unfolding reset_task_for_retry
reset_task_for_retry_lem repo now task_id from_index task there = (
  reset_task from_index now task,
  rw there refl,
  refl,
  refl,
  refl,
  refl,
  λ i.
      let e : 0 + i ≡ i = omega arith in
      let at_i : kept from_index (0 + i) ≡ kept from_index i = ap (kept from_index) e in
      rw (← at_i) (reset_subtasks-at from_index task.subtasks 0 i),
)

-- the subtasks that the results name
abbrev pub named_by : ℕ → List RawResult → List String
named_by i [] = []
named_by i (r ∷ results) = or_text r.subtask_id (numbered i) ∷ named_by (suc i) results

write_last-keeps :
    (sid : String) (r : RawResult) (subtasks : List SubTask) (j : ℕ) (s : SubTask)
    → s.id ≢ sid
    → get_elem? subtasks j ≡ some s
    → get_elem? (write_last sid r subtasks).0 j ≡ some s
unfolding write_last
write_last-keeps sid r [] j s n e = e
write_last-keeps sid r (t ∷ subtasks) zero s n e = ground (arith, eq_iff t.id sid)
write_last-keeps sid r (t ∷ subtasks) (suc j) s n e =
    ground (arith, write_last-keeps sid r subtasks j s n e)

-- A subtask that no result names is left as it is.
pub write_results-keeps :
    (i : ℕ) (results : List RawResult) (subtasks : List SubTask) (j : ℕ) (s : SubTask)
    → All (λ sid. s.id ≢ sid) (named_by i results)
    → get_elem? subtasks j ≡ some s
    → get_elem? (write_results i results subtasks) j ≡ some s
unfolding write_results
write_results-keeps i [] subtasks j s h e = e
write_results-keeps i (r ∷ results) subtasks j s (n, h) e =
    write_results-keeps (suc i) results _ j s h
      (write_last-keeps (or_text r.subtask_id (numbered i)) r subtasks j s n e)

count_if-eq-length_iff :
    (p : SubTask → Bool) (xs : List SubTask)
    → (count_if p xs ≡ length xs) ↔ All (λ x. p x ≡ true) xs
count_if-eq-length_iff p [] = ground arith
count_if-eq-length_iff p (x ∷ xs) =
    ground (arith, count_if-eq-length_iff p xs, count_if-le-length p xs)

-- The progress that the status endpoint reports is at most the whole, and it is the whole exactly
-- when every subtask of the stored task is completed.
pub progress_bounded :
    (repo : Repo) (task_id : String) (r : TaskStatusResponse)
    → get_task_status_response repo task_id ≡ some r
    → (get repo task_id ≡ some r.task)
      × (r.completed ≤ r.total)
      × ((r.completed ≡ r.total) ↔ All (λ s. is_status completed s ≡ true) r.task.subtasks)
unfolding get_task_status_response status_response
progress_bounded repo task_id r e = elim (Option-cases (get repo task_id)) [
  | inl missing ↦ cc missing
  | inr (task, there) ↦
      let same : status_response task ≡ r = ground (arith, there) in
      rw (← same) (
        there,
        count_if-le-length (is_status completed) task.subtasks,
        count_if-eq-length_iff (is_status completed) task.subtasks,
      )
]
