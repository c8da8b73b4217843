-- ===== src/Tasks/Repository.antt =====
-- app/services/task_repository.py: `InMemoryTaskRepository`, a dict of tasks by their id. The
-- repository over SQLAlchemy is calls of that library.
pub mod Listing
pub mod Counts
use Prim.Native.String.{compare}
use text.Mathlib.Text.{is_lt}
use ai_agent_task_assistant.Common.{
  ℕ, zero, suc, ◌+◌, ◌^◌, String, Bool, true, false, Option, none, some, List, [], ◌∷◌, map, Dict,
  lookup, insert, values, length, take, drop, keep_if, nat_eq, ◌==◌, if◌then◌else◌,
}
use ai_agent_task_assistant.Tasks.Model.{
  TaskStatus, pending, planning, executing, reflecting, replanning, awaiting_approval, paused,
  cancelled, completed, failed, Task, status_index,
}

abbrev pub Repo : Type 0
Repo = Dict Task

unfoldable pub create : Repo → Task → Repo
create repo task = insert task.id task repo

unfoldable pub get : Repo → String → Option Task
get repo task_id = lookup task_id repo

unfoldable pub update : Repo → Task → Repo
update repo task = insert task.id task repo

-- `sorted(…, key=created_at, reverse=True)`: the newest first, in the given order where times are
-- equal
later : Task → Task → Bool
later a b = is_lt (compare b.created_at a.created_at)

insert_sorted : Task → List Task → List Task
unfolding later
insert_sorted t [] = t ∷ []
insert_sorted t (u ∷ us) =
    let rest = insert_sorted t us in if later u t then u ∷ rest else t ∷ u ∷ us

newest_first : List Task → List Task
unfolding insert_sorted
newest_first [] = []
newest_first (t ∷ ts) = insert_sorted t (newest_first ts)

abbrev pub same_status : TaskStatus → TaskStatus → Bool
same_status a b = nat_eq (status_index a) (status_index b)

-- one filter of `list`: `None` does not limit
abbrev pub fits_text : Option String → String → Bool
fits_text none s = true
fits_text (some wanted) s = s == wanted

abbrev pub fits_status : Option TaskStatus → TaskStatus → Bool
fits_status none s = true
fits_status (some wanted) s = same_status s wanted

selected : Repo → Option String → Option String → Option TaskStatus → List Task
unfolding newest_first
selected repo owner_id tenant_id status =
    keep_if (λ t. fits_status status t.status)
      (keep_if (λ t. fits_text tenant_id t.tenant_id)
        (keep_if (λ t. fits_text owner_id t.owner_id) (newest_first (values repo))))

unfoldable pub list : Repo → ℕ → ℕ → Option String → Option String → Option TaskStatus → List Task
unfolding selected
list repo limit offset owner_id tenant_id status =
    take limit (drop offset (selected repo owner_id tenant_id status))

unfoldable pub count_limit : ℕ
count_limit = 10 ^ 6

unfoldable pub count : Repo → Option String → Option String → ℕ
unfolding list
count repo owner_id tenant_id = length (list repo count_limit 0 owner_id tenant_id none)

abbrev pub all_statuses : List TaskStatus
all_statuses =
    pending ∷ planning ∷ executing ∷ reflecting ∷ replanning ∷ awaiting_approval ∷ paused
    ∷ cancelled ∷ completed ∷ failed ∷ []

-- `counts[s] = counts.get(s, 0) + 1`, where every status is a key from the start
bump : TaskStatus → List (TaskStatus × ℕ) → List (TaskStatus × ℕ)
bump s [] = []
bump s ((k, n) ∷ counts) =
    let rest = bump s counts in if same_status k s then (k, suc n) ∷ counts else (k, n) ∷ rest

count_loop : List Task → List (TaskStatus × ℕ) → List (TaskStatus × ℕ)
unfolding bump
count_loop [] counts = counts
count_loop (t ∷ ts) counts = count_loop ts (bump t.status counts)

unfoldable pub count_by_status : Repo → List (TaskStatus × ℕ)
unfolding count_loop
count_by_status repo = count_loop (values repo) (map (λ s. (s, 0)) all_statuses)
