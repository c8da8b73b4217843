-- ===== src/Schedule.antt =====
-- app/agent/executor_node.py: which subtasks a round of `ExecutorNode.run` executes and where the
-- next one begins. `perform` gives the result of a subtask, which the LLM and the tools make of it.
-- A run that ends by an exhausted budget or pauses for an approval is left out, and identifiers are
-- texts.
pub mod Rounds
use ai_agent_task_assistant.Common.{
  ℕ, zero, suc, ◌+◌, ◌<◌, String, Bool, true, false, not, ◌&&◌, Option, none, some, List, [], ◌∷◌,
  ◌++◌, map, length, drop, any, all, leb, ltb, ◌==◌, is_some, if◌then◌else◌,
}
use ai_agent_task_assistant.Tasks.Service.Sync.{or_text, numbered}

-- a subtask of the plan, as far as the order of execution goes
pub record PlannedTask : Type 0 where
  pub id : Option String
  pub depends_on : Option (List String)

pub record TaskResult : Type 0 where
  pub subtask_id : Option String
  pub status : String

abbrev listed_id : Option String → List String → List String
listed_id none ids = ids
listed_id (some id) ids = id ∷ ids

unfoldable pub completed_ids : List TaskResult → List String
completed_ids [] = []
completed_ids (r ∷ results) =
    let rest = completed_ids results in
    if r.status == "completed" then listed_id r.subtask_id rest else rest

abbrev is_among : String → List String → Bool
is_among id ids = any (λ i. i == id) ids

abbrev dependencies : Option (List String) → List String
dependencies none = []
dependencies (some ids) = ids

unfoldable pub is_ready : List String → ℕ → PlannedTask → Bool
is_ready done i task =
    not (is_among (or_text task.id (numbered i)) done)
    && all (λ d. is_among d done) (dependencies task.depends_on)

-- the ready ones among the subtasks, the first of which has the number `i`
unfoldable pub ready_from : List String → ℕ → List PlannedTask → List ℕ
ready_from done i [] = []
ready_from done i (task ∷ tasks) =
    let rest = ready_from done (suc i) tasks in if is_ready done i task then i ∷ rest else rest

abbrev pub or_single : List ℕ → ℕ → List ℕ
or_single [] i = i ∷ []
or_single (b ∷ batch) i = b ∷ batch

abbrev pub has_deps : List PlannedTask → Bool
has_deps tasks = any (λ t. is_some t.depends_on) tasks

unfoldable pub get_parallel_batch : List PlannedTask → ℕ → List TaskResult → List ℕ
unfolding completed_ids is_ready ready_from
get_parallel_batch tasks idx results =
    if not (has_deps tasks)
    then idx ∷ []
    else or_single (ready_from (completed_ids results) idx (drop idx tasks)) idx

-- the largest number of a list, or `n`
abbrev pub max_from : ℕ → List ℕ → ℕ
max_from n [] = n
max_from n (b ∷ batch) = max_from (if ltb n b then b else n) batch

pub record Progress : Type 0 where
  pub current_task_index : ℕ
  pub task_results : List TaskResult

-- more than one subtask runs side by side; otherwise the current one runs
abbrev pub chosen : ℕ → List ℕ → List ℕ
chosen idx [] = idx ∷ []
chosen idx (b ∷ []) = idx ∷ []
chosen idx (a ∷ b ∷ batch) = a ∷ b ∷ batch

module _ (perform : ℕ → List TaskResult → TaskResult) (tasks : List PlannedTask) where
  -- the numbers of the subtasks that a round executes
  unfoldable pub executes : Progress → List ℕ
  executes s =
      if leb (length tasks) s.current_task_index
      then []
      else chosen s.current_task_index
          (get_parallel_batch tasks s.current_task_index s.task_results)

  -- the state behind a round that executes these
  abbrev pub advanced : Progress → List ℕ → Progress
  advanced s [] = s
  advanced s (b ∷ batch) = record {
    current_task_index = suc (max_from b batch);
    task_results = s.task_results ++ map (λ i. perform i s.task_results) (b ∷ batch);
  }

  unfoldable pub run : Progress → Progress
  run s = advanced s (executes s)

  -- the subtasks that some rounds execute, in order
  unfoldable pub rounds : ℕ → Progress → List ℕ
  rounds zero s = []
  rounds (suc n) s = executes s ++ rounds n (run s)

  -- the state behind some rounds
  unfoldable pub after_rounds : ℕ → Progress → Progress
  after_rounds zero s = s
  after_rounds (suc n) s = after_rounds n (run s)
