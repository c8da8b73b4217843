-- ===== src/Tasks/Api/Restarting.antt =====
-- What `retry` of app/api/v1/tasks.py leaves of a task, against a description of its own.
use ai_agent_task_assistant.Common.{
  ℕ, suc, ◌-◌, String, ◌≡◌, refl, ◌∙◌, ap, inl, inr, true, false, Bool-cases, Option, none, some,
  List, [], ◌∷◌, ◌++◌, map, take, drop, All, All-drop, Value, lookup, ltb, ◌==◌, arith,
}
use ai_agent_task_assistant.Tools.Security.{ToolContext}
use ai_agent_task_assistant.Queue.{InMemoryTaskQueue, full, enqueue}
use ai_agent_task_assistant.Queue.Message.{TaskMessage, to_tool_context, to_tool_context-to_dict}
use ai_agent_task_assistant.Tasks.Model.{pending, planning, restartable, TaskStatus, SubTask, Task}
use ai_agent_task_assistant.Tasks.Control.{should_pause, should_cancel}
use ai_agent_task_assistant.Tasks.Control.Requests.{clear-quiet}
use ai_agent_task_assistant.Tasks.Repository.{Repo, get, update}
use ai_agent_task_assistant.Tasks.Service.Keyed.{SameIdentity, get-update}
use ai_agent_task_assistant.Tasks.Service.Retry.{reset_subtasks}
use ai_agent_task_assistant.Tasks.Api.{Server, Clock, queue_unavailable, returned, raised}
use ai_agent_task_assistant.Tasks.Api.Handlers.{
  to_task_response, in_range, number_or_null, retry_task,
}
use ai_agent_task_assistant.Tasks.Api.Queueing.{
  IsOpen, moved, renewed_task, wiped, retried, retry_message, retry_task-runs, retry_task-full,
}
use ai_agent_task_assistant.Agent.Worker.{retry_index}

-- a subtask that is to be executed again
pub record IsRenewed (s : SubTask) : Type 0 where
  pub waits : s.status ≡ pending
  pub result : s.result ≡ none
  pub error : s.error ≡ none
  pub tool_used : s.tool_used ≡ none

-- the index from which the subtasks are executed again
abbrev pub start_of : Option ℕ → ℕ
start_of none = 0
start_of (some from_index) = from_index

abbrev pub named : SubTask → String × String
named s = (s.id, s.description)

-- `t'` is `t` with the subtasks before `start` as they were, and no other results
pub record IsRestarted (start : ℕ) (t t' : Task) : Type 0 where
  pub same : SameIdentity t t'
  pub final_result : t'.final_result ≡ none
  pub error : t'.error ≡ none
  pub reflection : t'.reflection ≡ none
  pub earlier : take start t'.subtasks ≡ take start t.subtasks
  pub later : All IsRenewed (drop start t'.subtasks)
  pub subtasks : map named t'.subtasks ≡ map named t.subtasks

record Parts (n : ℕ) (xs ys : List SubTask) : Type 0 where
  earlier : take n ys ≡ take n xs
  later : All IsRenewed (drop n ys)
  subtasks : map named ys ≡ map named xs

reset-Parts : (n i : ℕ) (xs : List SubTask) → Parts (n - i) xs (reset_subtasks (some n) i xs)
unfolding reset_subtasks
reset-Parts n i [] = record {
  earlier = refl;
  later = All-drop IsRenewed (n - i) [] tt;
  subtasks = refl;
}
reset-Parts n i (x ∷ xs) =
    let rest = reset-Parts n (suc i) xs in
    elim (Bool-cases (ltb i n)) [
      | inl before ↦
          let e : n - i ≡ suc (n - suc i) = ground (arith, before) in
          rw (before, e)
            (record {
              earlier = ap (λ zs. x ∷ zs) rest.earlier;
              later = rest.later;
              subtasks = ap (λ zs. named x ∷ zs) rest.subtasks;
            })
      | inr behind ↦
          let e : n - i ≡ 0 = ground (arith, behind) in
          let e' : n - suc i ≡ 0 = ground (arith, behind) in
          let rest' : Parts 0 xs (reset_subtasks (some n) (suc i) xs) = rw e' at rest in
          rw (behind, e)
            (record {
              earlier = refl;
              later = (
                record { waits = refl; result = refl; error = refl; tool_used = refl },
                rest'.later,
              );
              subtasks = ap (λ zs. named x ∷ zs) rest'.subtasks;
            })
    ]

reset-none : (i : ℕ) (xs : List SubTask) → reset_subtasks none i xs ≡ reset_subtasks (some 0) i xs
unfolding reset_subtasks
reset-none i [] = refl
reset-none i (x ∷ xs) = ground (arith, reset-none (suc i) xs)

reset-start :
    (from_index : Option ℕ) (xs : List SubTask)
    → Parts (start_of from_index) xs (reset_subtasks from_index 0 xs)
reset-start none xs = rw (reset-none 0 xs) (reset-Parts 0 0 xs)
reset-start (some n) xs =
    let e : n - 0 ≡ n = omega arith in let parts = reset-Parts n 0 xs in rw e at parts

-- the worker reads the message as a run of the task from that index, for the same caller
pub record IsRetry (key : String) (user : ToolContext) (task : Task) (from_index : Option ℕ)
    (m : TaskMessage) : Type 0 where
  pub task_id : m.task_id ≡ key
  pub goal : m.goal ≡ task.goal
  pub context : m.context ≡ task.context
  pub action : m.action ≡ "execute"
  pub index : retry_index m.payload ≡ from_index
  pub caller : (render : Value → String) → to_tool_context render m ≡ some user

index_read :
    (from_index : Option ℕ)
    → retry_index (some (("retry_from_index", number_or_null from_index) ∷ [])) ≡ from_index
unfolding lookup
index_read none = refl
index_read (some n) = refl

module _ (clock : Clock) (task_id : String) (user : ToolContext) (s : Server) (task : Task)
    (from_index : Option ℕ) where
  restarted :
      (status : TaskStatus) (now : String)
      → IsRestarted
          (start_of from_index)
          task
          (record (renewed_task clock task_id user s task from_index) {
            status = status;
            updated_at = now;
          })
  restarted status now =
      let parts = reset-start from_index task.subtasks in
      record {
        same = record { id = refl; goal = refl; owner = refl; tenant = refl; created = refl };
        final_result = refl;
        error = refl;
        reflection = refl;
        earlier = parts.earlier;
        later = parts.later;
        subtasks = parts.subtasks;
      }

  -- every other task is as it was
  abbrev pub IsElsewhere : Server → Type 0
  IsElsewhere s' = (k : String) → (task_id == k) ≡ false → get s'.repo k ≡ get s.repo k

  -- the task is asked neither to pause nor to stop
  abbrev pub IsUnasked : Server → Type 0
  IsUnasked s' =
      (should_pause s'.control task_id ≡ false) × (should_cancel s'.control task_id ≡ false)

  retry_message-IsRetry :
      IsRetry task_id user task from_index (retry_message clock task_id user s task from_index)
  retry_message-IsRetry = record {
    task_id = refl;
    goal = refl;
    context = refl;
    action = refl;
    index = index_read from_index;
    caller = λ render.
        to_tool_context-to_dict render (retry_message clock task_id user s task from_index) user
          refl;
  }

  enqueue-room :
      (q : InMemoryTaskQueue) (m : TaskMessage)
      → full q ≡ false
      → enqueue q m ≡ some (record q { messages = q.messages ++ (m ∷ []) })
  unfolding enqueue
  enqueue-room q m room = rw room refl

  get-elsewhere :
      (repo : Repo) (t : Task) (k : String)
      → t.id ≡ task_id
      → (task_id == k) ≡ false
      → get (update repo t) k ≡ get repo k
  get-elsewhere repo t k same other = rw (get-update repo t k, same, other) refl

  -- On a ready server whose tasks stand under their own identifiers, and whose queue is not full,
  -- `retry` of an accessible task in a restartable status, from an index that is one of its subtasks
  -- or from none, answers with the stored task: it has its identity, is planned, has no result, error
  -- or reflection, the subtasks before the index are as they were, and those behind it wait, without
  -- results. Every other task is as it was, the task's control requests are gone, and one message is
  -- added at the end of the queue, which the worker reads as a run from that index for the caller.
  pub retry_task-restarts :
      IsOpen clock task_id user s task
      → restartable task.status ≡ true
      → in_range from_index task ≡ true
      → full s.queue ≡ false
      → (t' : Task) × (s' : Server) × (retry_task clock task_id from_index user s
          ≡ (returned (to_task_response t'), s'))
        × (get s'.repo task_id ≡ some t')
        × (t'.status ≡ planning)
        × IsRestarted (start_of from_index) task t'
        × IsElsewhere s'
        × IsUnasked s'
        × ((m : TaskMessage) × (s'.queue.messages ≡ s.queue.messages ++ (m ∷ []))
            × IsRetry task_id user task from_index m)
  retry_task-restarts (ready, keyed, there, access) fits inside room =
      let t = renewed_task clock task_id user s task from_index in
      let named : t.id ≡ task_id = keyed.at task_id task there in
      let m = retry_message clock task_id user s task from_index in
      let q : InMemoryTaskQueue = record s.queue { messages = s.queue.messages ++ (m ∷ []) } in
      let (answer, stored) =
        retry_task-runs clock task_id user s task from_index q (ready, keyed, there, access) fits
          inside (enqueue-room s.queue m room) in
      (
        moved clock planning t,
        retried clock task_id user s task from_index q,
        answer,
        stored,
        refl,
        restarted planning clock.second,
        λ k other.
            get-elsewhere (update s.repo t) (moved clock planning t) k named other
            ∙ get-elsewhere s.repo t k named other,
        clear-quiet s.control task_id,
        (m, refl, retry_message-IsRetry),
      )

  -- On a ready server whose tasks stand under their own identifiers, and whose queue is full, `retry`
  -- of an accessible task in a restartable status, from an index that is one of its subtasks or from
  -- none, answers 503, with the task reset all the same: it keeps its status, but has no result, error
  -- or reflection, the subtasks before the index are as they were, and those behind it wait, without
  -- results. Its control requests are gone, every other task and the queue are as they were.
  pub retry_task-loses :
      IsOpen clock task_id user s task
      → restartable task.status ≡ true
      → in_range from_index task ≡ true
      → full s.queue ≡ true
      → (t' : Task) × (s' : Server) × (retry_task clock task_id from_index user s
          ≡ (raised queue_unavailable, s'))
        × (get s'.repo task_id ≡ some t')
        × (t'.status ≡ task.status)
        × IsRestarted (start_of from_index) task t'
        × IsElsewhere s'
        × IsUnasked s'
        × (s'.queue ≡ s.queue)
  retry_task-loses (ready, keyed, there, access) fits inside is_full =
      let t = renewed_task clock task_id user s task from_index in
      let (answer, stored, kept_status) =
        retry_task-full clock task_id user s task from_index (ready, keyed, there, access) fits
          inside is_full in
      (
        t,
        wiped clock task_id user s task from_index,
        answer,
        stored,
        kept_status,
        restarted task.status clock.first,
        λ k other. get-elsewhere s.repo t k (keyed.at task_id task there) other,
        clear-quiet s.control task_id,
        refl,
      )
