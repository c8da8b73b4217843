-- ===== src/Tasks/Api/Queueing.antt =====
-- What the endpoints of app/api/v1/tasks.py that hand a task to the worker do: `resume` and `retry`.
use ai_agent_task_assistant.Common.{
  ℕ, String, ◌≡◌, refl, ◌∙◌, true, Option, none, some, [], ◌∷◌, eq_refl,
}
use ai_agent_task_assistant.Tools.Security.{ToolContext}
use ai_agent_task_assistant.Queue.{InMemoryTaskQueue, full, enqueue}
use ai_agent_task_assistant.Queue.Message.{TaskMessage}
use ai_agent_task_assistant.Tasks.Model.{TaskStatus, planning, restartable, Task}
use ai_agent_task_assistant.Tasks.Control.{clear}
use ai_agent_task_assistant.Tasks.Repository.{Repo, get, update}
use ai_agent_task_assistant.Tasks.Service.{get_task, update_task_status}
use ai_agent_task_assistant.Tasks.Service.Keyed.{IsKeyed, get-update}
use ai_agent_task_assistant.Tasks.Service.Retry.{reset_task, reset_task_for_retry}
use ai_agent_task_assistant.Tasks.Api.{
  Server, Clock, queue_unavailable, returned, raised, can_access_task, send, message_for,
}
use ai_agent_task_assistant.Tasks.Api.Handlers.{
  to_task_response, respond, resumable, resume_task, in_range, number_or_null, retry_task,
}
use ai_agent_task_assistant.Tasks.Api.Access.{accessible_task-granted, require_ready-open}

-- the task that `set_status` leaves
abbrev pub moved : Clock → TaskStatus → Task → Task
moved clock status task = record task { status = status; updated_at = clock.second }

pub update_task_status-there :
    (repo : Repo) (clock : Clock) (task_id : String) (status : TaskStatus) (task : Task)
    → get repo task_id ≡ some task
    → (update_task_status repo clock.second task_id status []).1
      ≡ update repo (moved clock status task)
unfolding update_task_status
update_task_status-there repo clock task_id status task e = rw e refl

pub send-taken :
    (m : TaskMessage) (s : Server) (q : InMemoryTaskQueue)
    → enqueue s.queue m ≡ some q
    → send m s ≡ (returned tt, record s { queue = q })
unfolding send
send-taken m s q e = rw e refl

respond-there :
    (task_id : String) (s : Server) (task : Task)
    → get s.repo task_id ≡ some task
    → respond task_id s ≡ (returned (to_task_response task), s)
unfolding respond get_task
respond-there task_id s task e = rw e refl

pub get-moved :
    (repo : Repo) (task_id : String) (task task' : Task)
    → task.id ≡ task_id
    → task'.id ≡ task.id
    → get (update repo task') task_id ≡ some task'
get-moved repo task_id task task' e f =
    rw (get-update repo task' task_id, f ∙ e, eq_refl task_id) refl

module _ (clock : Clock) (task_id : String) (user : ToolContext) (s : Server) (task : Task) where
  -- what `resume` and `retry` ask of the task and of the server
  abbrev pub IsOpen : Type 0
  IsOpen =
      (s.ready ≡ true)
      × IsKeyed s.repo
      × (get s.repo task_id ≡ some task)
      × (can_access_task task user ≡ true)

  -- what `resume` leaves
  abbrev pub resumed : InMemoryTaskQueue → Server
  resumed q = record {
    repo = update s.repo (moved clock planning task);
    control = clear s.control task_id;
    queue = q;
    ready = s.ready;
  }

  -- On a ready server whose tasks stand under their own identifiers, and where the queue takes
  -- the message, `resume` of an accessible task in a resumable status clears its control
  -- requests, adds exactly its message, sets the stored status to planning, and answers with
  -- the changed task.
  pub resume_task-runs :
      (q : InMemoryTaskQueue)
      → IsOpen
      → resumable task.status ≡ true
      → enqueue s.queue (message_for clock user task_id task "execute" none) ≡ some q
      → (resume_task clock task_id user s
          ≡ (returned (to_task_response (moved clock planning task)), resumed q))
        × (get (resumed q).repo task_id ≡ some (moved clock planning task))
  unfolding resume_task
  resume_task-runs q (ready, keyed, there, access) fits taken =
      let after : get (resumed q).repo task_id ≡ some (moved clock planning task) =
        get-moved s.repo task_id task (moved clock planning task) (keyed.at task_id task there)
          refl in
      (
        rw
            (
              require_ready-open s ready,
              accessible_task-granted user task_id s task there access,
              fits,
              send-taken _ (record s { control = clear s.control task_id }) q taken,
              update_task_status-there s.repo clock task_id planning task there,
              respond-there task_id (resumed q) (moved clock planning task) after,
            )
            refl,
        after,
      )

  -- what is left where the queue refuses the message of `resume`
  abbrev pub unblocked : Server
  unblocked = record s { control = clear s.control task_id }

  -- On a ready server whose tasks stand under their own identifiers, and where the queue is
  -- full, `resume` of an accessible task in a resumable status answers 503; the repository and
  -- the queue are unchanged, but the task's control requests are cleared already.
  pub resume_task-full :
      IsOpen
      → resumable task.status ≡ true
      → full s.queue ≡ true
      → resume_task clock task_id user s ≡ (raised queue_unavailable, unblocked)
  unfolding resume_task send enqueue
  resume_task-full (ready, _, there, access) fits is_full =
      rw
        (
          require_ready-open s ready,
          accessible_task-granted user task_id s task there access,
          fits,
          is_full,
        )
        refl

  -- the task as `retry` resets it
  abbrev pub renewed_task : Option ℕ → Task
  renewed_task from_index = reset_task from_index clock.first task

  abbrev pub retry_message : Option ℕ → TaskMessage
  retry_message from_index =
      message_for clock user task_id task "execute"
        (some (("retry_from_index", number_or_null from_index) ∷ []))

  -- what `retry` leaves where the queue refuses its message
  abbrev pub wiped : Option ℕ → Server
  wiped from_index = record s {
    repo = update s.repo (renewed_task from_index);
    control = clear s.control task_id;
  }

  -- what `retry` leaves where the queue takes its message
  abbrev pub retried : Option ℕ → InMemoryTaskQueue → Server
  retried from_index q = record (wiped from_index) {
    repo = update (wiped from_index).repo (moved clock planning (renewed_task from_index));
    queue = q;
  }

  reset-there :
      (from_index : Option ℕ)
      → get s.repo task_id ≡ some task
      → (reset_task_for_retry s.repo clock.first task_id from_index).1
        ≡ update s.repo (renewed_task from_index)
  unfolding reset_task_for_retry
  reset-there from_index there = rw there refl

  -- On a ready server whose tasks stand under their own identifiers, and where the queue takes
  -- the message, `retry` of an accessible task in a restartable status, from an index that is
  -- one of its subtasks or from none, resets the stored task, clears its control requests,
  -- adds exactly its message, which carries the index, and leaves the reset task in the status
  -- planning.
  pub retry_task-runs :
      (from_index : Option ℕ) (q : InMemoryTaskQueue)
      → IsOpen
      → restartable task.status ≡ true
      → in_range from_index task ≡ true
      → enqueue s.queue (retry_message from_index) ≡ some q
      → (retry_task clock task_id from_index user s ≡ (
        returned (to_task_response (moved clock planning (renewed_task from_index))),
        retried from_index q,
      ))
        × (get (retried from_index q).repo task_id
            ≡ some (moved clock planning (renewed_task from_index)))
  unfolding retry_task
  retry_task-runs from_index q (ready, keyed, there, access) fits inside taken =
      let named : task.id ≡ task_id = keyed.at task_id task there in
      let reset = get-moved s.repo task_id task (renewed_task from_index) named refl in
      let after =
        get-moved (wiped from_index).repo task_id (renewed_task from_index)
          (moved clock planning (renewed_task from_index)) named refl in
      (
        rw
            (
              require_ready-open s ready,
              accessible_task-granted user task_id s task there access,
              fits,
              inside,
              reset-there from_index there,
              send-taken _ (wiped from_index) q taken,
              update_task_status-there (wiped from_index).repo clock task_id planning
                  (renewed_task from_index) reset,
              respond-there task_id (retried from_index q)
                  (moved clock planning (renewed_task from_index)) after,
            )
            refl,
        after,
      )

  -- On a ready server whose tasks stand under their own identifiers, and where the queue is
  -- full, `retry` of an accessible task in a restartable status, from an index that is one of
  -- its subtasks or from none, answers 503 after it has reset the stored task and cleared its
  -- control requests, while its status and the queue stay as they were.
  pub retry_task-full :
      (from_index : Option ℕ)
      → IsOpen
      → restartable task.status ≡ true
      → in_range from_index task ≡ true
      → full s.queue ≡ true
      → (retry_task clock task_id from_index user s ≡ (raised queue_unavailable, wiped from_index))
        × (get (wiped from_index).repo task_id ≡ some (renewed_task from_index))
        × ((renewed_task from_index).status ≡ task.status)
  unfolding retry_task send enqueue
  retry_task-full from_index (ready, keyed, there, access) fits inside is_full = (
    rw
        (
          require_ready-open s ready,
          accessible_task-granted user task_id s task there access,
          fits,
          inside,
          reset-there from_index there,
          is_full,
        )
        refl,
    get-moved s.repo task_id task (renewed_task from_index) (keyed.at task_id task there) refl,
    refl,
  )
