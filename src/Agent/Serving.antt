-- ===== src/Agent/Serving.antt =====
-- The loop of app/worker.py against the messages of its queue.
use ai_agent_task_assistant.Common.{
  ℕ, ◌≡◌, refl, ap, inl, inr, Bool, true, false, eq_refl, Bool-cases, Option-cases, Option, none,
  some, ◌==◌, String, Dict, Value, List, [], ◌∷◌, length, drop,
}
use ai_agent_task_assistant.Queue.{dequeue}
use ai_agent_task_assistant.Queue.Message.{TaskMessage}
use ai_agent_task_assistant.Queue.Message.{to_tool_context}
use ai_agent_task_assistant.Tools.Security.{ToolContext}
use ai_agent_task_assistant.Tasks.Model.{planning, Task}
use ai_agent_task_assistant.Tasks.Service.{get_task, update_task_status}
use ai_agent_task_assistant.Tasks.Service.Keyed.{get-update}
use ai_agent_task_assistant.Tasks.Repository.{get}
use ai_agent_task_assistant.Agent.Events.{Failure, Shared}
use ai_agent_task_assistant.Agent.Service.{
  Result, value, raises, World, Settings, Run, begun, once_built, with_recalled, opened,
  recall_memory, continued, where_found, run_task, resume_approval,
}
use ai_agent_task_assistant.Agent.Worker.{
  left_by, dispatch, decision_of, retry_index, execute, process_one, run,
}

-- the messages one after the other, each in its world
unfoldable pub execute_all : Settings → List World → List TaskMessage → Shared → Shared
execute_all settings [] messages s = s
execute_all settings (world ∷ worlds) [] s = s
execute_all settings (world ∷ worlds) (m ∷ messages) s =
    execute_all settings worlds messages (execute settings world s m)

module _ (settings : Settings) where
  run-idle :
      (worlds : List World) (maxsize : ℕ) (s : Shared)
      → run settings worlds
          (record { queue = record { maxsize = maxsize; messages = [] }; shared = s })
        ≡ record { queue = record { maxsize = maxsize; messages = [] }; shared = s }
  unfolding run process_one dequeue
  run-idle [] maxsize s = refl
  run-idle (world ∷ worlds) maxsize s = run-idle worlds maxsize s

  -- The rounds of the worker execute the waiting messages one after the other, from the oldest on,
  -- each once, whatever the runs raise; what the rounds do not reach keeps waiting in its order.
  pub run-execute_all :
      (worlds : List World) (messages : List TaskMessage) (maxsize : ℕ) (s : Shared)
      → run settings worlds
          (record { queue = record { maxsize = maxsize; messages = messages }; shared = s })
        ≡ record {
          queue = record { maxsize = maxsize; messages = drop (length worlds) messages };
          shared = execute_all settings worlds messages s;
        }
  unfolding run process_one dequeue execute_all
  run-execute_all [] messages maxsize s = refl
  run-execute_all (world ∷ worlds) [] maxsize s = run-idle worlds maxsize s
  run-execute_all (world ∷ worlds) (m ∷ messages) maxsize s =
      run-execute_all worlds messages maxsize (execute settings world s m)

  once_built-raises :
      (world : World) (task_id : String) (caller : ToolContext) (s : Shared) (run : Run)
      (workflow : Result Bool) (failure : Failure)
      → workflow ≡ raises failure
      → left_by (once_built settings world task_id caller workflow s run) ≡ s
  once_built-raises world task_id caller s run (raises f) failure e = refl
  once_built-raises world task_id caller s run (value b) failure e = absurd (cc e)

  where_found-raises :
      (world : World) (task_id : String) (caller : ToolContext) (s : Shared) (task : Option Task)
      (decision : Dict Value) (failure : Failure)
      → world.workflow ≡ raises failure
      → left_by (where_found settings world task_id caller task s decision) ≡ s
  where_found-raises world task_id caller s none decision failure e = refl
  where_found-raises world task_id caller s (some task) decision failure e =
      once_built-raises world task_id caller s
        (continued settings world task_id caller s decision task) world.workflow failure e

  dispatch-unbuilt :
      (world : World) (m : TaskMessage) (s : Shared) (caller : ToolContext) (failure : Failure)
      → world.workflow ≡ raises failure
      → left_by (dispatch settings world s m caller) ≡ s
  unfolding run_task resume_approval
  dispatch-unbuilt world m s caller failure e = elim (Bool-cases (m.action == "approval_resume")) [
    | inl resume ↦
        rw (resume, dispatch)
          (where_found-raises world m.task_id caller s (get_task s.repo m.task_id)
            (decision_of m.payload) failure e)
    | inr start ↦
        rw (start, dispatch)
          (once_built-raises world m.task_id caller s
            (begun settings world m.task_id caller s m.goal m.context (retry_index m.payload))
            world.workflow failure e)
  ]

  executed-unbuilt :
      (world : World) (m : TaskMessage) (s : Shared) (failure : Failure)
      → world.workflow ≡ raises failure
      → execute settings world s m ≡ s
  unfolding execute
  executed-unbuilt world m s failure e = elim (Option-cases (to_tool_context world.render m)) [
    | inl unknown ↦ rw (unknown, execute) refl
    | inr (caller, known) ↦ rw (known, execute) (dispatch-unbuilt world m s caller failure e)
  ]

  -- Where the graph cannot be built, the oldest message is taken from the queue, whatever it asks for,
  -- and nothing else happens: every task keeps its status, and the message is gone.
  pub process_one-unbuilt :
      (world : World) (maxsize : ℕ) (m : TaskMessage) (messages : List TaskMessage) (s : Shared)
      (failure : Failure)
      → world.workflow ≡ raises failure
      → process_one settings world
          (record { queue = record { maxsize = maxsize; messages = m ∷ messages }; shared = s })
        ≡ (true, record { queue = record { maxsize = maxsize; messages = messages }; shared = s })
  unfolding process_one dequeue
  process_one-unbuilt world maxsize m messages s failure e =
      ap
        (λ left. (
          true,
          record { queue = record { maxsize = maxsize; messages = messages }; shared = left },
        ))
        (executed-unbuilt world m s failure e)

  -- what the service leaves where the memory cannot be made
  abbrev pub stuck : World → TaskMessage → ToolContext → Shared → Shared
  stuck world m caller s = opened settings world m.task_id caller s (retry_index m.payload)

  recall-raises :
      (world : World) (failure : Failure)
      → settings.enable_long_term_memory ≡ true
      → world.memory ≡ raises failure
      → recall_memory settings world.memory world.recalled ≡ raises failure
  unfolding recall_memory
  recall-raises world failure on unmade = rw (on, unmade) refl

  executed-unrecalled :
      (world : World) (m : TaskMessage) (s : Shared) (failure : Failure) (built : Bool)
      (caller : ToolContext)
      → recall_memory settings world.memory world.recalled ≡ raises failure
      → world.workflow ≡ value built
      → (m.action == "approval_resume") ≡ false
      → to_tool_context world.render m ≡ some caller
      → execute settings world s m ≡ stuck world m caller s
  unfolding execute run_task
  executed-unrecalled world m s failure built caller recall builds fresh known =
      rw (known, execute, fresh, dispatch, builds, once_built, recall, with_recalled) refl

  -- Where the graph can be built, but not the long-term memory, which is on, the oldest message, which
  -- has a caller and asks for a run from the start, is taken from the queue; its task, where it is
  -- stored under its identifier, stays in the status planning, and no run of it is left.
  process_one-unrecalled :
      (world : World) (maxsize : ℕ) (m : TaskMessage) (messages : List TaskMessage) (s : Shared)
      (failure : Failure) (built : Bool) (caller : ToolContext) (t : Task)
      → settings.enable_long_term_memory ≡ true
      → world.workflow ≡ value built
      → world.memory ≡ raises failure
      → (m.action == "approval_resume") ≡ false
      → to_tool_context world.render m ≡ some caller
      → get s.repo m.task_id ≡ some t
      → t.id ≡ m.task_id
      → (process_one settings world
            (record { queue = record { maxsize = maxsize; messages = m ∷ messages }; shared = s })
          ≡ (
            true,
            record {
              queue = record { maxsize = maxsize; messages = messages };
              shared = stuck world m caller s;
            },
          ))
        × (get (stuck world m caller s).repo m.task_id
            ≡ some (record t { status = planning; updated_at = world.started_at }))
  unfolding process_one dequeue update_task_status
  process_one-unrecalled world maxsize m messages s failure built caller t on builds unmade fresh
        known there named =
      (
        ap
            (λ left. (
              true,
              record { queue = record { maxsize = maxsize; messages = messages }; shared = left },
            ))
            (executed-unrecalled world m s failure built caller
              (recall-raises world failure on unmade) builds fresh known),
        rw (there, get-update, named, eq_refl m.task_id) refl,
      )
