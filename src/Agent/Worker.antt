-- ===== src/Agent/Worker.antt =====
-- app/worker.py: `QueueWorker`, which takes messages from the queue and has `AgentService` run their
-- tasks, one at a time. Each round of the loop has its own world. The signals and the tasks of asyncio
-- around the loop are left out.
use ai_agent_task_assistant.Common.{
  ℕ, Bool, true, false, Option, none, some, List, [], ◌∷◌, Dict, lookup, Value, number, ◌==◌,
  if◌then◌else◌,
}
use ai_agent_task_assistant.Tools.Security.{ToolContext}
use ai_agent_task_assistant.Queue.{InMemoryTaskQueue, dequeue}
use ai_agent_task_assistant.Queue.Message.{TaskMessage, to_tool_context}
use ai_agent_task_assistant.Agent.Events.{Shared}
use ai_agent_task_assistant.Agent.Service.{
  World, Settings, Run, returned, raised, run_task, resume_approval,
}

-- the index that the endpoint put into the payload; a value that is no number, which Python would
-- pass on, is outside of the model
abbrev index_of : Option Value → Option ℕ
index_of (some (number n)) = some n
index_of _ = none

abbrev pub retry_index : Option (Dict Value) → Option ℕ
retry_index none = none
retry_index (some payload) = index_of (lookup "retry_from_index" payload)

abbrev pub decision_of : Option (Dict Value) → Dict Value
decision_of none = []
decision_of (some payload) = payload

-- what is left of a run, also where an exception got out of it
abbrev pub left_by : Run → Shared
left_by (returned s result remembered) = s
left_by (raised s) = s

pub record Worker : Type 0 where
  pub queue : InMemoryTaskQueue
  pub shared : Shared

module _ (settings : Settings) where
  abbrev pub dispatch : World → Shared → TaskMessage → ToolContext → Run
  dispatch world s msg caller =
      if msg.action == "approval_resume"
      then resume_approval settings world msg.task_id caller s (decision_of msg.payload)
      else run_task settings world msg.task_id caller s msg.goal msg.context
          (retry_index msg.payload)

  -- `_execute`: without an identity the exception ends the task's run as any other
  unfoldable pub execute : World → Shared → TaskMessage → Shared
  execute world s msg = elim (to_tool_context world.render msg) [
    | none ↦ s
    | some caller ↦ left_by (dispatch world s msg caller)
  ]

  abbrev handled : World → Shared → Option TaskMessage → Bool × Shared
  handled world s none = (false, s)
  handled world s (some msg) = (true, execute world s msg)

  unfoldable pub process_one : World → Worker → Bool × Worker
  process_one world w =
      let (msg, queue) = dequeue w.queue in
      let (served, s) = handled world w.shared msg in (served, record { queue = queue; shared = s })

  -- `run`, until the worker is stopped: one world for each round
  unfoldable pub run : List World → Worker → Worker
  run [] w = w
  run (world ∷ worlds) w = run worlds (process_one world w).1
