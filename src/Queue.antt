-- ===== src/Queue.antt =====
-- app/queue/memory_queue.py: `InMemoryTaskQueue`, the queue of tasks within one process. The queue
-- over Redis is calls of that library. A `dequeue` that waits until its timeout is over is one that
-- finds the queue empty.
pub mod Message
pub mod Order
use ai_agent_task_assistant.Common.{
  ℕ, zero, suc, Bool, true, false, ◌&&◌, Option, none, some, List, [], ◌∷◌, ◌++◌, length, ltb, leb,
  if◌then◌else◌,
}
use ai_agent_task_assistant.Queue.Message.{TaskMessage}

pub record InMemoryTaskQueue : Type 0 where
  pub maxsize : ℕ
  pub messages : List TaskMessage

-- asyncio's `full()`: a queue of size 0 has no bound
unfoldable pub full : InMemoryTaskQueue → Bool
full q = ltb 0 q.maxsize && leb q.maxsize (length q.messages)

-- `none` is `QueueFullError`
unfoldable pub enqueue : InMemoryTaskQueue → TaskMessage → Option InMemoryTaskQueue
enqueue q message =
    if full q then none else some (record q { messages = q.messages ++ (message ∷ []) })

unfoldable pub dequeue : InMemoryTaskQueue → Option TaskMessage × InMemoryTaskQueue
dequeue q = elim q.messages [
  | [] ↦ (none, q)
  | message ∷ messages ↦ (some message, record q { messages = messages })
]

unfoldable pub size : InMemoryTaskQueue → ℕ
size q = length q.messages
