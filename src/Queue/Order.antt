-- ===== src/Queue/Order.antt =====
-- What traffic over the queue of app/queue/memory_queue.py keeps: its bound and its order.
use ai_agent_task_assistant.Common.{
  ℕ, ◌≤◌, ◌<◌, ◌≡◌, ◌↔◌, Option, none, some, List, [], ◌∷◌, ◌++◌, length, length-append, append-nil,
  append_assoc, arith, Option-cases, inl, inr, sym, ap, ◌∙◌,
}
use ai_agent_task_assistant.Queue.{InMemoryTaskQueue, full, enqueue, dequeue}
use ai_agent_task_assistant.Queue.Message.{TaskMessage}

pub data Event : Type 0 where
  put : TaskMessage → Event
  serve : Event

-- the queue, the messages it accepted so far and those it handed out, in order
pub record Traffic : Type 0 where
  pub queue : InMemoryTaskQueue
  pub accepted : List TaskMessage
  pub delivered : List TaskMessage

abbrev listed : Option TaskMessage → List TaskMessage
listed none = []
listed (some m) = m ∷ []

put_result : Traffic → TaskMessage → Option InMemoryTaskQueue → Traffic
put_result t m none = t
put_result t m (some q) = record t { queue = q; accepted = t.accepted ++ (m ∷ []) }

serve_result : Traffic → Option TaskMessage × InMemoryTaskQueue → Traffic
serve_result t (m, q) = record t { queue = q; delivered = t.delivered ++ listed m }

unfoldable pub step : Traffic → Event → Traffic
unfolding put_result serve_result
step t (put m) = put_result t m (enqueue t.queue m)
step t serve = serve_result t (dequeue t.queue)

unfoldable pub run : Traffic → List Event → Traffic
run t [] = t
run t (e ∷ es) = run (step t e) es

abbrev pub IsWithin : InMemoryTaskQueue → Type 0
IsWithin q = 0 < q.maxsize → length q.messages ≤ q.maxsize

-- An enqueueing is refused exactly where the queue has a bound and holds that many messages.
pub enqueue-eq-none_iff :
    (q : InMemoryTaskQueue) (m : TaskMessage)
    → (enqueue q m ≡ none) ↔ ((0 < q.maxsize) × (q.maxsize ≤ length q.messages))
unfolding enqueue full
enqueue-eq-none_iff q m = ground arith

enqueue-accepts :
    (q q' : InMemoryTaskQueue) (m : TaskMessage)
    → enqueue q m ≡ some q'
    → (q'.maxsize ≡ q.maxsize) × (q'.messages ≡ q.messages ++ (m ∷ [])) × (IsWithin q → IsWithin q')
unfolding enqueue full
enqueue-accepts q q' m e = ground (arith, length-append q.messages (m ∷ []))

-- what holds between two moments of the traffic on a queue that held `start`
record IsOrdered (start : List TaskMessage) (t : Traffic) : Type 0 where
  order : t.delivered ++ t.queue.messages ≡ start ++ t.accepted
  within : IsWithin t.queue

accepted-IsOrdered :
    (start : List TaskMessage) (t : Traffic) (m : TaskMessage) (q : InMemoryTaskQueue)
    → IsOrdered start t
    → enqueue t.queue m ≡ some q
    → IsOrdered start (put_result t m (some q))
unfolding put_result
accepted-IsOrdered start t m q h taken =
    let (same, grown, bound) = enqueue-accepts t.queue q m taken in
    record {
      order =
          ap (λ ms. t.delivered ++ ms) grown
          ∙ sym (append_assoc t.delivered t.queue.messages (m ∷ []))
          ∙ ap (λ ms. ms ++ (m ∷ [])) h.order
          ∙ append_assoc start t.accepted (m ∷ []);
      within = bound h.within;
    }

put-IsOrdered :
    (start : List TaskMessage) (t : Traffic) (m : TaskMessage)
    → IsOrdered start t
    → IsOrdered start (step t (put m))
unfolding step
put-IsOrdered start t m h = elim (Option-cases (enqueue t.queue m)) [
  | inl refused ↦ rw refused h
  | inr (q, taken) ↦ rw taken (accepted-IsOrdered start t m q h taken)
]

serve_parts :
    (start : List TaskMessage) (n : ℕ) (ms accepted delivered : List TaskMessage)
    → let t : Traffic = record {
      queue = record { maxsize = n; messages = ms };
      accepted = accepted;
      delivered = delivered;
    } in
      IsOrdered start t → IsOrdered start (step t serve)
unfolding step dequeue serve_result
serve_parts start n [] accepted delivered h = record {
  order = ap (λ ms. ms ++ []) (append-nil delivered) ∙ h.order;
  within = h.within;
}
serve_parts start n (m ∷ ms) accepted delivered h = record {
  order = append_assoc delivered (m ∷ []) ms ∙ h.order;
  within = λ p. omega (arith, h.within p);
}

serve-IsOrdered :
    (start : List TaskMessage) (t : Traffic) → IsOrdered start t → IsOrdered start (step t serve)
serve-IsOrdered start t h =
    serve_parts start t.queue.maxsize t.queue.messages t.accepted t.delivered h

run-IsOrdered :
    (start : List TaskMessage) (es : List Event) (t : Traffic)
    → IsOrdered start t
    → IsOrdered start (run t es)
unfolding run
run-IsOrdered start [] t h = h
run-IsOrdered start (put m ∷ es) t h =
    run-IsOrdered start es (step t (put m)) (put-IsOrdered start t m h)
run-IsOrdered start (serve ∷ es) t h =
    run-IsOrdered start es (step t serve) (serve-IsOrdered start t h)

abbrev pub opening : InMemoryTaskQueue → Traffic
opening q = record { queue = q; accepted = []; delivered = [] }

-- Whatever enqueueings and dequeueings follow on a queue within its bound: what was handed out,
-- followed by what still waits, is what the queue held at the start followed by what it accepted,
-- in that order; and the queue is still within its bound.
pub run_in_order :
    (q : InMemoryTaskQueue) (es : List Event)
    → IsWithin q
    → let t = run (opening q) es in
      (t.delivered ++ t.queue.messages ≡ q.messages ++ t.accepted) × IsWithin t.queue
run_in_order q es h =
    let done : IsOrdered q.messages (run (opening q) es) =
      run-IsOrdered q.messages es (opening q)
        (record { order = sym (append-nil q.messages); within = h }) in
    (done.order, done.within)
