-- ===== src/Agent/Stops.antt =====
-- Pauses and cancellations of a run of app/services/agent_service.py, against the requests of
-- app/services/task_control.py.
use ai_agent_task_assistant.Common.{
  String, ◌≡◌, refl, ap, ◌∙◌, inl, inr, Option, none, some, List, [], ◌∷◌,
}
use ai_agent_task_assistant.Tools.Security.{ToolContext}
use ai_agent_task_assistant.Tasks.Model.{TaskStatus, paused, cancelled, Task}
use ai_agent_task_assistant.Tasks.Repository.{get}
use ai_agent_task_assistant.Tasks.Control.{TaskControlService, Request, apply}
use ai_agent_task_assistant.Tasks.Control.Requests.{
  Wish, nothing, to_pause, to_cancel, wish_step, Shows, wish_after, apply-Shows,
}
use ai_agent_task_assistant.Tasks.Service.Keyed.{Keeps}
use ai_agent_task_assistant.Tasks.Service.Reach.{Keeps-trans}
use ai_agent_task_assistant.Workflow.Graph.{Node}
use ai_agent_task_assistant.Agent.Events.{
  NodeOutput, Entry, output, Boundary, Stream, ended, yields, StopReason, stop_at, requested,
  Shared, Reading, exhausted, stopped, approval_of, passed, read_entries, read_event, read_stream,
}
use ai_agent_task_assistant.Agent.Service.{World, Settings, finish, others_changed}
use ai_agent_task_assistant.Agent.Worker.{left_by}
use ai_agent_task_assistant.Agent.Identity.{
  IsQuiet, IsQuietStream, shared_of, Reading-cases, passed-Keeps, read_stream-Keeps,
}
use ai_agent_task_assistant.Agent.Ending.{IsIn, with_status, set-get}

-- the events of the first nodes, and the stream behind them
abbrev pub events : List (List (Boundary × Entry)) → Stream → Stream
events [] stream = stream
events (e ∷ es) stream = yields e (events es stream)

-- the reason that a wish gives to stop
abbrev pub reason_of : Wish → Option StopReason
reason_of nothing = none
reason_of to_pause = some StopReason.paused
reason_of to_cancel = some StopReason.cancelled

requested-Shows :
    (rs : List Request) (c : TaskControlService) (task_id : String) (w : Wish)
    → Shows c task_id w
    → Shows (requested rs c) task_id (wish_after rs task_id w)
requested-Shows [] c task_id w h = h
requested-Shows (r ∷ rs) c task_id w h =
    requested-Shows rs (apply c r) task_id (wish_step r task_id w) (apply-Shows c r task_id w h)

stop_at-wish :
    (c : TaskControlService) (task_id : String) (w : Wish)
    → Shows c task_id w
    → stop_at c task_id ≡ reason_of w
unfolding stop_at
stop_at-wish c task_id nothing h = rw (h.pauses, h.cancels) refl
stop_at-wish c task_id to_pause h = rw (h.pauses, h.cancels) refl
stop_at-wish c task_id to_cancel h = rw (h.pauses, h.cancels) refl

approval_of-output :
    (b : Boundary) (node : Node) (o : NodeOutput) (rest : List (Boundary × Entry))
    → approval_of ((b, output node o) ∷ rest) ≡ approval_of rest
unfolding approval_of
approval_of-output b node o rest = refl

module _ (task_id : String) where
  read_entries-stops :
      (b : Boundary) (node : Node) (o : NodeOutput) (rest : List (Boundary × Entry)) (s : Shared)
      (final : Option String) (reason : StopReason)
      → stop_at (requested b.requests s.control) task_id ≡ some reason
      → read_entries task_id s final ((b, output node o) ∷ rest)
        ≡ stopped reason (passed task_id b (output node o) s)
  unfolding read_entries
  read_entries-stops b node o rest s final reason stop = rw stop refl

  go_on : Stream → Reading → Reading
  go_on stream (exhausted s final) = read_stream task_id s final stream
  go_on stream r = r

  events-then :
      (before : List (List (Boundary × Entry))) (stream : Stream) (s s' : Shared)
      (final final' : Option String)
      → read_stream task_id s final (events before ended) ≡ exhausted s' final'
      → read_stream task_id s final (events before stream) ≡ read_stream task_id s' final' stream
  unfolding read_stream go_on
  events-then [] stream s s' final final' e = ap (go_on stream) e
  events-then (es ∷ before) stream s s' final final' e =
      elim (Reading-cases (read_event task_id (approval_of es) s final es)) [
        | inl (u, final'', r) ↦
            rw (r, read_stream)
              (events-then before stream u s' final'' final' (rw (r, read_stream) at e))
        | inr (inl (reason, u, r)) ↦ let e' = rw (r, read_stream) at e in absurd (cc e')
        | inr (inr (failure, u, r)) ↦ let e' = rw (r, read_stream) at e in absurd (cc e')
      ]

  read_stream-stops :
      (b : Boundary) (node : Node) (o : NodeOutput) (rest : List (Boundary × Entry))
      (stream : Stream) (s : Shared) (final : Option String) (w : Wish) (reason : StopReason)
      → approval_of rest ≡ none
      → Shows s.control task_id w
      → reason_of (wish_after b.requests task_id w) ≡ some reason
      → read_stream task_id s final (yields ((b, output node o) ∷ rest) stream)
        ≡ stopped reason (passed task_id b (output node o) s)
  unfolding read_stream
  read_stream-stops b node o rest stream s final w reason no_approval shows wish =
      let stop : stop_at (requested b.requests s.control) task_id ≡ some reason =
        stop_at-wish (requested b.requests s.control) task_id (wish_after b.requests task_id w)
          (requested-Shows b.requests s.control task_id w shows)
        ∙ wish in
      rw
        (
          approval_of-output b node o rest ∙ no_approval,
          read_entries-stops b node o rest s final reason stop,
          read_stream,
          read_event,
        )
        refl

-- the status that a stop leaves
abbrev pub status_of : Wish → TaskStatus
status_of to_pause = paused
status_of w = cancelled

module _ (settings : Settings) (world : World) (task_id : String) (caller : ToolContext) where
  finish-status :
      (goal : String) (s : Shared) (t : Task) (w : Wish) (reason : StopReason)
      → IsQuiet world.others
      → IsIn settings world task_id caller s t
      → reason_of w ≡ some reason
      → (t' : Task) × (get
            (left_by (finish settings world task_id caller goal (stopped reason s))).repo
            task_id
          ≡ some t')
        × (t'.status ≡ status_of w)
  unfolding finish
  finish-status goal s t to_pause StopReason.paused quiet (h, e) r =
      let k = quiet s.repo h in
      let (u, there, same) = k.kept task_id t e in
      (
        with_status settings world task_id caller paused [] u,
        set-get settings world task_id caller (others_changed settings world task_id caller s) u
            paused [] tt (k.keyed, there),
        refl,
      )
  finish-status goal s t to_cancel StopReason.cancelled quiet (h, e) r =
      let k = quiet s.repo h in
      let (u, there, same) = k.kept task_id t e in
      (
        with_status settings world task_id caller cancelled [] u,
        set-get settings world task_id caller (others_changed settings world task_id caller s) u
            cancelled [] tt (k.keyed, there),
        refl,
      )
  finish-status goal s t w reason quiet i r = absurd (cc r)

-- In a repository whose tasks stand under their own identifiers, where other callers keep the tasks
-- and their identity: where the first events of a run of a stored task are read to their end, and
-- the requests up to the boundary of the next node ask to pause or to cancel its task, that node is
-- the last one that is written back, whatever follows it, and the task is left paused or cancelled,
-- as the last of the requests says.
pub stops-at_wish :
    (settings : Settings) (world : World) (task_id : String) (caller : ToolContext) (goal : String)
    (before : List (List (Boundary × Entry))) (b : Boundary) (node : Node) (o : NodeOutput)
    (rest : List (Boundary × Entry)) (stream : Stream) (s s' : Shared) (final : Option String)
    (t : Task) (w : Wish) (reason : StopReason)
    → IsQuiet world.others
    → IsQuiet b.others
    → IsQuietStream (events before ended)
    → IsIn settings world task_id caller s t
    → read_stream task_id s none (events before ended) ≡ exhausted s' final
    → approval_of rest ≡ none
    → Shows s'.control task_id w
    → reason_of (wish_after b.requests task_id w) ≡ some reason
    → let run =
        read_stream task_id s none (events before (yields ((b, output node o) ∷ rest) stream)) in
      (run ≡ stopped reason (passed task_id b (output node o) s'))
      × ((t' : Task) × (get (left_by (finish settings world task_id caller goal run)).repo task_id
            ≡ some t')
          × (t'.status ≡ status_of (wish_after b.requests task_id w)))
stops-at_wish settings world task_id caller goal before b node o rest stream s s' final t w reason
      quiet quiet_node quiet_events (h, e) read no_approval shows wish =
    let kept : Keeps s.repo s'.repo =
      rw (read, shared_of) at
        (read_stream-Keeps task_id (events before ended) s none quiet_events h) in
    let node_kept = passed-Keeps task_id b (output node o) s' quiet_node kept.keyed in
    let k = Keeps-trans kept node_kept in
    let (u, there, same) = k.kept task_id t e in
    let stop =
      events-then task_id before (yields ((b, output node o) ∷ rest) stream) s s' none final read
      ∙ read_stream-stops task_id b node o rest stream s' final w reason no_approval shows wish in
    (
      stop,
      rw stop (
          finish-status settings world task_id caller goal (passed task_id b (output node o) s') u
            (wish_after b.requests task_id w) reason quiet (k.keyed, there) wish),
    )
