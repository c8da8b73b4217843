-- ===== src/Agent/Events.antt =====
-- app/services/agent_service.py: how `AgentService` follows the stream of events of the graph, one
-- node at a time. The stream is LangGraph's, and so an argument: the event of a step is its dict of
-- nodes and outputs, each with what happens before the node's boundary: the control requests that
-- arrive, the changes of other callers to the tasks, and the time. The trace and the logging are
-- left out.
use ai_agent_task_assistant.Common.{
  ℕ, String, Bool, false, Option, none, some, List, [], ◌∷◌, Dict, lookup, Value, str, ◌==◌,
  if◌then◌else◌,
}
use ai_agent_task_assistant.Tasks.Model.{
  TaskStatus, executing, reflecting, replanning, ReflectionResult,
}
use ai_agent_task_assistant.Tasks.Repository.{Repo}
use ai_agent_task_assistant.Tasks.Control.{
  TaskControlService, Request, apply, should_cancel, should_pause,
}
use ai_agent_task_assistant.Tasks.Service.{update_task_status}
use ai_agent_task_assistant.Tasks.Service.Sync.{
  RawPlan, RawResult, sync_plan, sync_task_results, sync_reflection, sync_execution_mode,
  sync_agent_results,
}
use ai_agent_task_assistant.Workflow.Graph.{
  Node, supervisor, sub_agents, reviewer, planner, executor, reflection, replanner,
}

-- what of a node's output the service reads; an empty text or list is falsy, as a missing one is
pub record NodeOutput : Type 0 where
  pub execution_mode : Option String
  pub agent_results : List Value
  pub plan : Option RawPlan
  pub task_results : List RawResult
  pub reflection_result : Option (Option ReflectionResult)
  pub iteration_count : Option ℕ
  pub should_replan : Bool
  pub final_result : Option String

-- an entry of an event: the output of a node, or, under `__interrupt__`, the payloads that are dicts
pub data Entry : Type 0 where
  output : Node → NodeOutput → Entry
  interrupts : List (Dict Value) → Entry

pub record Boundary : Type 0 where
  pub now : String
  pub requests : List Request
  pub others : Repo → Repo

-- an exception: an exhausted budget, or another one
pub data Failure : Type 0 where
  budget_exceeded other : String → Failure

pub data Stream : Type 0 where
  ended : Stream
  breaks : Failure → Stream
  yields : List (Boundary × Entry) → Stream → Stream

-- `if text:`
abbrev pub filled : Option String → Option String
filled none = none
filled (some s) = if s == "" then none else some s

abbrev pub sync_mode : Repo → String → String → Option String → Repo
sync_mode repo now task_id none = repo
sync_mode repo now task_id (some mode) = sync_execution_mode repo now task_id (some mode)

abbrev pub set_status : Repo → String → String → TaskStatus → Repo
set_status repo now task_id status = (update_task_status repo now task_id status []).1

abbrev pub is_mode : String → Option String → Bool
is_mode name none = false
is_mode name (some mode) = mode == name

abbrev sync_count : Repo → String → String → Option ℕ → Repo
sync_count repo now task_id none = repo
sync_count repo now task_id (some n) = sync_reflection repo now task_id none (some n)

-- `_handle_node_event`: what it writes of a node's output
unfoldable pub sync_node : Repo → String → String → Node → NodeOutput → Repo
sync_node repo now task_id supervisor o =
    let repo = sync_mode repo now task_id (filled o.execution_mode) in
    if is_mode "multi_agent" o.execution_mode then set_status repo now task_id executing else repo
sync_node repo now task_id sub_agents o =
    sync_agent_results
      (sync_execution_mode (set_status repo now task_id executing) now task_id (some "multi_agent"))
      now task_id o.agent_results
sync_node repo now task_id planner o =
    sync_plan (set_status repo now task_id executing) now task_id o.plan
sync_node repo now task_id executor o =
    sync_task_results (set_status repo now task_id executing) now task_id o.task_results
sync_node repo now task_id reflection o =
    let repo =
      sync_reflection (set_status repo now task_id reflecting) now task_id o.reflection_result
        o.iteration_count in
    if o.should_replan then set_status repo now task_id replanning else repo
sync_node repo now task_id replanner o =
    sync_count (sync_plan (set_status repo now task_id executing) now task_id o.plan) now task_id
      o.iteration_count
sync_node repo now task_id reviewer o = repo

-- why a run stops
pub data StopReason : Type 0 where
  cancelled paused : StopReason
  interrupted : Dict Value → StopReason

-- `_handle_node_event`: what it returns at the node's boundary
unfoldable pub stop_at : TaskControlService → String → Option StopReason
stop_at control task_id =
    if should_cancel control task_id
    then some cancelled
    else if should_pause control task_id
    then some paused
    else none

-- what the service shares with the endpoints
pub record Shared : Type 0 where
  pub repo : Repo
  pub control : TaskControlService

abbrev pub requested : List Request → TaskControlService → TaskControlService
requested [] control = control
requested (r ∷ requests) control = requested requests (apply control r)

abbrev pub arrive : Boundary → Shared → Shared
arrive b s = record { repo = b.others s.repo; control = requested b.requests s.control }

-- how the reading of events ends: with all read, by a stop, or by an exception
pub data Reading : Type 0 where
  exhausted : Shared → Option String → Reading
  stopped : StopReason → Shared → Reading
  broken : Failure → Shared → Reading

-- the later of two results: an empty one does not count
abbrev pub or_earlier : Option String → Option String → Option String
or_earlier none earlier = earlier
or_earlier (some result) earlier = some result

abbrev at_boundary : Option StopReason → Shared → Reading → Reading
at_boundary none s rest = rest
at_boundary (some reason) s rest = stopped reason s

abbrev has_kind : Option Value → Bool
has_kind (some (str kind)) = kind == "tool_approval"
has_kind _ = false

unfoldable pub first_approval : List (Dict Value) → Option (Dict Value)
unfolding lookup
first_approval [] = none
first_approval (payload ∷ payloads) =
    let rest = first_approval payloads in
    if has_kind (lookup "kind" payload) then some payload else rest

-- `"__interrupt__" in event`, with the payload of an approval
unfoldable pub approval_of : List (Boundary × Entry) → Option (Dict Value)
unfolding first_approval
approval_of [] = none
approval_of ((b, output node o) ∷ entries) = approval_of entries
approval_of ((b, interrupts payloads) ∷ entries) = first_approval payloads

abbrev no_dict : Failure
no_dict = other "'tuple' object has no attribute 'get'"

-- an interrupt that is no approval is taken for a node that writes nothing
abbrev pub synced : String → String → Entry → Shared → Shared
synced now task_id (output node o) s = record s { repo = sync_node s.repo now task_id node o }
synced now task_id (interrupts payloads) s = s

module _ (task_id : String) where
  abbrev pub passed : Boundary → Entry → Shared → Shared
  passed b entry s = synced b.now task_id entry (arrive b s)

  -- the output of an interrupt, a tuple, has no method `get`
  abbrev after_entry : Entry → Shared → (Option String → Reading) → Option String → Reading
  after_entry (output node o) s rest final = rest (or_earlier (filled o.final_result) final)
  after_entry (interrupts payloads) s rest final = broken no_dict s

  unfoldable pub read_entries : Shared → Option String → List (Boundary × Entry) → Reading
  read_entries s final [] = exhausted s final
  read_entries s final ((b, entry) ∷ entries) =
      let s' = passed b entry s in
      at_boundary (stop_at s'.control task_id) s'
        (after_entry entry s' (λ final'. read_entries s' final' entries) final)

  abbrev pub read_event :
      Option (Dict Value) → Shared → Option String → List (Boundary × Entry) → Reading
  read_event (some payload) s final entries = stopped (interrupted payload) s
  read_event none s final entries = read_entries s final entries

  unfoldable pub read_stream : Shared → Option String → Stream → Reading
  read_stream s final ended = exhausted s final
  read_stream s final (breaks failure) = broken failure s
  read_stream s final (yields entries stream) =
      elim (read_event (approval_of entries) s final entries) [
        | exhausted s' final' ↦ read_stream s' final' stream
        | stopped reason s' ↦ stopped reason s'
        | broken failure s' ↦ broken failure s'
      ]
