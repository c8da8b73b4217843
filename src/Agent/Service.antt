-- ===== src/Agent/Service.antt =====
-- app/services/agent_service.py: `AgentService`, a run of the agent from its start, or from the
-- decision on an approval, to the status that it leaves. The graph with its checkpoints, the
-- long-term memory and the clock are arguments.
use Prim.Native.String.{◌++◌}
use ai_agent_task_assistant.Common.{
  ℕ, String, Bool, true, false, not, Option, none, some, List, [], ◌∷◌, Dict, lookup, Value,
  text_of, dict_of, ◌==◌, if◌then◌else◌,
}
use ai_agent_task_assistant.Tools.Security.{ToolContext}
use ai_agent_task_assistant.Tasks.Model.{
  TaskStatus, planning, executing, awaiting_approval, paused, cancelled, completed, failed, SubTask,
  ApprovalStatus, ApprovalRequest, Task,
}
use ai_agent_task_assistant.Tasks.Repository.{Repo, same_status}
use ai_agent_task_assistant.Tasks.Control.{TaskControlService, clear}
use ai_agent_task_assistant.Tasks.Service.{
  get_task, Change, final_result_to, error_to, update_task_status,
}
use ai_agent_task_assistant.Tasks.Service.Approval.{save_approval_request}
use ai_agent_task_assistant.Schedule.{TaskResult}
use ai_agent_task_assistant.Workflow.{AgentState}
use ai_agent_task_assistant.Agent.Events.{
  Failure, budget_exceeded, other, Stream, filled, set_status, StopReason, interrupted, Reading,
  exhausted, stopped, broken, Shared, read_stream,
}

-- what the graph starts from; of the state the fields that steer the run
pub record RunInput : Type 0 where
  pub goal : String
  pub context : Option String
  pub tool_context : ToolContext
  pub state : AgentState

-- what `astream` is given
pub data StreamInput : Type 0 where
  fresh : RunInput → StreamInput
  from_checkpoint : StreamInput
  resumed_with : Dict Value → StreamInput

-- the value of a call, or its exception
pub data Result (A : Type 0) : Type 0 where
  value : A → Result A
  raises : Failure → Result A

-- what one run meets outside of the service
pub record World : Type 0 where
  -- the graph can be built, and its checkpointer be made
  pub workflow : Result Bool
  pub started_at : String
  -- the long-term memory is made on its first use, unless it was made before
  pub memory : Result Bool
  -- the texts that the memory finds for the goal
  pub recalled : Result (Option (List String))
  -- whether the checkpoint of the task has a next node
  pub unfinished : Result Bool
  pub stream : StreamInput → Stream
  -- `final_result` in the last checkpoint
  pub checkpointed : Result (Option String)
  pub others : Repo → Repo
  pub ended_at : String
  -- `requested_at` of a payload as an ISO text, or the time of the call
  pub stamp : Option Value → String
  pub render : Value → String
  -- what `dict` says of arguments that are no dict
  pub args_error : String

-- what is written to the long-term memory
pub record Remembered : Type 0 where
  pub key : String
  pub summary : String
  pub user_id : String
  pub tenant_id : String

-- how a run ends: it returns a result, or the exception gets out
pub data Run : Type 0 where
  returned : Shared → Option String → Option Remembered → Run
  raised : Shared → Run

pub record Settings : Type 0 where
  pub enable_long_term_memory : Bool

-- `_recall_memory`: the texts that are not empty, one to a line
nonempty_lines : List String → List String
nonempty_lines [] = []
nonempty_lines (s ∷ texts) =
    let rest = nonempty_lines texts in if s == "" then rest else ("- " ++ s) ∷ rest

joined : List String → Option String
joined [] = none
joined (line ∷ []) = some line
joined (line ∷ next ∷ lines) = elim (joined (next ∷ lines)) [
  | none ↦ some line
  | some rest ↦ some (line ++ "\n" ++ rest)
]

recalled_text : Result (Option (List String)) → Option String
unfolding nonempty_lines joined
recalled_text (raises failure) = none
recalled_text (value none) = none
recalled_text (value (some texts)) = joined (nonempty_lines texts)

-- what the search raises is caught, but not what the making of the memory does
abbrev recalled_by : Result Bool → Result (Option (List String)) → Result (Option String)
recalled_by (raises failure) found = raises failure
recalled_by (value made) found = value (recalled_text found)

unfoldable pub recall_memory :
    Settings → Result Bool → Result (Option (List String)) → Result (Option String)
unfolding recalled_text
recall_memory settings memory found =
    if not settings.enable_long_term_memory then value none else recalled_by memory found

abbrev recalled_block : String → String
recalled_block recalled =
    "<external_knowledge>\n[相关历史记忆]\n" ++ recalled ++ "\n</external_knowledge>"

unfoldable pub effective_context : Option String → Option String → Option String
effective_context none context = context
effective_context (some recalled) context = elim (filled context) [
  | none ↦ some (recalled_block recalled)
  | some text ↦ some (recalled_block recalled ++ "\n\n" ++ text)
]

-- the results of the task's completed subtasks that have one
unfoldable pub previous_results : List SubTask → List TaskResult
previous_results [] = []
previous_results (s ∷ subtasks) =
    let rest = previous_results subtasks in
    if same_status s.status completed
    then elim (filled s.result) [
      | none ↦ rest
      | some result ↦ record { subtask_id = some s.id; status = "completed" } ∷ rest
    ]
    else rest

abbrev pub found_results : Option ℕ → Option Task → List TaskResult
found_results none task = []
found_results (some i) none = []
found_results (some i) (some task) = previous_results task.subtasks

unfoldable pub initial_state : Option ℕ → List TaskResult → AgentState
initial_state retry_from_index results = record {
  plan = none;
  plan_version = 0;
  execution_mode = none;
  agent_assignments = [];
  agent_results = [];
  current_task_index = 0;
  task_results = results;
  retry_from_index = retry_from_index;
  reflection_result = none;
  should_replan = false;
  iteration_count = 0;
  final_result = none;
}

-- a retry clears the control requests, and deletes the checkpoint
abbrev pub cleared : Option ℕ → String → TaskControlService → TaskControlService
cleared none task_id control = control
cleared (some i) task_id control = clear control task_id

abbrev pub input_of : Bool → RunInput → StreamInput
input_of true start = from_checkpoint
input_of false start = fresh start

-- `str(payload.get(…))` and the other fields; `none` where the arguments are no dict
abbrev pub request_of : World → String → Dict Value → Option ApprovalRequest
request_of world task_id payload = elim (dict_of (lookup "args" payload)) [
  | none ↦ none
  | some args ↦ some (record {
    id = text_of world.render "" (lookup "approval_id" payload);
    task_id = task_id;
    tool_name = text_of world.render "" (lookup "tool_name" payload);
    args = args;
    reason = text_of world.render "" (lookup "reason" payload);
    status = ApprovalStatus.pending;
    created_at = world.stamp (lookup "requested_at" payload);
    decided_at = none;
    decision_note = none;
    modified_args = none;
  })
]

abbrev message_of : Failure → String
message_of (budget_exceeded text) = "任务预算超限终止: " ++ text
message_of (other text) = text

module _ (settings : Settings) (world : World) (task_id : String) (caller : ToolContext) where
  abbrev pub set : Shared → TaskStatus → List Change → Shared
  set s status kwargs = record s {
    repo = (update_task_status s.repo world.ended_at task_id status kwargs).1;
  }

  abbrev pub fail : Failure → Shared → Run
  fail failure s = returned (set s failed (error_to (some (message_of failure)) ∷ [])) none none

  -- `_persist_approval`
  abbrev pub persist_approval : Option ApprovalRequest → Shared → Run
  persist_approval none s = fail (other world.args_error) s
  persist_approval (some request) s =
      returned
        (set (record s { repo = save_approval_request s.repo world.ended_at request })
          awaiting_approval [])
        none none

  -- `_remember_result`
  abbrev remembered_by : Result Bool → String → String → Result (Option Remembered)
  remembered_by (raises failure) goal result = raises failure
  remembered_by (value made) goal result = value (
      some (record {
        key = "task:" ++ task_id;
        summary = "目标: " ++ goal ++ "\n结果: " ++ result;
        user_id = caller.user_id;
        tenant_id = caller.tenant_id;
      }))

  abbrev pub remember : String → String → Result (Option Remembered)
  remember goal result =
      if settings.enable_long_term_memory
      then remembered_by world.memory goal result
      else value none

  -- an exception behind the completion turns the status into failed
  abbrev pub noted : Shared → String → Result (Option Remembered) → Run
  noted s result (raises failure) = fail failure s
  noted s result (value remembered) = returned s (some result) remembered

  -- the status of a run that all events are read of
  abbrev pub complete : String → Shared → Option String → Run
  complete goal s none = returned (set s failed (final_result_to none ∷ [])) none none
  complete goal s (some result) =
      if result == ""
      then returned (set s failed (final_result_to (some "") ∷ [])) (some "") none
      else noted (set s completed (final_result_to (some result) ∷ [])) result
          (remember goal result)

  abbrev pub conclude : String → Shared → Option String → Result (Option String) → Run
  conclude goal s (some result) checkpointed = complete goal s (some result)
  conclude goal s none (value result) = complete goal s result
  conclude goal s none (raises failure) = fail failure s

  abbrev pub stop : StopReason → Shared → Run
  stop (interrupted payload) s = persist_approval (request_of world task_id payload) s
  stop StopReason.paused s = returned (set s paused []) none none
  stop StopReason.cancelled s = returned (set s cancelled []) none none

  abbrev pub others_changed : Shared → Shared
  others_changed s = record s { repo = world.others s.repo }

  unfoldable pub finish : String → Reading → Run
  finish goal (exhausted s final) = conclude goal (others_changed s) final world.checkpointed
  finish goal (stopped reason s) = stop reason (others_changed s)
  finish goal (broken failure s) = fail failure (others_changed s)

  abbrev pub follow : Shared → String → Result Bool → RunInput → Run
  follow s goal (raises failure) start = fail failure s
  follow s goal (value resume) start =
      finish goal (read_stream task_id s none (world.stream (input_of resume start)))

  -- what the recalling raises gets out: it stands before anything is caught
  abbrev pub with_recalled :
      Shared → String → Option String → AgentState → Result (Option String) → Run
  with_recalled s goal context state (raises failure) = raised s
  with_recalled s goal context state (value recalled) = follow s goal world.unfinished (record {
    goal = goal;
    context = effective_context recalled context;
    tool_context = caller;
    state = state;
  })

  -- the task is planned, and on a retry its control requests are cleared
  abbrev pub opened : Shared → Option ℕ → Shared
  opened s retry_from_index = record {
    repo = set_status s.repo world.started_at task_id planning;
    control = cleared retry_from_index task_id s.control;
  }

  abbrev pub begun : Shared → String → Option String → Option ℕ → Run
  begun s goal context retry_from_index =
      let s' = opened s retry_from_index in
      let results = found_results retry_from_index (get_task s'.repo task_id) in
      with_recalled s' goal context (initial_state retry_from_index results)
        (recall_memory settings world.memory world.recalled)

  abbrev pub once_built : Result Bool → Shared → Run → Run
  once_built (raises failure) s run = raised s
  once_built (value built) s run = run

  -- `_run_task_inner`; the graph is built before anything is caught
  unfoldable pub run_task : Shared → String → Option String → Option ℕ → Run
  run_task s goal context retry_from_index =
      once_built world.workflow s (begun s goal context retry_from_index)

  abbrev pub continued : Shared → Dict Value → Task → Run
  continued s decision task = finish task.goal (
      read_stream task_id (record s { repo = set_status s.repo world.started_at task_id executing })
        none (world.stream (resumed_with decision)))

  abbrev pub where_found : Option Task → Shared → Dict Value → Run
  where_found none s decision = returned s none none
  where_found (some task) s decision = once_built world.workflow s (continued s decision task)

  -- `_resume_approval_inner`
  unfoldable pub resume_approval : Shared → Dict Value → Run
  resume_approval s decision = where_found (get_task s.repo task_id) s decision
