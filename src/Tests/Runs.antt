-- ===== src/Tests/Runs.antt =====
-- Runs of the agent (app/services/agent_service.py, app/worker.py) on small inputs.
use ai_agent_task_assistant.Common.{◌≡◌, refl, true, false, none, some, List, [], ◌∷◌, lookup}
use ai_agent_task_assistant.Gate.{to_dict, suspends, suspended, request, needs_approval}
use ai_agent_task_assistant.Tools.Security.{anonymous}
use ai_agent_task_assistant.Tasks.Model.{cancelled, awaiting_approval, Task}
use ai_agent_task_assistant.Tasks.Repository.{Repo, get}
use ai_agent_task_assistant.Tasks.Control.{
  empty, cancel_of, pause_of, Request, should_cancel, should_pause, contains,
}
use ai_agent_task_assistant.Tasks.Control.Requests.{nothing, Shows}
use ai_agent_task_assistant.Queue.Message.{TaskMessage}
use ai_agent_task_assistant.Workflow
use ai_agent_task_assistant.Workflow.{
  PlanDict, AgentState, Answer, gives, fails, Answers, Update, updated, directed,
}
use ai_agent_task_assistant.Workflow.Graph.{supervisor, planner, executor}
use ai_agent_task_assistant.Team.{supervise, Work}
use ai_agent_task_assistant.Agent.Events.{
  NodeOutput, Entry, output, interrupts, Boundary, other, Stream, ended, yields, StopReason, Shared,
  exhausted, stopped, passed, approval_of, stop_at, read_entries, read_stream,
}
use ai_agent_task_assistant.Agent.Service.{
  StreamInput, value, raises, World, Settings, initial_state, finish, recall_memory, run_task,
  resume_approval,
}
use ai_agent_task_assistant.Agent.Worker.{left_by, process_one, run}
use ai_agent_task_assistant.Agent.Identity.{Keeps-self, IsQuietStream, AreQuiet}
use ai_agent_task_assistant.Agent.Ending.{result_of, Outcome}
use ai_agent_task_assistant.Agent.Outcome.{run_task-Outcome, resume_approval-Outcome}
use ai_agent_task_assistant.Agent.Stops.{events, stops-at_wish}
use ai_agent_task_assistant.Agent.Waiting.{payload_for, stored, suspended-waits}
use ai_agent_task_assistant.Agent.Replanning.{retry-replans}
use ai_agent_task_assistant.Agent.Serving.{execute_all, run-execute_all, process_one-unbuilt}
use ai_agent_task_assistant.Tests.ToolCalls.{render}
use ai_agent_task_assistant.Tests.Store.{only, waiting_task, only-IsKeyed}
use ai_agent_task_assistant.Tests.Gates.{gate, policy, target}

abbrev settings : Settings
settings = record { enable_long_term_memory = false }

abbrev unchanged : Repo → Repo
unchanged repo = repo

abbrev silent : NodeOutput
silent = record {
  execution_mode = none;
  agent_results = [];
  plan = none;
  task_results = [];
  reflection_result = none;
  iteration_count = none;
  should_replan = false;
  final_result = none;
}

abbrev with_text : NodeOutput
with_text = record silent { final_result = some "done" }

abbrev at : List Request → Boundary
at requests = record { now = "2026-01-02"; requests = requests; others = unchanged }

-- a supervisor and a planner, and then an executor with a result
abbrev whole : Stream
whole = yields ((at [], output supervisor silent) ∷ []) (
    yields ((at [], output planner silent) ∷ [])
      (yields ((at [], output executor with_text) ∷ []) ended))

abbrev world_of : Stream → World
world_of stream = record {
  workflow = value true;
  started_at = "2026-01-02";
  memory = value true;
  recalled = value none;
  unfinished = value false;
  stream = λ input. stream;
  checkpointed = value none;
  others = unchanged;
  ended_at = "2026-01-03";
  stamp = λ v. "2026-01-02";
  render = render;
  args_error = "no dict";
}

abbrev broken_world : World
broken_world = record (world_of ended) { workflow = raises (other "no key") }

abbrev start : Shared
start = record { repo = only waiting_task; control = empty }

run_task_test :
    result_of (run_task settings (world_of whole) "t1" anonymous start "ship" none none)
    ≡ some "done"
unfolding run_task finish read_stream read_entries approval_of stop_at should_cancel should_pause
    contains recall_memory
run_task_test = refl

whole-quiet : (i : StreamInput) → IsQuietStream ((world_of whole).stream i)
unfolding IsQuietStream AreQuiet
whole-quiet i = ((Keeps-self, tt), ((Keeps-self, tt), ((Keeps-self, tt), tt)))

run_task-Outcome_example :
    Outcome settings
      (world_of whole)
      "t1"
      anonymous
      waiting_task
      (run_task settings (world_of whole) "t1" anonymous start "ship" none none)
unfolding get lookup recall_memory
run_task-Outcome_example =
    run_task-Outcome settings (world_of whole) "t1" anonymous start waiting_task "ship" none none
      true none (only-IsKeyed waiting_task refl, refl) refl refl Keeps-self whole-quiet

resume_approval-Outcome_example :
    Outcome settings
      (world_of whole)
      "t1"
      anonymous
      waiting_task
      (resume_approval settings (world_of whole) "t1" anonymous start [])
unfolding get lookup
resume_approval-Outcome_example =
    resume_approval-Outcome settings (world_of whole) "t1" anonymous start waiting_task [] true
      (only-IsKeyed waiting_task refl, refl) refl Keeps-self whole-quiet

-- a supervisor's event, and then a request to cancel at the boundary of the planner
abbrev supervised : List (List (Boundary × Entry))
supervised = ((at [], output supervisor silent) ∷ []) ∷ []

abbrev cancelling : Boundary
cancelling = at (pause_of "t1" ∷ cancel_of "t1" ∷ [])

abbrev behind_supervisor : Shared
behind_supervisor = passed "t1" (at []) (output supervisor silent) start

supervised-quiet : IsQuietStream (events supervised ended)
unfolding IsQuietStream AreQuiet
supervised-quiet = ((Keeps-self, tt), tt)

supervised-read :
    read_stream "t1" start none (events supervised ended) ≡ exhausted behind_supervisor none
unfolding read_stream read_entries approval_of stop_at should_cancel should_pause contains
supervised-read = refl

idle : Shows empty "t1" nothing
unfolding should_cancel should_pause contains
idle = record { pauses = refl; cancels = refl }

stops-at_wish_example :
    let run =
      read_stream "t1" start none
        (events supervised (yields ((cancelling, output planner silent) ∷ []) whole)) in
    (run
      ≡ stopped StopReason.cancelled
          (passed "t1" cancelling (output planner silent) behind_supervisor))
    × ((t' : Task) × (get
            (left_by (finish settings (world_of whole) "t1" anonymous "ship" run)).repo
            "t1"
          ≡ some t')
        × (t'.status ≡ cancelled))
unfolding get lookup approval_of
stops-at_wish_example =
    stops-at_wish settings (world_of whole) "t1" anonymous "ship" supervised cancelling planner
      silent [] whole start behind_supervisor none waiting_task nothing StopReason.cancelled
      Keeps-self Keeps-self supervised-quiet (only-IsKeyed waiting_task refl, refl) supervised-read
      refl idle refl

suspends_test :
    request gate policy render "a1" 5 "deploy" target "t1" suspends
    ≡ suspended (to_dict (payload_for gate "a1" 5 "deploy" target "t1"))
unfolding request needs_approval
suspends_test = refl

suspended-waits_example :
    let run = finish settings (world_of whole) "t1" anonymous "ship" (
      read_stream "t1" start none (
        yields
          ((at [], interrupts (to_dict (payload_for gate "a1" 5 "deploy" target "t1") ∷ [])) ∷ [])
          ended)) in
    (t' : Task) × (get (left_by run).repo "t1" ≡ some t')
    × (t'.status ≡ awaiting_approval)
    × (t'.pending_approval
        ≡ some (stored (world_of whole) "t1" (payload_for gate "a1" 5 "deploy" target "t1")))
unfolding get lookup
suspended-waits_example =
    suspended-waits settings (world_of whole) "t1" anonymous gate policy render "a1" 5 "deploy"
      target (to_dict (payload_for gate "a1" 5 "deploy" target "t1")) suspends "ship" start none
      waiting_task (at []) [] [] ended suspends_test Keeps-self
      (only-IsKeyed waiting_task refl, refl)

abbrev message : TaskMessage
message = record {
  task_id = "t1";
  goal = "ship";
  context = none;
  tool_context = none;
  action = "execute";
  payload = none;
  enqueued_at = 5;
}

run-execute_all_example :
    run settings
      (world_of whole ∷ [])
      (record { queue = record { maxsize = 3; messages = message ∷ message ∷ [] }; shared = start })
    ≡ record {
      queue = record { maxsize = 3; messages = message ∷ [] };
      shared = execute_all settings (world_of whole ∷ []) (message ∷ message ∷ []) start;
    }
run-execute_all_example =
    run-execute_all settings (world_of whole ∷ []) (message ∷ message ∷ []) 3 start

process_one-unbuilt_example :
    process_one settings broken_world
      (record { queue = record { maxsize = 3; messages = message ∷ [] }; shared = start })
    ≡ (true, record { queue = record { maxsize = 3; messages = [] }; shared = start })
process_one-unbuilt_example =
    process_one-unbuilt settings broken_world 3 message [] start (other "no key") refl

abbrev unanswered : Answers
unanswered = record {
  supervised = fails;
  planned = gives none;
  performed = none;
  judged = fails;
  work = λ agent a results. Work.times_out;
  reviewed = fails;
}

abbrev retried : AgentState
retried = directed (initial_state (some 2) []) (supervise none)

abbrev replanned_state : AgentState
replanned_state = record retried {
  plan = none;
  plan_version = 1;
  current_task_index = 0;
  iteration_count = 0;
  should_replan = false;
  reflection_result = none;
  final_result = none;
}

retry-replans_example :
    (replanned_state.plan ≡ none)
    × (replanned_state.current_task_index ≡ 0)
    × (replanned_state.task_results ≡ [])
unfolding Workflow.supervisor Workflow.planner initial_state supervise
retry-replans_example =
    retry-replans (some 2) [] unanswered unanswered retried replanned_state none refl refl refl
