-- ===== src/Agent/Outcome.antt =====
-- The status in which a run of app/services/agent_service.py leaves its task.
use ai_agent_task_assistant.Common.{ℕ, String, ◌≡◌, Bool, Option, none, [], Dict, Value}
use ai_agent_task_assistant.Tools.Security.{ToolContext}
use ai_agent_task_assistant.Tasks.Model.{planning, executing, Task}
use ai_agent_task_assistant.Tasks.Service.{get_task}
use ai_agent_task_assistant.Tasks.Service.Keyed.{sets_status, Call-Keeps}
use ai_agent_task_assistant.Workflow.{AgentState}
use ai_agent_task_assistant.Agent.Events.{
  Stream, Shared, Reading, exhausted, stopped, broken, read_stream,
}
use ai_agent_task_assistant.Agent.Service.{
  StreamInput, resumed_with, input_of, others_changed, Result, value, raises, World, Settings, Run,
  RunInput, finish, follow, recall_memory, with_recalled, opened, begun, continued, once_built,
  where_found, run_task, resume_approval,
}
use ai_agent_task_assistant.Agent.Identity.{IsQuiet, IsQuietStream, shared_of, read_stream-Keeps}
use ai_agent_task_assistant.Agent.Ending.{
  IsIn, Outcome, Outcome-trans, fail-Outcome, conclude-Outcome, stop-Outcome,
}

module _ (settings : Settings) (world : World) (task_id : String) (caller : ToolContext) where
  finish-Outcome :
      (goal : String) (t : Task) (r : Reading)
      → IsQuiet world.others
      → IsIn settings world task_id caller (shared_of r) t
      → Outcome settings world task_id caller t (finish settings world task_id caller goal r)
  unfolding finish
  finish-Outcome goal t (exhausted s final) quiet (h, e) =
      let k = quiet s.repo h in
      let (u, there, same) = k.kept task_id t e in
      Outcome-trans settings world task_id caller t u
        (finish settings world task_id caller goal (exhausted s final)) same
        (conclude-Outcome settings world task_id caller goal
          (others_changed settings world task_id caller s) u final world.checkpointed
          (k.keyed, there))
  finish-Outcome goal t (stopped reason s) quiet (h, e) =
      let k = quiet s.repo h in
      let (u, there, same) = k.kept task_id t e in
      Outcome-trans settings world task_id caller t u
        (finish settings world task_id caller goal (stopped reason s)) same
        (stop-Outcome settings world task_id caller reason
          (others_changed settings world task_id caller s) u (k.keyed, there))
  finish-Outcome goal t (broken failure s) quiet (h, e) =
      let k = quiet s.repo h in
      let (u, there, same) = k.kept task_id t e in
      Outcome-trans settings world task_id caller t u
        (finish settings world task_id caller goal (broken failure s)) same
        (fail-Outcome settings world task_id caller failure
          (others_changed settings world task_id caller s) u (k.keyed, there))

  read-Outcome :
      (goal : String) (s : Shared) (t : Task) (stream : Stream)
      → IsQuiet world.others
      → IsQuietStream stream
      → IsIn settings world task_id caller s t
      → Outcome settings world task_id caller t
          (finish settings world task_id caller goal (read_stream task_id s none stream))
  read-Outcome goal s t stream quiet quiet_stream (h, e) =
      let k = read_stream-Keeps task_id stream s none quiet_stream h in
      let (u, there, same) = k.kept task_id t e in
      Outcome-trans settings world task_id caller t u
        (finish settings world task_id caller goal (read_stream task_id s none stream)) same
        (finish-Outcome goal u (read_stream task_id s none stream) quiet (k.keyed, there))

  follow-Outcome :
      (s : Shared) (t : Task) (goal : String) (unfinished : Result Bool) (start : RunInput)
      → IsQuiet world.others
      → ((i : StreamInput) → IsQuietStream (world.stream i))
      → IsIn settings world task_id caller s t
      → Outcome settings world task_id caller t
          (follow settings world task_id caller s goal unfinished start)
  follow-Outcome s t goal (raises failure) start quiet quiet_stream i =
      fail-Outcome settings world task_id caller failure s t i
  follow-Outcome s t goal (value resume) start quiet quiet_stream i =
      read-Outcome goal s t (world.stream (input_of resume start)) quiet
        (quiet_stream (input_of resume start)) i

  with_recalled-Outcome :
      (s : Shared) (t : Task) (goal : String) (context : Option String) (state : AgentState)
      (recall : Result (Option String)) (recalled : Option String)
      → recall ≡ value recalled
      → IsQuiet world.others
      → ((i : StreamInput) → IsQuietStream (world.stream i))
      → IsIn settings world task_id caller s t
      → Outcome settings world task_id caller t
          (with_recalled settings world task_id caller s goal context state recall)
  with_recalled-Outcome s t goal context state (raises failure) recalled e quiet quiet_stream i =
      absurd (cc e)
  with_recalled-Outcome s t goal context state (value found) recalled e quiet quiet_stream i =
      follow-Outcome s t goal world.unfinished _ quiet quiet_stream i

  begun-Outcome :
      (s : Shared) (t : Task) (goal : String) (context : Option String)
      (retry_from_index : Option ℕ) (recalled : Option String)
      → recall_memory settings world.memory world.recalled ≡ value recalled
      → IsQuiet world.others
      → ((i : StreamInput) → IsQuietStream (world.stream i))
      → IsIn settings world task_id caller s t
      → Outcome settings world task_id caller t
          (begun settings world task_id caller s goal context retry_from_index)
  begun-Outcome s t goal context retry_from_index recalled recalls quiet quiet_stream (h, e) =
      let k = Call-Keeps h (sets_status world.started_at task_id planning [] tt) in
      let (u, there, same) = k.kept task_id t e in
      Outcome-trans settings world task_id caller t u
        (begun settings world task_id caller s goal context retry_from_index) same
        (with_recalled-Outcome (opened settings world task_id caller s retry_from_index) u goal
          context _ (recall_memory settings world.memory world.recalled) recalled recalls quiet
          quiet_stream (k.keyed, there))

  continued-Outcome :
      (s : Shared) (t : Task) (decision : Dict Value)
      → IsQuiet world.others
      → ((i : StreamInput) → IsQuietStream (world.stream i))
      → IsIn settings world task_id caller s t
      → Outcome settings world task_id caller t
          (continued settings world task_id caller s decision t)
  continued-Outcome s t decision quiet quiet_stream (h, e) =
      let k = Call-Keeps h (sets_status world.started_at task_id executing [] tt) in
      let (u, there, same) = k.kept task_id t e in
      Outcome-trans settings world task_id caller t u
        (continued settings world task_id caller s decision t) same
        (read-Outcome t.goal _ u (world.stream (resumed_with decision)) quiet
          (quiet_stream (resumed_with decision)) (k.keyed, there))

  once_built-Outcome :
      (s : Shared) (t : Task) (run : Run) (workflow : Result Bool) (built : Bool)
      → workflow ≡ value built
      → Outcome settings world task_id caller t run
      → Outcome settings world task_id caller t
          (once_built settings world task_id caller workflow s run)
  once_built-Outcome s t run (value b) built e o = o
  once_built-Outcome s t run (raises failure) built e o = absurd (cc e)

-- In a repository whose tasks stand under their own identifiers, where the graph can be built, the
-- long-term memory is off or can be made, and other callers keep the tasks and their identity: a
-- run of a stored task ends with the task stored under its identity and either completed, with the
-- text that the run returns as its result, or failed, paused, cancelled or waiting for an approval,
-- where the run returns no text.
pub run_task-Outcome :
    (settings : Settings) (world : World) (task_id : String) (caller : ToolContext) (s : Shared)
    (t : Task) (goal : String) (context : Option String) (retry_from_index : Option ℕ)
    (built : Bool) (recalled : Option String)
    → IsIn settings world task_id caller s t
    → world.workflow ≡ value built
    → recall_memory settings world.memory world.recalled ≡ value recalled
    → IsQuiet world.others
    → ((i : StreamInput) → IsQuietStream (world.stream i))
    → Outcome settings world task_id caller t
        (run_task settings world task_id caller s goal context retry_from_index)
unfolding run_task
run_task-Outcome settings world task_id caller s t goal context retry_from_index built recalled i
      works recalls quiet quiet_stream =
    once_built-Outcome settings world task_id caller s t
      (begun settings world task_id caller s goal context retry_from_index) world.workflow built
      works
      (begun-Outcome settings world task_id caller s t goal context retry_from_index recalled
        recalls quiet quiet_stream i)

-- In a repository whose tasks stand under their own identifiers, where the graph can be built and
-- other callers keep the tasks and their identity: a run of a stored task that goes on behind the
-- decision on an approval ends as a run from the start does, with the task stored under its identity,
-- and completed with the returned text, or failed, paused, cancelled or waiting, with no text.
pub resume_approval-Outcome :
    (settings : Settings) (world : World) (task_id : String) (caller : ToolContext) (s : Shared)
    (t : Task) (decision : Dict Value) (built : Bool)
    → IsIn settings world task_id caller s t
    → world.workflow ≡ value built
    → IsQuiet world.others
    → ((i : StreamInput) → IsQuietStream (world.stream i))
    → Outcome settings world task_id caller t
        (resume_approval settings world task_id caller s decision)
unfolding resume_approval get_task
resume_approval-Outcome settings world task_id caller s t decision built (h, e) works quiet
      quiet_stream =
    rw (e, where_found)
      (once_built-Outcome settings world task_id caller s t
        (continued settings world task_id caller s decision t) world.workflow built works
        (continued-Outcome settings world task_id caller s t decision quiet quiet_stream (h, e)))
