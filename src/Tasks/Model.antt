-- ===== src/Tasks/Model.antt =====
-- app/models/task.py and app/models/plan.py. A time is its ISO text; scores are thousandths. The
-- `subtasks` of a plan are the very objects of the task's `subtasks` (both are set together, in
-- `sync_plan`), so the plan keeps the other fields alone.
use ai_agent_task_assistant.Common.{ℕ, String, Bool, true, false, Option, List, Dict, Value}

pub data TaskStatus : Type 0 where
  pending planning executing reflecting replanning : TaskStatus
  awaiting_approval paused cancelled completed failed : TaskStatus

-- `status in RESTARTABLE_STATUSES`
abbrev pub restartable : TaskStatus → Bool
restartable pending = true
restartable failed = true
restartable cancelled = true
restartable paused = true
restartable completed = true
restartable _ = false

pub data ApprovalStatus : Type 0 where
  pending approved rejected : ApprovalStatus

abbrev pub is_pending : ApprovalStatus → Bool
is_pending ApprovalStatus.pending = true
is_pending _ = false

pub record ApprovalRequest : Type 0 where
  pub id : String
  pub task_id : String
  pub tool_name : String
  pub args : Dict Value
  pub reason : String
  pub status : ApprovalStatus
  pub created_at : String
  pub decided_at : Option String
  pub decision_note : Option String
  pub modified_args : Option (Dict Value)

pub record SubTask : Type 0 where
  pub id : String
  pub description : String
  pub status : TaskStatus
  pub result : Option String
  pub tool_used : Option String
  pub error : Option String
  pub dependencies : List String

pub record Plan : Type 0 where
  pub goal : String
  pub version : ℕ
  pub reasoning : Option String

pub record ReflectionResult : Type 0 where
  pub is_satisfactory : Bool
  pub accuracy_score : ℕ
  pub completeness_score : ℕ
  pub relevance_score : ℕ
  pub issues : List String
  pub suggestion : Option String

pub record Task : Type 0 where
  pub id : String
  pub goal : String
  pub context : Option String
  pub owner_id : String
  pub tenant_id : String
  pub status : TaskStatus
  pub subtasks : List SubTask
  pub plan : Option Plan
  pub reflection : Option ReflectionResult
  pub plan_version : ℕ
  pub iteration_count : ℕ
  pub execution_mode : Option String
  pub agent_results : List Value
  pub pending_approval : Option ApprovalRequest
  pub approval_history : List ApprovalRequest
  pub final_result : Option String
  pub error : Option String
  pub created_at : String
  pub updated_at : String

pub TaskStatus-discrete : Discrete TaskStatus
TaskStatus-discrete = hlevel

-- how a status is told from another: its place in the enumeration
abbrev pub status_index : TaskStatus → ℕ
status_index pending = 0
status_index planning = 1
status_index executing = 2
status_index reflecting = 3
status_index replanning = 4
status_index awaiting_approval = 5
status_index paused = 6
status_index cancelled = 7
status_index completed = 8
status_index failed = 9
