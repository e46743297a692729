-- ===== src/Schemas/Core.antt =====
-- nexus/schemas/core.py.
use pharae.Base.{ℕ, String, Bool, true, false, Option, List, map}
use pharae.Base.Dict.{Dict}
use pharae.Base.Int.{ℤ}
use pharae.Schemas.Json.{Float, Value}

pub data TaskStatus : Type 0 where
  pending ready running completed failed blocked cancelled : TaskStatus

-- `status in TERMINAL_TASK_STATUSES`
abbrev pub is_terminal : TaskStatus → Bool
is_terminal TaskStatus.pending = false
is_terminal TaskStatus.ready = false
is_terminal TaskStatus.running = false
is_terminal TaskStatus.completed = true
is_terminal TaskStatus.failed = true
is_terminal TaskStatus.blocked = true
is_terminal TaskStatus.cancelled = true

abbrev pub is_pending : TaskStatus → Bool
is_pending TaskStatus.pending = true
is_pending _ = false

abbrev pub is_running : TaskStatus → Bool
is_running TaskStatus.running = true
is_running _ = false

abbrev pub is_completed : TaskStatus → Bool
is_completed TaskStatus.completed = true
is_completed _ = false

abbrev pub status_value : TaskStatus → String
status_value TaskStatus.pending = "pending"
status_value TaskStatus.ready = "ready"
status_value TaskStatus.running = "running"
status_value TaskStatus.completed = "completed"
status_value TaskStatus.failed = "failed"
status_value TaskStatus.blocked = "blocked"
status_value TaskStatus.cancelled = "cancelled"

pub data RunStatus : Type 0 where
  running completed failed partial cancelled : RunStatus

abbrev pub run_status_value : RunStatus → String
run_status_value RunStatus.running = "running"
run_status_value RunStatus.completed = "completed"
run_status_value RunStatus.failed = "failed"
run_status_value RunStatus.partial = "partial"
run_status_value RunStatus.cancelled = "cancelled"

pub record Objective : Type 0 where
  pub id : String
  pub text : String
  pub context_refs : List String
  pub created_at : Float

pub record Intent : Type 0 where
  pub id : String
  pub objective_id : String
  pub goals : List String
  pub constraints : List String
  pub desired_outcomes : List String
  pub open_questions : List String
  pub context_refs : List String

pub record Task : Type 0 where
  pub id : String
  pub capability_type : String
  pub payload : Dict Value
  pub depends_on : List String
  pub priority : ℤ
  pub status : TaskStatus
  pub capability_binding : Option String

pub record Plan : Type 0 where
  pub id : String
  pub tasks : List Task
  pub intent_id : Option String
  pub provenance : Option String
  pub created_at : Float

-- `Plan.task_ids`
abbrev pub task_ids : List Task → List String
task_ids tasks = map (λ t. t.id) tasks

pub record TaskResult : Type 0 where
  pub task_id : String
  pub status : TaskStatus
  pub output : Value
  pub error : Option String
  pub attempts : ℕ

pub record Run : Type 0 where
  pub id : String
  pub plan_id : String
  pub session_id : String
  pub status : RunStatus
  pub task_results : Dict TaskResult
  pub started_at : Float
  pub finished_at : Option Float

pub record Artifact : Type 0 where
  pub id : String
  pub run_id : String
  pub kind : String
  pub path : String
  pub metadata : Dict Value

pub record Evidence : Type 0 where
  pub id : String
  pub run_id : String
  pub verified : Bool
  pub confidence : Float
  pub logs : List String
  pub artifact_ids : List String
  pub test_results : Dict Value
  pub reproducible : Option Bool
  pub cost_report : Dict Value
