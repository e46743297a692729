-- ===== src/Verify/Checks.antt =====
-- The checks of nexus/verify/engine.py.
use pharae.Base.{
  String, Bool, false, Option, none, some, List, [], ◌∷◌, ◌++◌, Result, ok, err, ◌>>=◌,
  if◌then◌else◌, ◌==◌,
}
use pharae.Base.Dict.{Dict, get_or, insert, lookup}
use pharae.Base.Text.{◌⧺◌}
use pharae.Schemas.{
  Run, Task, TaskResult, Value, Values, dict, field, flag, item, no_field, none_left, null,
  run_status_value, str,
}
use pharae.Kernel.Events.{EventBus}
use pharae.Verify.Traces.{TraceError}
use pharae.Kernel.Runtime.Execution.{is_run_completed}

-- What a check does: a value that is no tuple, by its truth, a pair of a Boolean and a text, a
-- tuple of another length, a value whose truth raises, or an exception.
pub data Answer : Type 0 where
  judges : Bool → Answer
  explains : Bool → String → Answer
  malformed : Answer
  unjudged : String → Answer
  raises : String → Answer

pub record Check : Type 0 where
  pub name : String
  pub run : TaskResult → Task → Answer

pub record VerificationEngine : Type 0 where
  pub bus : Option EventBus
  pub checks : Dict (List Check)

-- The unpacking of a tuple that is no pair, the truth of a value, and the sets and the sort of task
-- ids.
pub data VerifyError : Type 0 where
  bad_tuple : (check task : String) → VerifyError
  bad_truth : (check task exception : String) → VerifyError
  bad_trace : TraceError → VerifyError

-- `register_check`
unfoldable pub register_check : String → Check → VerificationEngine → VerificationEngine
register_check capability_type check v = record v {
  checks = insert capability_type (get_or capability_type [] v.checks ++ check ∷ []) v.checks;
}

-- An entry of the list of checks.
pub record CheckEntry : Type 0 where
  pub name : String
  pub task_id : Option String
  pub passed : Bool
  pub detail : String

abbrev pub entry : String → String → Bool → String → CheckEntry
entry name task_id passed detail = record {
  name = name;
  task_id = some task_id;
  passed = passed;
  detail = detail;
}

unfoldable pub answer_entry : Check → Task → Answer → Result VerifyError CheckEntry
answer_entry check task (judges passed) = ok (entry check.name task.id passed "")
answer_entry check task (explains passed detail) = ok (entry check.name task.id passed detail)
answer_entry check task malformed = err (bad_tuple check.name task.id)
answer_entry check task (unjudged exception) = err (bad_truth check.name task.id exception)
answer_entry check task (raises exception) = ok (entry check.name task.id false exception)

-- `_apply_check`
unfoldable pub apply_check : Check → TaskResult → Task → Result VerifyError CheckEntry
apply_check check result task = answer_entry check task (check.run result task)

unfoldable pub apply_all : List Check → TaskResult → Task → Result VerifyError (List CheckEntry)
apply_all [] result task = ok []
apply_all (c ∷ cs) result task = do
  first ← apply_check c result task
  rest ← apply_all cs result task
  ok (first ∷ rest)

-- A task without a result is passed over.
unfoldable pub check_task :
    Option TaskResult → Task → VerificationEngine → Result VerifyError (List CheckEntry)
check_task none task v = ok []
check_task (some result) task v = apply_all (get_or task.capability_type [] v.checks) result task

unfoldable pub check_tasks :
    Run → List Task → VerificationEngine → Result VerifyError (List CheckEntry)
check_tasks run [] v = ok []
check_tasks run (t ∷ ts) v = do
  first ← check_task (lookup t.id run.task_results) t v
  rest ← check_tasks run ts v
  ok (first ++ rest)

abbrev pub completed_entry : Run → CheckEntry
completed_entry run = record {
  name = "all-tasks-completed";
  task_id = none;
  passed = is_run_completed run.status;
  detail = "run status " ⧺ run_status_value run.status;
}

-- `_run_checks`, without the log.
unfoldable pub run_checks :
    Run → List Task → VerificationEngine → Result VerifyError (List CheckEntry)
run_checks run tasks v = check_tasks run tasks v >>= λ checks. ok (completed_entry run ∷ checks)

abbrev pub id_text : Option String → String
id_text none = ""
id_text (some id) = if id == "" then "" else " [" ⧺ id ⧺ "]"

-- The line that `_run_checks` adds to the log.
abbrev pub entry_log : CheckEntry → String
entry_log c =
    "check "
    ⧺ c.name
    ⧺ id_text c.task_id
    ⧺ ": "
    ⧺ (if c.passed then "pass" else "fail")
    ⧺ " ("
    ⧺ c.detail
    ⧺ ")"

abbrev pub id_value : Option String → Value
id_value none = null
id_value (some id) = str id

abbrev pub check_value : List CheckEntry → Values
check_value [] = none_left
check_value (c ∷ cs) =
    item
      (dict (
        field "name" (str c.name) (
          field "task_id" (id_value c.task_id)
            (field "passed" (flag c.passed) (field "detail" (str c.detail) no_field)))))
      (check_value cs)
