-- ===== src/Verify.antt =====
-- nexus/verify/engine.py. A check is foreign code: it answers, or raises, on a task's result. The
-- quotients of counts, Python's `round`, `repr`, the order of numbers and SHA-256 are arguments.
pub mod Checks
pub mod Traces
pub mod Scores
pub mod Consistency
pub mod Verdicts
pub mod Outcomes
pub mod Returns
pub mod Runs
use pharae.Base.{
  ℕ, ◌+◌, String, Bool, true, false, ◌&&◌, not, Option, none, some, List, [], ◌∷◌, ◌++◌, select,
  all_of, is_empty, if◌then◌else◌, Result, ok, err, ◌>>=◌, map, length,
}
use pharae.Base.Dict.{Dict, has_key}
use pharae.Base.Text.{◌⧺◌}
use pharae.Schemas.{
  Artifact, Evidence, error_if, Float, Plan, Run, RunStatus, Task, Value, dict, flag, float,
  float_zero, list, null, run_status_value, str, task_ids, texts,
}
use pharae.Kernel.Events.{Event, EventBus, announce_to}
use pharae.Kernel.Runtime.Execution.{is_run_completed}
use pharae.Verify.Checks.{
  CheckEntry, VerificationEngine, VerifyError, bad_trace, check_value, entry_log, run_checks,
}
use pharae.Verify.Traces.{Problem, TraceError, problem_text, trace_error, trace_problems}
use pharae.Verify.Scores.{
  Foreign, confidence_of, cost_report, evidence_id, scoring_inputs, scoring_value,
}

-- The reasons for which a run is unverifiable.
pub data UnverifiedReason : Type 0 where
  not_terminal : RunStatus → UnverifiedReason
  without_results : List String → UnverifiedReason
  inconsistent : List Problem → UnverifiedReason

abbrev pub unverified_text : Foreign → UnverifiedReason → String
unverified_text f (not_terminal status) =
    "run is not terminal (status " ⧺ run_status_value status ⧺ ")"
unverified_text f (without_results ids) = "tasks without results: " ⧺ f.show_list ids
unverified_text f (inconsistent problems) =
    "event trace inconsistent: " ⧺ f.join_problems (map (problem_text f.show_ids) problems)

-- `run.status in _TERMINAL_RUN_STATUSES`
abbrev pub is_terminal_run : RunStatus → Bool
is_terminal_run RunStatus.running = false
is_terminal_run _ = true

abbrev pub missing_results : Run → Option Plan → List String
missing_results run none = []
missing_results run (some plan) =
    select (λ id. not (has_key id run.task_results)) (task_ids plan.tasks)

abbrev pub problems_in : Foreign → Run → Option EventBus → List Problem
problems_in f run none = []
problems_in f run (some bus) = trace_problems f.number_le run.id bus.log

abbrev pub trace_result : Option TraceError → Result VerifyError (Unit {0})
trace_result none = ok tt
trace_result (some e) = err (bad_trace e)

-- What `_trace_consistent` raises.
unfoldable pub check_trace : Foreign → Run → Option EventBus → Result VerifyError (Unit {0})
check_trace f run none = ok tt
check_trace f run (some bus) = trace_result (trace_error f.number_le run.id bus.log)

-- The reasons that `verify` collects.
unfoldable pub reasons_of : Foreign → Run → Option Plan → Option EventBus → List UnverifiedReason
reasons_of f run plan bus =
    error_if (not (is_terminal_run run.status)) (not_terminal run.status)
    ++ error_if (not (is_empty (missing_results run plan)))
        (without_results (missing_results run plan))
    ++ error_if (not (is_empty (problems_in f run bus))) (inconsistent (problems_in f run bus))

abbrev pub trace_flag : Foreign → Run → Option EventBus → Option Bool
trace_flag f run none = none
trace_flag f run (some bus) = some (is_empty (trace_problems f.number_le run.id bus.log))

abbrev pub no_plan_log : Option Plan → List String
no_plan_log none = "no plan provided: capability-type checks and reproducibility skipped" ∷ []
no_plan_log (some plan) = []

abbrev pub plan_of : Option Plan → List Task
plan_of none = []
plan_of (some plan) = plan.tasks

abbrev pub id_of_plan : Option Plan → String
id_of_plan none = ""
id_of_plan (some plan) = plan.id

abbrev pub reproducible_of : Option Plan → Bool → Option Bool
reproducible_of none verified = none
reproducible_of (some plan) verified = some verified

-- `success`
abbrev pub is_success : Run → List CheckEntry → Bool
is_success run checks = is_run_completed run.status && all_of (λ c. c.passed) checks

-- The evidence of a run whose checks were made.
unfoldable pub evidence_of :
    Foreign
    → Run
    → Option Plan
    → List Artifact
    → List UnverifiedReason
    → List CheckEntry
    → Option EventBus
    → Evidence
evidence_of f run plan artifacts reasons checks bus =
    let verified = is_empty reasons in
    let scoring = scoring_inputs f run checks (trace_flag f run bus) in
    record {
      id = evidence_id f run (id_of_plan plan) verified;
      run_id = run.id;
      verified = verified;
      confidence = if verified then confidence_of f scoring else float_zero;
      logs =
          ("run " ⧺ run.id ⧺ " status " ⧺ run_status_value run.status) ∷ no_plan_log plan
          ++ map (λ r. "unverified: " ⧺ unverified_text f r) reasons
          ++ map entry_log checks;
      artifact_ids = map (λ a. a.id) artifacts;
      test_results =
          ("success", flag (is_success run checks))
          ∷ ("checks", list (check_value checks))
          ∷ ("scoring", dict (scoring_value scoring))
          ∷ [];
      reproducible = reproducible_of plan verified;
      cost_report = cost_report f run;
    }

-- The event at the end of `verify`.
abbrev pub announce_evidence :
    Foreign → Run → List UnverifiedReason → Evidence → Option EventBus → Option EventBus
announce_evidence f run reasons evidence bus =
    if evidence.verified
    then announce_to bus "run.verified" (
        ("run_id", str run.id)
        ∷ ("evidence_id", str evidence.id)
        ∷ ("confidence", float evidence.confidence)
        ∷ [])
    else announce_to bus "run.unverified"
        (("run_id", str run.id) ∷ ("reasons", texts (map (unverified_text f) reasons)) ∷ [])

abbrev pub conclude_evidence :
    Foreign
    → Run
    → List UnverifiedReason
    → Evidence
    → VerificationEngine
    → Evidence × VerificationEngine
conclude_evidence f run reasons evidence v =
    (evidence, record v { bus = announce_evidence f run reasons evidence v.bus })

-- `verify`
unfoldable pub verify :
    Foreign
    → Run
    → Option Plan
    → List Artifact
    → VerificationEngine
    → Result VerifyError (Evidence × VerificationEngine)
verify f run plan artifacts v =
    let reasons = reasons_of f run plan v.bus in
    check_trace f run v.bus >>= λ traced. run_checks run (plan_of plan) v >>= λ checks.
    ok (conclude_evidence f run reasons (evidence_of f run plan artifacts reasons checks v.bus) v)
