-- ===== src/Tests/Runs.antt =====
-- A run of the executor and its verification.
use pharae.Base.{true, false, none, some, List, [], ◌∷◌, sort_by, ok, ◌≡◌, refl}
use pharae.Base.Dict.{has_key, get_or, insert, lookup}
use pharae.Kernel.Runtime.{new_run}
use pharae.Kernel.Runtime.Execution.{Exec, Step, completed_result}
use pharae.Kernel.State.{snapshot}
use pharae.Executor.Jobs.{ExecutorError, Flight, Loop, Phase, new_job}
use pharae.Executor.Checkpoints.{save_checkpoint}
use pharae.Executor.Machine.{
  act, admit, advance, advance_at, cancel_open, cancel_rest, complete_task, dispatch, fail_task,
  final_status, launch, note_completion, note_failure, refusal, report_run, retry, settle,
  settle_outcome,
}
use pharae.Kernel.Events.{announce, publish}
use pharae.Kernel.Scheduler.{
  cancel, complete, fail, finish, get_task, ready_tasks, set_status, start,
}
use pharae.Kernel.State.{put}
use pharae.Kernel.Runtime.Execution.{fill_results, resolve_handler, set_result}
use pharae.Executor.Schedule.{Turn, take_turns, take_turns-LoopReach}
use pharae.Base.{Result, err, elem}
use pharae.Kernel.Scheduler.{new_scheduler, distinct, store, submit, check_dependencies}
use pharae.Kernel.Scheduler.Graph.{check_acyclic}
use pharae.Schemas.{Evidence}
use pharae.Kernel.Runtime.{session_or_new}
use pharae.Executor.Attempts.{IsWithin}
use pharae.Executor.Dependencies.{begun-released}
use pharae.Kernel.Scheduler.Ready.{Completed}
use pharae.Base.{All, In, inl, sym, ◌++◌}
use mathlib.Core.Path.{subst}
use pharae.Executor.Attempts.Begun.{begun-IsWithin}
use pharae.Executor.{Begun, begin_plan, begin_running, begin_loop, restore_given}
use pharae.Verify.{check_trace, conclude_evidence, evidence_of, reasons_of, verify}
use pharae.Verify.Checks.{
  CheckEntry, VerificationEngine, answer_entry, apply_all, apply_check, check_task, check_tasks,
  completed_entry, run_checks,
}
use pharae.Verify.Traces.{is_of_run, orphans, problems_of, task_event_ids, trace_problems}
use pharae.Verify.Scores.{Foreign}
use pharae.Verify.Runs.{verify-executed}
use pharae.Tests.Executor.{all_returned, round, begun, exec, executor, last, turns}
use pharae.Tests.Samples.{quiet_runtime, failing_plan, task}
use pharae.Tests.Verify.{foreign}

abbrev unscheduled : Exec
unscheduled = record exec { scheduler = new_scheduler }

abbrev first : Loop
first = last begun (begin_loop failing_plan (new_job false) none unscheduled)

abbrev final : Loop
final = last first (take_turns executor turns first)

abbrev without_bus : VerificationEngine
without_bus = record { bus = none; checks = [] }

abbrev all_completed : List CheckEntry
all_completed = completed_entry final.exec.run ∷ []

abbrev verified : Evidence
verified = evidence_of foreign final.exec.run (some failing_plan) [] [] all_completed none

all_parts : Unit {0}
unfolding begin_loop restore_given submit store check_dependencies check_acyclic act admit advance
    advance_at announce answer_entry apply_all apply_check cancel cancel_open cancel_rest check_task
    check_tasks complete complete_task dispatch distinct elem fail fail_task fill_results
    final_status finish get_or get_task has_key insert is_of_run launch lookup note_completion
    note_failure orphans problems_of publish put ready_tasks reasons_of refusal report_run
    resolve_handler retry run_checks save_checkpoint set_status settle settle_outcome snapshot
    sort_by start take_turns task_event_ids trace_problems verify
all_parts = tt

began : begin_loop failing_plan (new_job false) none unscheduled ≡ ok first
unfolding all_parts
began = refl

ran : take_turns executor turns first ≡ ok final
unfolding all_parts
ran = refl

over : final.phase ≡ Phase.ended
unfolding all_parts
over = refl

checked :
    verify foreign final.exec.run (some failing_plan) [] without_bus ≡ ok (verified, without_bus)
unfolding all_parts check_trace evidence_of pharae.Kernel.Runtime.Execution.run_status
    pharae.Verify.Scores.scoring_inputs
checked = refl

verify-executed_example : verified.verified ≡ true
verify-executed_example =
    verify-executed executor failing_plan (new_job false) none unscheduled began
      (take_turns-LoopReach executor turns first ran) over foreign [] without_bus refl checked

abbrev started : Begun
started = begin_plan failing_plan none (new_job false) none executor quiet_runtime

abbrev loop_of : Result ExecutorError Loop → Loop
loop_of (ok l) = l
loop_of (err e) = begun

abbrev start_loop : Loop
start_loop = loop_of started.0

abbrev start_end : Loop
start_end = last start_loop (take_turns executor turns start_loop)

did_start :
    begin_plan failing_plan none (new_job false) none executor quiet_runtime
    ≡ (ok start_loop, record executor { counter = 1 }, started.2)
unfolding all_parts begin_plan begin_running session_or_new
did_start = refl

did_run : take_turns (record executor { counter = 1 }) turns start_loop ≡ ok start_end
unfolding all_parts begin_plan begin_running session_or_new
did_run = refl

begun-IsWithin_example : IsWithin (record executor { counter = 1 }) start_end
begun-IsWithin_example =
    begun-IsWithin failing_plan none (new_job false) none executor quiet_runtime did_start
      (take_turns-LoopReach (record executor { counter = 1 }) turns start_loop did_run)

-- The second task is in flight: the first was retried, and completed.
abbrev half_turns : List Turn
half_turns =
    round
    ++ all_returned ∷ all_returned ∷ all_returned ∷ all_returned ∷ all_returned ∷ all_returned ∷ []

abbrev half : Loop
half = last start_loop (take_turns (record executor { counter = 1 }) half_turns start_loop)

ran_half : take_turns (record executor { counter = 1 }) half_turns start_loop ≡ ok half
unfolding all_parts begin_plan begin_running session_or_new
ran_half = refl

abbrev flight_of_d : Flight
flight_of_d = record { future = 2; task = task "d" ("b" ∷ []) 0; attempt = 1 }

half_inflight : half.inflight ≡ flight_of_d ∷ []
unfolding all_parts begin_plan begin_running session_or_new
half_inflight = refl

d_flies : In flight_of_d half.inflight
d_flies = subst (In flight_of_d) (sym half_inflight) (inl refl)

begun-released_example : All (Completed half.exec.scheduler) ("b" ∷ [])
begun-released_example =
    begun-released failing_plan none (new_job false) none executor quiet_runtime did_start
      (take_turns-LoopReach (record executor { counter = 1 }) half_turns start_loop ran_half)
      flight_of_d d_flies
