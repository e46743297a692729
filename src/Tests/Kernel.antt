-- ===== src/Tests/Kernel.antt =====
-- The scheduler, the sessions, the state and the runtime on a small plan.
use pharae.Base.{
  String, ◌≡◌, refl, true, false, Option, none, some, [], ◌∷◌, ◌⊎◌, All, In, ok, err, arith, ◌↔◌,
  ◌≢◌, length, ◌||◌, elem, sort_by, is_empty, is_some,
}
use pharae.Base.Dict.{lookup, has_key, insert, get_or, values}
use pharae.Base.Text.{hex}
use pharae.Schemas.{TaskStatus, Run, RunStatus, TaskResult, Value, null, str, task_ids}
use pharae.Kernel.Scheduler.Graph.{kahn, cycle, check_acyclic}
use pharae.Kernel.Scheduler.{
  Scheduler, new_scheduler, submit, store, distinct, check_dependencies, fail, complete, start,
  ready_tasks, is_open, children, finish, get_task, set_status, done,
}
use pharae.Kernel.Scheduler.Rounds.{kahn_total}
use pharae.Kernel.Scheduler.Ready.{Completed, ready_tasks-In}
use pharae.Kernel.Scheduler.Submit.{IsClosed, submit-ok}
use pharae.Kernel.Scheduler.Blocking.{
  IsBlocking, Step, Reach, is_stopped, fail_blocks, Reach-IsBlocking,
}
use pharae.Kernel.State.{StateManager}
use pharae.Kernel.Sessions.{Session, SessionManager, create, session_id, active, new_sessions}
use pharae.Kernel.Sessions.Lifecycle.{IsNumbered, create-fresh}
use pharae.Kernel.Runtime.{execute, execute_running, execute_plan, run_id, session_or_new}
use pharae.Kernel.Runtime.Execution.{
  no_rounds, run_status, run_loop, execute_batch, execute_task, resolved, resolve_handler,
  run_handler, settle_reply, settle_completed, settle_failed, finish_run,
}
use pharae.Kernel.Runtime.Context.{call_handler}
use pharae.Kernel.Events.{announce, publish}
use pharae.Kernel.Runtime.Termination.{execute_rounds}
use pharae.Kernel.Runtime.Results.{execute-results}
use pharae.Tests.Samples.{
  bus, task, tasks, running, failed, plan, runtime, clock, with_status, failing_plan, quiet_runtime,
}

submit_all : Unit {0}
unfolding submit store distinct check_dependencies check_acyclic lookup has_key insert get_or elem
    sort_by
submit_all = tt

fails_running : fail "a" running ≡ ok failed
unfolding fail finish get_task lookup insert get_or
fails_running = refl

fail_blocks_example :
    (is_open "a" running ≡ true)
    × (is_open "a" failed ≡ false)
    × ((x : String)
        → is_open x running ≡ true
        → is_open x failed ≡ false
        → All (λ c. is_open c failed ≡ false) (children x failed))
    × ((x : String) → is_open x running ≡ false → lookup x failed.tasks ≡ lookup x running.tasks)
    × (failed.dependents ≡ running.dependents)
fail_blocks_example = fail_blocks "a" running fails_running

nobody_stopped : IsBlocking running
unfolding is_stopped lookup
nobody_stopped x stopped = absurd (ground arith)

Reach-IsBlocking_example : IsBlocking failed
Reach-IsBlocking_example =
    Reach-IsBlocking (Reach.next Reach.here (Step.fails "a" fails_running)) nobody_stopped

ready_tasks-In_example : In (task "a" [] 0) (ready_tasks running) ↔ (
    In (task "a" [] 0) (values running.tasks)
    × ((task "a" [] 0).status ≡ TaskStatus.pending)
    × All (Completed running) [])
ready_tasks-In_example = ready_tasks-In running (task "a" [] 0)

kahn_cycle : kahn (("a", "b" ∷ []) ∷ ("b", "a" ∷ []) ∷ []) ≡ err cycle
unfolding kahn lookup insert get_or
kahn_cycle = refl

kahn_total_example :
    (kahn (("a", "b" ∷ []) ∷ ("b", "a" ∷ []) ∷ []) ≡ ok tt)
    ⊎ (kahn (("a", "b" ∷ []) ∷ ("b", "a" ∷ []) ∷ []) ≡ err cycle)
kahn_total_example = kahn_total (("a", "b" ∷ []) ∷ ("b", "a" ∷ []) ∷ [])

submitted : submit tasks new_scheduler ≡ ok (store tasks new_scheduler)
unfolding submit_all
submitted = refl

empty-IsClosed : IsClosed new_scheduler
unfolding lookup
empty-IsClosed id t e = cc

submit-ok_example :
    (length (distinct (task_ids tasks)) ≡ length tasks)
    × ((id : String) → In id (task_ids tasks) → has_key id new_scheduler.tasks ≡ false)
    × IsClosed (store tasks new_scheduler)
    × ((id : String)
        → has_key id (store tasks new_scheduler).tasks
          ≡ (elem id (task_ids tasks) || has_key id new_scheduler.tasks))
submit-ok_example = submit-ok tasks new_scheduler empty-IsClosed submitted

abbrev memory : StateManager
memory = record {
  spaces = ("session:1", ("k", str "old") ∷ []) ∷ ("session:2", ("k", str "kept") ∷ []) ∷ [];
}

sessions-IsNumbered : IsNumbered new_sessions
unfolding lookup
sessions-IsNumbered id s e = cc

abbrev first_session : Session
first_session = record {
  id = "ses-000001";
  status = active;
  created_at = clock 0;
  ended_at = none;
  metadata = [];
}

abbrev one_session : SessionManager
one_session = record { sessions = ("ses-000001", first_session) ∷ []; counter = 1 }

first_id : session_id 1 ≡ "ses-000001"
unfolding session_id hex
first_id = refl

found_first : lookup "ses-000001" one_session.sessions ≡ some first_session
unfolding lookup
found_first = refl

created-IsNumbered : IsNumbered (create [] new_sessions bus).1
created-IsNumbered = (create-fresh [] new_sessions bus sessions-IsNumbered).3

execute_rounds_example : (execute plan none runtime).0 ≢ err no_rounds
execute_rounds_example = execute_rounds plan none runtime

abbrev one_done : Run
one_done = record {
  id = "run-1";
  plan_id = "plan-1";
  session_id = "ses-1";
  status = RunStatus.running;
  task_results =
      (
        "a",
        record {
          task_id = "a";
          status = TaskStatus.completed;
          output = null;
          error = none;
          attempts = 1;
        },
      )
      ∷ (
        "b",
        record {
          task_id = "b";
          status = TaskStatus.blocked;
          output = null;
          error = none;
          attempts = 1;
        },
      )
      ∷ [];
  started_at = clock 0;
  finished_at = none;
}

all_open : Unit {0}
unfolding execute submit_all fail complete start done finish get_task set_status
all_open = tt

abbrev outcome : TaskStatus → Value → Option String → String → TaskResult
outcome status output error id = record {
  task_id = id;
  status = status;
  output = output;
  error = error;
  attempts = 1;
}

abbrev final_run : Run
final_run = record {
  id = "run-000001";
  plan_id = "plan-1";
  session_id = "ses-000001";
  status = RunStatus.failed;
  task_results =
      ("b", outcome TaskStatus.failed null (some "RuntimeError('b')") "b")
      ∷ ("d", outcome TaskStatus.blocked null none "d")
      ∷ [];
  started_at = clock 1;
  finished_at = some (clock 4);
}

abbrev final_scheduler : Scheduler
final_scheduler = record {
  tasks =
      ("b", with_status TaskStatus.failed (task "b" [] 0))
      ∷ ("d", with_status TaskStatus.blocked (task "d" ("b" ∷ []) 0))
      ∷ [];
  order = ("b", 0) ∷ ("d", 1) ∷ [];
  dependents = ("b", "d" ∷ []) ∷ [];
}

-- The task that fails blocks the one that depends on it.
execute_runs : (execute failing_plan none quiet_runtime).0 ≡ ok (final_run, final_scheduler)
unfolding all_open execute_running execute_plan run_loop ready_tasks execute_batch execute_task
    resolved resolve_handler run_handler settle_reply call_handler settle_completed settle_failed
    finish_run run_id session_or_new announce publish hex create session_id
execute_runs = refl

execute-results_example :
    ((done final_scheduler ≡ true) ⊎ (is_empty (ready_tasks final_scheduler) ≡ true))
    × ((id : String)
        → has_key id final_scheduler.tasks ≡ true
        → has_key id final_run.task_results ≡ true)
    × (final_run.status ≡ run_status final_run)
    × (is_some final_run.finished_at ≡ true)
execute-results_example =
    execute-results failing_plan none quiet_runtime final_run final_scheduler execute_runs
