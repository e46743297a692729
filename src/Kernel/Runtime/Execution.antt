-- ===== src/Kernel/Runtime/Execution.antt =====
-- The execution of a plan's tasks in `Runtime.execute`: one task, a batch of ready ones, the loop,
-- and the report at its end.
use pharae.Base.{
  ℕ, zero, suc, String, Bool, true, false, ◌&&◌, ◌||◌, not, Option, none, some, List, [], ◌∷◌,
  all_of, any_of, if◌then◌else◌, Result, ok, err, ◌>>=◌, is_empty, map,
}
use pharae.Base.Dict.{Dict, lookup, insert, has_key, values}
use pharae.Base.Text.{◌⧺◌}
use pharae.Schemas.{
  Value, null, str, Task, Run, RunStatus, TaskResult, TaskStatus, is_completed, run_status_value,
}
use pharae.Kernel.Events.{EventBus, announce}
use pharae.Kernel.Scheduler.{
  Scheduler, SchedulerError, ready_tasks, start, complete, fail, done, statuses,
}
use pharae.Kernel.Sessions.{Session, now}
use pharae.Kernel.State.{StateManager}
use pharae.Kernel.Runtime.Context.{Handler, RunContext, call_handler, is_empty_text}

pub data RuntimeError : Type 0 where
  empty_key not_started no_rounds : RuntimeError
  scheduler_error : SchedulerError → RuntimeError

-- `resolve_handler`: a binding that is empty is no binding.
unfoldable pub resolve_handler : Dict Handler → Task → Option Handler
resolve_handler handlers t = elim t.capability_binding [
  | none ↦ lookup t.capability_type handlers
  | some binding ↦
      if not (is_empty_text binding) && has_key binding handlers
      then lookup binding handlers
      else lookup t.capability_type handlers
]

-- The variables of `execute` while it runs.
pub record Exec : Type 0 where
  pub scheduler : Scheduler
  pub run : Run
  pub state : StateManager
  pub bus : EventBus

-- An exception leaves the variables as they were reached.
abbrev pub Step : Type 0 → Type 0
Step A = Result (RuntimeError × Exec) A

abbrev pub lift : {A : Type 0} → Exec → Result SchedulerError A → Step A
lift x (ok a) = ok a
lift x (err e) = err (scheduler_error e, x)

unfoldable pub set_result : TaskResult → Run → Run
set_result result run = record run { task_results = insert result.task_id result run.task_results }

abbrev pub task_event : String → String → Dict Value
task_event task_id run_id = ("task_id", str task_id) ∷ ("run_id", str run_id) ∷ []

abbrev pub failed_result : String → String → TaskResult
failed_result id error = record {
  task_id = id;
  status = TaskStatus.failed;
  output = null;
  error = some error;
  attempts = 1;
}

abbrev pub completed_result : String → Value → TaskResult
completed_result id output = record {
  task_id = id;
  status = TaskStatus.completed;
  output = output;
  error = none;
  attempts = 1;
}

-- The three statements that end a failed task.
unfoldable pub settle_failed : Task → String → Exec → Step Exec
unfolding set_result
settle_failed task error x = do
  scheduler ← lift x (fail task.id x.scheduler)
  ok (record x {
    scheduler = scheduler;
    run = set_result (failed_result task.id error) x.run;
    bus = announce "task.failed" (task_event task.id x.run.id) x.bus;
  })

unfoldable pub settle_completed : Task → Value → Exec → Step Exec
unfolding set_result
settle_completed task output x = do
  scheduler ← lift x (complete task.id x.scheduler)
  ok (record x {
    scheduler = scheduler;
    run = set_result (completed_result task.id output) x.run;
    bus = announce "task.completed" (task_event task.id x.run.id) x.bus;
  })

abbrev pub no_handler : Task → String
no_handler task = "no handler registered for capability type '" ⧺ task.capability_type ⧺ "'"

-- The `try` around the handler's call, and what follows it.
unfoldable pub settle_reply : Task → Result String Value → Exec → Step Exec
settle_reply task (err raised) x = settle_failed task raised x
settle_reply task (ok output) x = settle_completed task output x

unfoldable pub run_handler : Session → Task → Handler → Exec → Step Exec
run_handler session task handler x =
    let ctx : RunContext = record {
      run_id = x.run.id;
      session_id = session.id;
      state = x.state;
      bus = x.bus;
    } in
    let (reply, after) = call_handler handler task ctx in
    settle_reply task reply (record x { state = after.state; bus = after.bus })

-- The state after `scheduler.start` and its event.
abbrev pub started : Session → Task → Exec → Scheduler → Exec
started session task x scheduler = record x {
  scheduler = scheduler;
  bus =
      announce "task.started"
        (("task_id", str task.id) ∷ ("run_id", str x.run.id) ∷ ("session_id", str session.id) ∷ [])
        x.bus;
}

unfoldable pub resolved : Session → Task → Option Handler → Exec → Step Exec
resolved session task none x = settle_failed task (no_handler task) x
resolved session task (some handler) x = run_handler session task handler x

abbrev pub after_start : Dict Handler → Session → Task → Exec → Scheduler → Step Exec
after_start handlers session task x scheduler =
    resolved session task (resolve_handler handlers task) (started session task x scheduler)

-- `_execute_task`
unfoldable pub execute_task : Dict Handler → Session → Task → Exec → Step Exec
execute_task handlers session task x =
    lift x (start task.id x.scheduler) >>= after_start handlers session task x

-- `for task in ready`
unfoldable pub execute_batch : Dict Handler → Session → List Task → Exec → Step Exec
execute_batch handlers session [] x = ok x
execute_batch handlers session (t ∷ ts) x =
    execute_task handlers session t x >>= λ x'. execute_batch handlers session ts x'

-- The loop's test: everything is done, or nothing can run.
abbrev pub is_over : Exec → Bool
is_over x = done x.scheduler || is_empty (ready_tasks x.scheduler)

-- `while not scheduler.done()`, on the rounds left.
unfoldable pub run_loop : ℕ → Dict Handler → Session → Exec → Step Exec
run_loop zero handlers session x = if is_over x then ok x else err (no_rounds, x)
run_loop (suc fuel) handlers session x =
    let round = execute_batch handlers session (ready_tasks x.scheduler) x >>= λ x'.
    run_loop fuel handlers session x' in
    if is_over x then ok x else round

-- The result of a task that never ran.
unfoldable pub fill_result : String → TaskStatus → Run → Run
unfolding set_result
fill_result id status run =
    if has_key id run.task_results
    then run
    else set_result
        (record { task_id = id; status = status; output = null; error = none; attempts = 1 }) run

unfoldable pub fill_results : Dict TaskStatus → Run → Run
unfolding fill_result
fill_results [] run = run
fill_results ((id, status) ∷ rest) run = fill_results rest (fill_result id status run)

abbrev pub result_statuses : Run → List TaskStatus
result_statuses run = map (λ r. r.status) (values run.task_results)

-- `_run_status`
unfoldable pub run_status : Run → RunStatus
run_status run =
    if all_of is_completed (result_statuses run)
    then RunStatus.completed
    else if any_of is_completed (result_statuses run)
    then RunStatus.partial
    else RunStatus.failed

abbrev pub is_run_completed : RunStatus → Bool
is_run_completed RunStatus.completed = true
is_run_completed _ = false

unfoldable pub finish_run : Exec → Exec
unfolding fill_results run_status
finish_run x =
    let filled = fill_results (statuses x.scheduler) x.run in
    let status = run_status filled in
    record x {
      run = record filled { status = status; finished_at = some (now x.bus) };
      bus =
          announce (if is_run_completed status then "run.completed" else "run.failed")
            (("run_id", str x.run.id) ∷ ("status", str (run_status_value status)) ∷ []) x.bus;
    }
