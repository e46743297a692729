-- ===== src/Executor.antt =====
-- nexus/executor/executor.py. A submitted future is its number, and what it will return is given
-- by that number: the handlers run in other threads, and which of them returned is what a wait
-- chooses. The dispatcher's thread is a machine whose phase is its place in `_run`, so that the
-- calls of a job and the effects of the handlers fall between any two of its steps.
pub mod Jobs
pub mod Checkpoints
pub mod Machine
pub mod After
pub mod Attempts
pub mod Cancellation
pub mod Leftovers
pub mod Reports
pub mod Tracking
pub mod Tracked
pub mod Replay
pub mod Schedule
pub mod Steps
pub mod Places
pub mod Dependencies
use pharae.Base.{
  ℕ, ◌+◌, String, Bool, true, false, Option, none, some, List, [], ◌∷◌, if◌then◌else◌, Result, ok,
  err, ◌>>=◌, any_of, select, sort_by, map, ◌==◌,
}
use pharae.Base.Dict.{Dict, insert, lookup, erase, get_or, has_key}
use pharae.Base.Text.{◌⧺◌, hex, text_le}
use pharae.Schemas.{Value, null, str, texts, dict, Task, Plan, TaskStatus}
use pharae.Kernel.Events.{EventBus, announce, publish}
use pharae.Kernel.Scheduler.{Scheduler, SchedulerError, new_scheduler, submit, start, complete}
use pharae.Kernel.Sessions.{Session, session_space, now}
use pharae.Kernel.State.{StateManager, get, restore}
use pharae.Kernel.Runtime.{Runtime, new_run, session_or_new}
use pharae.Kernel.Runtime.Execution.{
  Exec, RuntimeError, Step, completed_result, lift, scheduler_error, set_result,
}
use pharae.Executor.Jobs.{Executor, ExecutorError, Job, Loop, Phase, new_job}
use pharae.Executor.Checkpoints.{Checkpoint, field_or_empty, load_checkpoint, space_name}

-- `Task(...)` for each task of the plan: a copy whose status is the default.
abbrev pub fresh_task : Task → Task
fresh_task t = record t { status = TaskStatus.pending }

abbrev pub with_result : String → Value → Exec → Exec
with_result id output x = record x { run = set_result (completed_result id output) x.run }

unfoldable pub replay_one : String → Value → Exec → Step Exec
replay_one id output x = do
  begun ← lift x (start id x.scheduler)
  over ← lift (record x { scheduler = begun }) (complete id begun)
  ok (with_result id output (record x { scheduler = over }))

abbrev pub is_task_of : List Task → String → Bool
is_task_of tasks id = any_of (λ t. t.id == id) tasks

-- The loop over the checkpoint's outputs.
unfoldable pub replay : List Task → Dict Value → Exec → Step Exec
replay tasks [] x = ok x
replay tasks ((id, output) ∷ rest) x =
    (if is_task_of tasks id then replay_one id output x else ok x) >>= replay tasks rest

abbrev pub replayed : List Task → Dict Value → List String
replayed tasks completed = map (λ e. e.0) (select (λ e. is_task_of tasks e.0) completed)

unfoldable pub restore_run : List Task → Checkpoint → Exec → Step Exec
restore_run tasks saved x = do
  y ←
      replay tasks saved.completed
        (record x { state = restore saved.session_state (session_space x.run.session_id) x.state })
  ok (record y {
    bus =
        announce "run.resumed"
          (("run_id", str y.run.id)
            ∷ ("plan_id", str y.run.plan_id)
            ∷ ("restored", texts (sort_by text_le (replayed tasks saved.completed)))
            ∷ [])
          y.bus;
  })

unfoldable pub restore_given : List Task → Option Checkpoint → Exec → Step Exec
restore_given tasks none x = ok x
restore_given tasks (some saved) x = restore_run tasks saved x

abbrev pub job_run_id : ℕ → String
job_run_id n = "run-e" ⧺ hex 5 n

-- `_run` up to its loop, behind the choice of the session.
unfoldable pub begin_loop : Plan → Job → Option Checkpoint → Exec → Step Loop
begin_loop plan job restored x = do
  let tasks = map fresh_task plan.tasks
  scheduler ← lift x (submit tasks x.scheduler)
  y ← restore_given tasks restored (record x { scheduler = scheduler })
  ok (record {
    phase = Phase.testing;
    job = job;
    exec = record y {
      bus =
          announce "run.started"
            (("run_id", str y.run.id)
              ∷ ("plan_id", str y.run.plan_id)
              ∷ ("session_id", str y.run.session_id)
              ∷ [])
            y.bus;
    };
    inflight = [];
    futures = 0;
  })

abbrev pub Begun : Type 0
Begun = Result ExecutorError Loop × Executor × Runtime

abbrev pub begun : Executor → Runtime → Step Loop → Begun
begun e r (ok l) = (ok l, e, record r { state = l.exec.state; bus = l.exec.bus })
begun e r (err (f, x)) =
    (err (ExecutorError.raised f), e, record r { state = x.state; bus = x.bus })

unfoldable pub begin_running :
    Plan → Option Session → Job → Option Checkpoint → Executor → Runtime → Begun
begin_running plan given job restored e r =
    let (session, sessions, bus) = session_or_new given r.sessions r.bus in
    let x : Exec = record {
      scheduler = new_scheduler;
      run = new_run (job_run_id (e.counter + 1)) plan.id session.id (now bus);
      state = r.state;
      bus = bus;
    } in
    begun (record e { counter = e.counter + 1 }) (record r { sessions = sessions })
      (begin_loop plan job restored x)

-- `_run` up to its loop.
unfoldable pub begin_plan :
    Plan → Option Session → Job → Option Checkpoint → Executor → Runtime → Begun
begin_plan plan given job restored e r =
    if r.running
    then begin_running plan given job restored e r
    else (err ExecutorError.not_running, e, r)

-- `Executor.execute`, up to the loop.
unfoldable pub execute_job : Plan → Option Session → Executor → Runtime → Begun
execute_job plan given e r = begin_plan plan given (new_job false) none e r

-- `Executor.submit`: its test, and `_run` up to its loop in the thread that it starts. An error of
-- `_run` behind the test ends that thread.
unfoldable pub submit_job : Plan → Option Session → Bool → Executor → Runtime → Begun
submit_job plan given paused e r = begin_plan plan given (new_job paused) none e r

-- What a checkpoint that cannot be read leaves in the session's memory.
abbrev pub restored_part : Option (Dict Value) → String → StateManager → StateManager
restored_part none space s = s
restored_part (some session_state) space s = restore session_state space s

abbrev pub session_part : Value → Option (Dict Value)
session_part (dict fs) = field_or_empty "session_state" fs
session_part _ = none

abbrev pub begun_unread :
    Value → Session → Executor → Runtime → Result SchedulerError Scheduler → Begun
begun_unread stored session e r (err f) = (err (ExecutorError.raised (scheduler_error f)), e, r)
begun_unread stored session e r (ok scheduler) =
    let state = restored_part (session_part stored) (session_space session.id) r.state in
    (err ExecutorError.bad_checkpoint, e, record r { state = state })

-- `_run` with a checkpoint that cannot be read: it raises behind the submission of the tasks. One
-- whose session state alone is no dictionary is taken for such a checkpoint.
unfoldable pub begin_unread : Value → Plan → Option Session → Executor → Runtime → Begun
begin_unread stored plan given e r =
    let (session, sessions, bus) = session_or_new given r.sessions r.bus in
    begun_unread stored session (record e { counter = e.counter + 1 })
      (record r { sessions = sessions; bus = bus })
      (submit (map fresh_task plan.tasks) new_scheduler)

abbrev pub resume_from :
    Value → Plan → Option Session → Executor → Runtime → Option Checkpoint → Begun
resume_from stored plan given e r none =
    if r.running then begin_unread stored plan given e r else (err ExecutorError.not_running, e, r)
resume_from stored plan given e r (some saved) =
    begin_plan plan given (new_job false) (some saved) e r

abbrev pub is_null : Value → Bool
is_null null = true
is_null _ = false

-- `Executor.resume`, up to the loop. A stored value that is no checkpoint raises an exception of
-- the language.
unfoldable pub resume : Plan → Option Session → Executor → Runtime → Begun
resume plan given e r =
    let stored = get space_name plan.id null r.state in
    if is_null stored
    then (err (ExecutorError.no_checkpoint plan.id), e, r)
    else resume_from stored plan given e r (load_checkpoint stored)
