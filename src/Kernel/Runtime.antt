-- ===== src/Kernel/Runtime.antt =====
-- nexus/kernel/runtime.py. A task handler is foreign code that is given its task and a context: its
-- reply lists what it set in the session's namespace and what it published, in order, and its
-- output or the `repr` of the exception that it raised. The values that a handler reads back
-- through its context are those of `RunContext.get` before the call.
pub mod Context
pub mod Execution
pub mod Results
pub mod Rounds
pub mod Termination
use pharae.Base.{
  ℕ, zero, suc, ◌+◌, String, Bool, true, false, ◌&&◌, ◌||◌, not, Option, none, some, List, [], ◌∷◌,
  ◌++◌, all_of, any_of, if◌then◌else◌, Result, ok, err, ◌>>=◌, length, is_empty, sort_by, is_some,
  map,
}
use pharae.Base.Dict.{Dict, lookup, insert, erase, has_key, keys, values}
use pharae.Base.Text.{◌⧺◌, hex, is_blank, text_le}
use pharae.Schemas.{
  Float, Value, null, str, Task, Plan, Run, RunStatus, TaskResult, TaskStatus, is_completed,
  run_status_value,
}
use pharae.Kernel.Events.{EventBus, announce}
use pharae.Kernel.Scheduler.{
  Scheduler, SchedulerError, new_scheduler, submit, ready_tasks, start, complete, fail, done,
  statuses,
}
use pharae.Kernel.Sessions.{Session, SessionManager, create, end_session, active_sessions, now}
use pharae.Kernel.State.{StateManager}
use pharae.Kernel.Runtime.Context.{Handler, Reply, RunContext, call_handler, is_empty_text}
use pharae.Kernel.Runtime.Execution.{
  Exec, RuntimeError, Step, after_start, completed_result, empty_key, execute_batch, execute_task,
  failed_result, fill_result, fill_results, finish_run, is_over, is_run_completed, lift, no_handler,
  no_rounds, not_started, resolve_handler, resolved, result_statuses, run_handler, run_loop,
  run_status, scheduler_error, set_result, settle_completed, settle_failed, settle_reply, started,
  task_event,
}

pub record Runtime : Type 0 where
  pub bus : EventBus
  pub state : StateManager
  pub sessions : SessionManager
  pub handlers : Dict Handler
  pub running : Bool
  pub run_counter : ℕ

-- `Runtime.start`
unfoldable pub start_runtime : Runtime → Runtime
start_runtime r =
    if r.running then r else record r { running = true; bus = announce "runtime.started" [] r.bus }

-- The loop of `stop` over the active sessions.
unfoldable pub end_all : List Session → Runtime → Runtime
end_all [] r = r
end_all (s ∷ ss) r =
    let (sessions, state, bus) = end_session s.id r.sessions r.state r.bus in
    end_all ss (record r { sessions = sessions; state = state; bus = bus })

-- `Runtime.stop`
unfoldable pub stop_runtime : Runtime → Runtime
unfolding end_all
stop_runtime r =
    let ended = end_all (active_sessions r.sessions) r in
    if r.running
    then record ended { running = false; bus = announce "runtime.stopped" [] ended.bus }
    else r

unfoldable pub register_handler : String → Handler → Runtime → Result RuntimeError Runtime
register_handler key handler r =
    if is_blank key
    then err empty_key
    else ok (record r { handlers = insert key handler r.handlers })

unfoldable pub unregister_handler : String → Runtime → Bool × Runtime
unregister_handler key r = (has_key key r.handlers, record r { handlers = erase key r.handlers })

abbrev pub get_handler : String → Runtime → Option Handler
get_handler key r = lookup key r.handlers

abbrev pub handler_types : Runtime → List String
handler_types r = sort_by text_le (keys r.handlers)

unfoldable pub run_id : ℕ → String
run_id n = "run-" ⧺ hex 6 n

abbrev pub new_run : String → String → String → Float → Run
new_run id plan_id session_id time = record {
  id = id;
  plan_id = plan_id;
  session_id = session_id;
  status = RunStatus.running;
  task_results = [];
  started_at = time;
  finished_at = none;
}

-- `session or self.sessions.create()`
unfoldable pub session_or_new :
    Option Session → SessionManager → EventBus → Session × SessionManager × EventBus
session_or_new (some session) m bus = (session, m, bus)
session_or_new none m bus = create [] m bus

-- The part of `execute` behind its guard and the choice of the session. The rounds given to the
-- loop are the number of the tasks.
unfoldable pub execute_plan : Dict Handler → Session → Plan → Exec → Step Exec
execute_plan handlers session plan x = do
  scheduler ← lift x (submit plan.tasks x.scheduler)
  ended ← run_loop (length scheduler.tasks) handlers session (record x { scheduler = scheduler })
  ok (finish_run ended)

abbrev pub write_back : Exec → Runtime → Runtime
write_back x r = record r { state = x.state; bus = x.bus }

abbrev pub conclude : Runtime → Step Exec → Result RuntimeError (Run × Scheduler) × Runtime
conclude r (ok x) = (ok (x.run, x.scheduler), write_back x r)
conclude r (err (e, x)) = (err e, write_back x r)

-- The variables when the loop begins.
abbrev pub begin_run : String → Session → String → StateManager → EventBus → Exec
begin_run id session plan_id state bus = record {
  scheduler = new_scheduler;
  run = new_run id plan_id session.id (now bus);
  state = state;
  bus =
      announce "run.started"
        (("run_id", str id) ∷ ("plan_id", str plan_id) ∷ ("session_id", str session.id) ∷ []) bus;
}

-- `Runtime.execute` behind its guard.
unfoldable pub execute_running :
    Plan → Option Session → Runtime → Result RuntimeError (Run × Scheduler) × Runtime
execute_running plan given r =
    let (session, sessions, bus) = session_or_new given r.sessions r.bus in
    let id = run_id (r.run_counter + 1) in
    conclude (record r { sessions = sessions; run_counter = r.run_counter + 1 })
      (execute_plan r.handlers session plan (begin_run id session plan.id r.state bus))

-- `Runtime.execute`. The second part of a result is the scheduler's tasks, which are the plan's own
-- objects: their statuses are what the caller's plan shows afterwards.
unfoldable pub execute :
    Plan → Option Session → Runtime → Result RuntimeError (Run × Scheduler) × Runtime
execute plan given r = if r.running then execute_running plan given r else (err not_started, r)
