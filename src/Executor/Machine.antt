-- ===== src/Executor/Machine.antt =====
-- The steps of `Executor._run` in nexus/executor/executor.py.
use pharae.Base.{
  ℕ, ◌+◌, String, Bool, true, false, ◌&&◌, not, Option, none, some, List, [], ◌∷◌, ◌++◌, is_empty,
  if◌then◌else◌, Result, ok, err, ◌>>=◌, ltb,
}
use pharae.Base.Dict.{Dict}
use pharae.Base.Text.{◌⧺◌}
use pharae.Schemas.{
  Value, str, nat, Task, TaskResult, TaskStatus, RunStatus, is_terminal, run_status_value,
}
use pharae.Kernel.Events.{announce}
use pharae.Kernel.Scheduler.{Scheduler, start, complete, fail, cancel, done, ready_tasks, statuses}
use pharae.Kernel.Sessions.{now}
use pharae.Kernel.Runtime.Context.{Effect, Handler, RunContext, apply_effect}
use pharae.Kernel.Runtime.Execution.{
  Exec, Step, completed_result, failed_result, fill_results, lift, no_handler, resolve_handler,
  run_status, set_result, task_event,
}
use pharae.Security.{check}
use pharae.Executor.Jobs.{
  Executor, Flight, Loop, Phase, drop_flight, find_flight, is_cancelled, is_paused,
}
use pharae.Executor.Checkpoints.{save_checkpoint}

abbrev pub after_attempts : ℕ → TaskResult → TaskResult
after_attempts n result = record result { attempts = n }

-- `scheduler.fail` and the result of the task.
unfoldable pub note_failure : Task → String → ℕ → Exec → Step Exec
note_failure task error attempt x = do
  scheduler ← lift x (fail task.id x.scheduler)
  ok (record x {
    scheduler = scheduler;
    run = set_result (after_attempts attempt (failed_result task.id error)) x.run;
  })

unfoldable pub note_completion : Task → Value → ℕ → Exec → Step Exec
note_completion task output attempt x = do
  scheduler ← lift x (complete task.id x.scheduler)
  ok (record x {
    scheduler = scheduler;
    run = set_result (after_attempts attempt (completed_result task.id output)) x.run;
  })

abbrev pub publish_in : String → Dict Value → Exec → Exec
publish_in topic payload x = record x { bus = announce topic payload x.bus }

abbrev pub end_failed : Executor → Task → Exec → Exec
end_failed e task x = save_checkpoint e (publish_in "task.failed" (task_event task.id x.run.id) x)

unfoldable pub fail_task : Executor → Task → String → ℕ → Exec → Step Exec
fail_task e task error attempt x = do
  y ← note_failure task error attempt x
  ok (end_failed e task y)

unfoldable pub complete_task : Executor → Task → Value → ℕ → Exec → Step Exec
complete_task e task output attempt x = do
  y ← note_completion task output attempt x
  ok (save_checkpoint e (publish_in "task.completed" (task_event task.id y.run.id) y))

abbrev pub blocked_event : Task → String → Exec → Dict Value
blocked_event task reason x =
    ("task_id", str task.id) ∷ ("run_id", str x.run.id) ∷ ("reason", str reason) ∷ []

unfoldable pub block_task : Executor → Task → String → Exec → Step Exec
block_task e task reason x = do
  y ← note_failure task ("blocked by security policy: " ⧺ reason) 1 x
  ok (end_failed e task (publish_in "security.blocked" (blocked_event task reason y) y))

-- `pool.submit` and the entry in `inflight`.
abbrev pub add_flight : Task → ℕ → Loop → Loop
add_flight task attempt l = record l {
  inflight = l.inflight ++ record { future = l.futures; task = task; attempt = attempt } ∷ [];
  futures = l.futures + 1;
}

abbrev pub in_loop : Loop → Step Exec → Step Loop
in_loop l m = m >>= λ x. ok (record l { exec = x })

-- The reason of the guard's refusal.
unfoldable pub refusal : Executor → Task → Option String
refusal e task = elim e.security [
  | none ↦ none
  | some guard ↦
      let (allowed, reason) = check task e.registry guard in
      if allowed then none else some (e.show_reason reason)
]

-- The end of `_dispatch`: the future, if there is a handler.
unfoldable pub launch : Executor → Task → Option Handler → Loop → Step Loop
launch e task none l = in_loop l (fail_task e task (no_handler task) 1 l.exec)
launch e task (some handler) l = ok (add_flight task 1 l)

-- `_dispatch` behind `scheduler.start` and its event.
unfoldable pub admit : Executor → Task → Option String → Loop → Step Loop
admit e task (some reason) l = in_loop l (block_task e task reason l.exec)
admit e task none l = launch e task (resolve_handler e.handlers task) l

abbrev pub begun_task : Task → Loop → Scheduler → Loop
begun_task task l scheduler = record l {
  exec =
      publish_in "task.started" (task_event task.id l.exec.run.id)
        (record l.exec { scheduler = scheduler });
}

-- `_dispatch` of a first attempt, the only one that it is called for.
unfoldable pub dispatch : Executor → Task → Loop → Step Loop
dispatch e task l = lift l.exec (start task.id l.exec.scheduler) >>= λ s.
    admit e task (refusal e task) (begun_task task l s)

-- The retry's event; its future is made in the next step.
unfoldable pub retry : Flight → List ℕ → Loop → Loop
retry f ns l = record l {
  phase = Phase.resubmitting f ns;
  exec =
      publish_in "task.retried"
        (("task_id", str f.task.id)
          ∷ ("run_id", str l.exec.run.id)
          ∷ ("attempt", nat (f.attempt + 1))
          ∷ [])
        l.exec;
}

-- `_settle` of an entry and what its future returned or raised, before these other futures.
unfoldable pub settle_outcome :
    Executor → Bool → Flight → List ℕ → Result String Value → Loop → Step Loop
settle_outcome e allow_retry f ns (ok output) l =
    in_loop l (complete_task e f.task output f.attempt l.exec)
settle_outcome e allow_retry f ns (err error) l =
    if allow_retry && ltb f.attempt e.max_attempts
    then ok (retry f ns l)
    else in_loop l (fail_task e f.task error f.attempt l.exec)

unfoldable pub settle : Executor → Bool → Flight → List ℕ → Loop → Step Loop
settle e allow_retry f ns l = settle_outcome e allow_retry f ns (e.outcome f.future) l

abbrev pub at : Phase → Loop → Loop
at phase l = record l { phase = phase }

-- `inflight.pop(future)` and `not job.cancelled`
abbrev pub settle_found : ℕ → List ℕ → Option Flight → Loop → Loop
settle_found n ns none l = at (Phase.settling ns) l
settle_found n ns (some f) l =
    at (Phase.deciding (not (is_cancelled l.job)) f ns)
      (record l { inflight = drop_flight n l.inflight })

-- The loop over the statuses after a cancellation.
unfoldable pub cancel_rest : Dict TaskStatus → Exec → Step Exec
cancel_rest [] x = ok x
cancel_rest ((id, status) ∷ rest) x =
    (if is_terminal status
      then ok x
      else lift x (cancel id x.scheduler) >>= λ s. ok (record x { scheduler = s }))
    >>= cancel_rest rest

unfoldable pub cancel_open : Bool → Exec → Step Exec
cancel_open false x = ok x
cancel_open true x = cancel_rest (statuses x.scheduler) x

-- `_final_status`
unfoldable pub final_status : Bool → Exec → RunStatus
final_status cancelled x = if cancelled then RunStatus.cancelled else run_status x.run

abbrev pub final_topic : RunStatus → String
final_topic RunStatus.completed = "run.completed"
final_topic RunStatus.cancelled = "run.cancelled"
final_topic _ = "run.failed"

-- The end of `_run`: the missing results, the status, and the event.
unfoldable pub report_run : Bool → Exec → Exec
report_run cancelled x =
    let y : Exec = record x { run = fill_results (statuses x.scheduler) x.run } in
    let status = final_status cancelled y in
    publish_in (final_topic status)
      (("run_id", str y.run.id) ∷ ("status", str (run_status_value status)) ∷ [])
      (record y { run = record y.run { status = status; finished_at = some (now y.bus) } })

abbrev pub after_check : Loop → Phase
after_check l =
    if not (is_empty l.inflight)
    then Phase.waiting
    else if is_paused l.job && not (done l.exec.scheduler)
    then Phase.testing
    else Phase.closing

-- One step of `_run`, by its place. The futures that a wait finds returned are `chosen`, of which
-- there is none if the wait timed out.
unfoldable pub advance_at : Executor → List ℕ → Phase → Loop → Step Loop
advance_at e chosen Phase.testing l =
    ok (at (if is_cancelled l.job then Phase.closing else Phase.choosing) l)
advance_at e chosen Phase.choosing l =
    ok (at (Phase.dispatching (if is_paused l.job then [] else ready_tasks l.exec.scheduler)) l)
advance_at e chosen (Phase.dispatching []) l = ok (at Phase.checking l)
advance_at e chosen (Phase.dispatching (t ∷ ts)) l = dispatch e t (at (Phase.dispatching ts) l)
advance_at e chosen Phase.checking l = ok (at (after_check l) l)
advance_at e chosen Phase.waiting l = ok (at (Phase.settling chosen) l)
advance_at e chosen (Phase.settling []) l = ok (at Phase.testing l)
advance_at e chosen (Phase.settling (n ∷ ns)) l =
    ok (settle_found n ns (find_flight n l.inflight) l)
advance_at e chosen (Phase.deciding allow_retry f ns) l =
    settle e allow_retry f ns (at (Phase.settling ns) l)
advance_at e chosen (Phase.resubmitting f ns) l =
    ok (add_flight f.task (f.attempt + 1) (at (Phase.settling ns) l))
advance_at e chosen Phase.closing l =
    ok (at (if is_cancelled l.job then Phase.draining l.inflight else Phase.ending) l)
advance_at e chosen (Phase.draining []) l = ok (at Phase.ending (record l { inflight = [] }))
advance_at e chosen (Phase.draining (f ∷ fs)) l = settle e false f [] (at (Phase.draining fs) l)
advance_at e chosen Phase.ending l =
    in_loop (at Phase.reporting l) (cancel_open (is_cancelled l.job) l.exec)
advance_at e chosen Phase.reporting l =
    ok (record (at Phase.ended l) { exec = report_run (is_cancelled l.job) l.exec })
advance_at e chosen Phase.ended l = ok l

unfoldable pub advance : Executor → List ℕ → Loop → Step Loop
advance e chosen l = advance_at e chosen l.phase l

-- What a handler does through its context while it is in flight.
unfoldable pub act : Effect → Loop → Loop
act effect l =
    let ctx : RunContext = record {
      run_id = l.exec.run.id;
      session_id = l.exec.run.session_id;
      state = l.exec.state;
      bus = l.exec.bus;
    } in
    let after = apply_effect effect ctx in
    record l { exec = record l.exec { state = after.state; bus = after.bus } }
