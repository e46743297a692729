-- ===== src/Kernel/Runtime/Termination.antt =====
-- The loop of `Runtime.execute` in nexus/kernel/runtime.py.
use pharae.Base.{
  ℕ, zero, suc, ◌+◌, ◌≤◌, String, Bool, true, false, ◌||◌, Option, none, some, List, [], ◌∷◌,
  is_empty, if◌then◌else◌, Result, ok, err, ◌>>=◌, arith, ◌≡◌, refl, ap, ◌≢◌, Bool-cases, inl, inr,
  length,
}
use pharae.Base.Dict.{Dict}
use pharae.Schemas.{Task, Plan, Run, Value}
use pharae.Kernel.Scheduler.{
  Scheduler, SchedulerError, start, complete, fail, submit, ready_tasks, done,
}
use pharae.Kernel.Scheduler.Marks.{open_count-le}
use pharae.Kernel.Scheduler.Progress.{done_of_count}
use pharae.Kernel.Sessions.{Session}
use pharae.Kernel.Runtime.Context.{Handler}
use pharae.Kernel.Runtime.{
  Runtime, execute_plan, execute, conclude, execute_running, session_or_new, begin_run, run_id,
  conclude, execute_running, session_or_new, begin_run, run_id,
}
use pharae.Kernel.Runtime.Execution.{
  no_rounds, not_started, scheduler_error, Exec, Step, lift, settle_failed, settle_completed,
  settle_reply, run_handler, execute_task, execute_batch, run_loop, is_over, finish_run, resolved,
  started, after_start, resolve_handler, no_handler, finish_run,
}
use pharae.Kernel.Runtime.Rounds.{tasks_open, execute_batch-fewer}

-- The errors that the steps of a round can end with: the scheduler's, never the lack of rounds.
abbrev pub FromScheduler : {A : Type 0} → Step A → Type 0
FromScheduler (ok a) = Unit
FromScheduler (err (e, x)) = e ≢ no_rounds

scheduler_error-ne : (e : SchedulerError) → scheduler_error e ≢ no_rounds
scheduler_error-ne e h = cc

pub lift-FromScheduler :
    {A : Type 0} (x : Exec) (r : Result SchedulerError A) → FromScheduler (lift x r)
lift-FromScheduler x (ok a) = tt
lift-FromScheduler x (err e) = scheduler_error-ne e

bind-FromScheduler :
    {A B : Type 0} (m : Step A) (f : A → Step B)
    → FromScheduler m
    → ((a : A) → FromScheduler (f a))
    → FromScheduler (m >>= f)
bind-FromScheduler (ok a) f h k = k a
bind-FromScheduler (err (e, x)) f h k = h

settle_failed-FromScheduler :
    (t : Task) (error : String) (x : Exec) → FromScheduler (settle_failed t error x)
unfolding settle_failed
settle_failed-FromScheduler t error x =
    bind-FromScheduler (lift x (fail t.id x.scheduler)) _
      (lift-FromScheduler x (fail t.id x.scheduler)) (λ s. tt)

settle_reply-FromScheduler :
    (t : Task) (reply : Result String Value) (x : Exec) → FromScheduler (settle_reply t reply x)
unfolding settle_reply settle_completed
settle_reply-FromScheduler t (err raised) x = settle_failed-FromScheduler t raised x
settle_reply-FromScheduler t (ok output) x =
    bind-FromScheduler (lift x (complete t.id x.scheduler)) _
      (lift-FromScheduler x (complete t.id x.scheduler)) (λ s. tt)

module _ (handlers : Dict Handler) (session : Session) where
  resolved-FromScheduler :
      (t : Task) (found : Option Handler) (x : Exec) → FromScheduler (resolved session t found x)
  unfolding resolved run_handler
  resolved-FromScheduler t none x = settle_failed-FromScheduler t (no_handler t) x
  resolved-FromScheduler t (some h) x = settle_reply-FromScheduler t _ _

  execute_batch-FromScheduler :
      (ts : List Task) (x : Exec) → FromScheduler (execute_batch handlers session ts x)
  unfolding execute_batch execute_task
  execute_batch-FromScheduler [] x = tt
  execute_batch-FromScheduler (t ∷ ts) x =
      bind-FromScheduler (execute_task handlers session t x) (execute_batch handlers session ts)
        (bind-FromScheduler (lift x (start t.id x.scheduler)) (after_start handlers session t x)
          (lift-FromScheduler x (start t.id x.scheduler))
          (λ s. resolved-FromScheduler t (resolve_handler handlers t) (started session t x s)))
        (execute_batch-FromScheduler ts)

  -- What the loop ends with: its own test, or an exception of the scheduler.
  abbrev pub Ends : Step Exec → Type 0
  Ends (ok x) = is_over x ≡ true
  Ends (err (e, x)) = e ≢ no_rounds

  batch_then :
      (m : Step Exec) (f : Exec → Step Exec)
      → FromScheduler m
      → ((x : Exec) → m ≡ ok x → Ends (f x))
      → Ends (m >>= f)
  batch_then (ok x) f h k = k x refl
  batch_then (err (e, x)) f h k = h

  or_false : (a b : Bool) → (a || b) ≡ false → b ≡ false
  or_false a b h = ground arith

  pub run_loop-Ends :
      (fuel : ℕ) (x : Exec) → tasks_open x ≤ fuel → Ends (run_loop fuel handlers session x)
  unfolding run_loop
  run_loop-Ends zero x h =
      let over : is_over x ≡ true = ground (arith, done_of_count x.scheduler h) in rw over over
  run_loop-Ends (suc fuel) x h = elim (Bool-cases (is_over x)) [
    | inl over ↦ rw over over
    | inr going ↦
        let some_task = or_false (done x.scheduler) (is_empty (ready_tasks x.scheduler)) going in
        rw going (
          batch_then (execute_batch handlers session (ready_tasks x.scheduler) x)
            (run_loop fuel handlers session)
            (execute_batch-FromScheduler (ready_tasks x.scheduler) x)
            (λ y e. run_loop-Ends fuel y (
              omega (
                arith,
                execute_batch-fewer handlers session (ready_tasks x.scheduler) x some_task e,
              ))))
  ]

-- The run that an execution returned, and the state that its loop ended in.
abbrev Outcome : Dict Handler → Session → Step Exec → Type 0
Outcome handlers session (ok x) = (y : Exec) × (x ≡ finish_run y) × (is_over y ≡ true)
Outcome handlers session (err (e, x)) = e ≢ no_rounds

finish_Outcome :
    (handlers : Dict Handler) (session : Session) (m : Step Exec)
    → Ends handlers session m
    → Outcome handlers session (m >>= λ y. ok (finish_run y))
finish_Outcome handlers session (ok y) h = (y, refl, h)
finish_Outcome handlers session (err (e, x)) h = h

submit_then :
    (handlers : Dict Handler) (session : Session) (x : Exec) (r : Result SchedulerError Scheduler)
    (f : Scheduler → Step Exec)
    → ((s : Scheduler) → Outcome handlers session (f s))
    → Outcome handlers session (lift x r >>= f)
submit_then handlers session x (ok s) f h = h s
submit_then handlers session x (err e) f h = scheduler_error-ne e

execute_plan-Outcome :
    (handlers : Dict Handler) (session : Session) (plan : Plan) (x : Exec)
    → Outcome handlers session (execute_plan handlers session plan x)
unfolding execute_plan
execute_plan-Outcome handlers session plan x =
    submit_then handlers session x (submit plan.tasks x.scheduler) _ λ s.
      finish_Outcome handlers session _ (
        run_loop-Ends handlers session (length s.tasks) (record x { scheduler = s })
          (open_count-le s.tasks))

conclude_cases :
    (handlers : Dict Handler) (session : Session) (r : Runtime) (m : Step Exec)
    → Outcome handlers session m
    → ((conclude r m).0 ≢ err no_rounds)
      × ((run : Run) (s : Scheduler)
          → (conclude r m).0 ≡ ok (run, s)
          → (y : Exec) × (run ≡ (finish_run y).run)
            × (s ≡ (finish_run y).scheduler)
            × (is_over y ≡ true))
conclude_cases handlers session r (ok x) (y, e, over) = (λ h. cc, λ run s h. (y, cc, cc, over))
conclude_cases handlers session r (err (e, x)) h = (λ bad. h (cc), λ run s bad. cc)

execute_running_cases :
    (plan : Plan) (given : Option Session) (r : Runtime)
    → ((execute_running plan given r).0 ≢ err no_rounds)
      × ((run : Run) (s : Scheduler)
          → (execute_running plan given r).0 ≡ ok (run, s)
          → (y : Exec) × (run ≡ (finish_run y).run)
            × (s ≡ (finish_run y).scheduler)
            × (is_over y ≡ true))
unfolding execute_running
execute_running_cases plan given r =
    let (session, sessions, bus) = session_or_new given r.sessions r.bus in
    let begun = begin_run (run_id (r.run_counter + 1)) session plan.id r.state bus in
    conclude_cases r.handlers session
      (record r { sessions = sessions; run_counter = r.run_counter + 1 })
      (execute_plan r.handlers session plan begun)
      (execute_plan-Outcome r.handlers session plan begun)

execute-running :
    (plan : Plan) (given : Option Session) (r : Runtime)
    → r.running ≡ true
    → execute plan given r ≡ execute_running plan given r
unfolding execute
execute-running plan given r on =
    ap (λ b. if b then execute_running plan given r else (err not_started, r)) on

execute-not_running :
    (plan : Plan) (given : Option Session) (r : Runtime)
    → r.running ≡ false
    → execute plan given r ≡ (err not_started, r)
unfolding execute
execute-not_running plan given r off =
    ap (λ b. if b then execute_running plan given r else (err not_started, r)) off

-- An execution that returns was ended by the loop's own test.
pub execute_cases :
    (plan : Plan) (given : Option Session) (r : Runtime)
    → ((execute plan given r).0 ≢ err no_rounds)
      × ((run : Run) (s : Scheduler)
          → (execute plan given r).0 ≡ ok (run, s)
          → (y : Exec) × (run ≡ (finish_run y).run)
            × (s ≡ (finish_run y).scheduler)
            × (is_over y ≡ true))
execute_cases plan given r = elim (Bool-cases r.running) [
  | inl on ↦ rw (execute-running plan given r on) (execute_running_cases plan given r)
  | inr off ↦ rw (execute-not_running plan given r off) (λ h. cc, λ run s h. cc)
]

-- The loop of `execute` never runs out of rounds: the number of the tasks is enough, since each
-- round closes at least one task.
pub execute_rounds :
    (plan : Plan) (given : Option Session) (r : Runtime) → (execute plan given r).0 ≢ err no_rounds
execute_rounds plan given r = (execute_cases plan given r).0
