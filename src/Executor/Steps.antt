-- ===== src/Executor/Steps.antt =====
-- The steps of the dispatcher, of a job's calls and of the handlers in nexus/executor/executor.py,
-- and what they do to the scheduler.
use pharae.Base.{
  ℕ, String, Bool, true, false, ◌&&◌, Option, none, some, List, [], ◌∷◌, Result, ok, err, ◌>>=◌,
  ltb, arith, ◌≡◌, refl, sym, Bool-cases, inl, inr,
}
use mathlib.Core.Path.{subst}
use pharae.Base.Dict.{Dict}
use pharae.Schemas.{Task, TaskStatus, Value, is_terminal}
use pharae.Kernel.Scheduler.{Scheduler, SchedulerError, cancel, complete, fail, start, statuses}
use pharae.Kernel.Scheduler.Blocking
use pharae.Kernel.Scheduler.Blocking.{IsBlocking, Reach-IsBlocking}
use pharae.Kernel.Runtime.Context.{Effect, Handler}
use pharae.Kernel.Runtime.Execution.{Exec, Step, lift, no_handler}
use pharae.Executor.Jobs.{
  Control, Executor, Flight, Loop, Phase, control, find_flight, is_cancelled,
}
use pharae.Executor.Checkpoints.{save_checkpoint}
use pharae.Executor.Machine.{
  act, at, admit, advance, advance_at, begun_task, block_task, cancel_open, cancel_rest,
  complete_task, dispatch, fail_task, in_loop, launch, note_completion, note_failure, refusal,
  report_run, retry, settle, settle_found, settle_outcome,
}

-- A step of the dispatcher, a call of the job's methods, or an effect of a handler in flight.
pub data LoopStep (e : Executor) (l m : Loop) : Type 0 where
  advances : (chosen : List ℕ) → advance e chosen l ≡ ok m → LoopStep e l m
  controls : (c : Control) → m ≡ record l { job = control c l.job } → LoopStep e l m
  acts : (effect : Effect) → m ≡ act effect l → LoopStep e l m

pub data LoopReach (e : Executor) (l : Loop) : Loop → Type 0 where
  here : LoopReach e l l
  next : {m n : Loop} → LoopReach e l m → LoopStep e m n → LoopReach e l n

abbrev Calls : Scheduler → Scheduler → Type 0
Calls s t = Blocking.Reach s t

Calls-trans : {s t u : Scheduler} → Calls s t → Calls t u → Calls s u
Calls-trans p Blocking.here = p
Calls-trans p (Blocking.next q step) = Blocking.next (Calls-trans p q) step

single : {s t : Scheduler} → Blocking.Step s t → Calls s t
single step = Blocking.next Blocking.here step

-- The calls of the scheduler that lead to the state that a step ends in, also where it raises.
abbrev GoesExec : Scheduler → Step Exec → Type 0
GoesExec s (ok x) = Calls s x.scheduler
GoesExec s (err (f, x)) = Calls s x.scheduler

abbrev Goes : Scheduler → Step Loop → Type 0
Goes s (ok l) = Calls s l.exec.scheduler
Goes s (err (f, x)) = Calls s x.scheduler

GoesExec-from : {s t : Scheduler} (m : Step Exec) → Calls s t → GoesExec t m → GoesExec s m
GoesExec-from (ok x) p q = Calls-trans p q
GoesExec-from (err (f, x)) p q = Calls-trans p q

Goes-from : {s t : Scheduler} (m : Step Loop) → Calls s t → Goes t m → Goes s m
Goes-from (ok x) p q = Calls-trans p q
Goes-from (err (f, x)) p q = Calls-trans p q

bind-GoesExec :
    (s : Scheduler) (m : Step Exec) (f : Exec → Step Exec)
    → GoesExec s m
    → ((x : Exec) → GoesExec x.scheduler (f x))
    → GoesExec s (m >>= f)
bind-GoesExec s (ok x) f p h = GoesExec-from (f x) p (h x)
bind-GoesExec s (err (e, x)) f p h = p

in_loop-Goes : (s : Scheduler) (l : Loop) (m : Step Exec) → GoesExec s m → Goes s (in_loop l m)
in_loop-Goes s l (ok x) p = p
in_loop-Goes s l (err (f, x)) p = p

lift_exec :
    (x : Exec) (r : Result SchedulerError Scheduler) (f : Scheduler → Step Exec)
    → ((t : Scheduler) → r ≡ ok t → Blocking.Step x.scheduler t)
    → ((t : Scheduler) → GoesExec t (f t))
    → GoesExec x.scheduler (lift x r >>= f)
lift_exec x (ok t) f step h = GoesExec-from (f t) (single (step t refl)) (h t)
lift_exec x (err e) f step h = Blocking.here

lift_loop :
    (x : Exec) (r : Result SchedulerError Scheduler) (f : Scheduler → Step Loop)
    → ((t : Scheduler) → r ≡ ok t → Blocking.Step x.scheduler t)
    → ((t : Scheduler) → Goes t (f t))
    → Goes x.scheduler (lift x r >>= f)
lift_loop x (ok t) f step h = Goes-from (f t) (single (step t refl)) (h t)
lift_loop x (err e) f step h = Blocking.here

pub save_checkpoint-scheduler :
    (e : Executor) (x : Exec) → (save_checkpoint e x).scheduler ≡ x.scheduler
unfolding save_checkpoint
save_checkpoint-scheduler e x = ground arith

note_failure-Goes :
    (t : Task) (error : String) (n : ℕ) (x : Exec) → GoesExec x.scheduler (note_failure t error n x)
unfolding note_failure
note_failure-Goes t error n x =
    lift_exec x (fail t.id x.scheduler) _ (λ s ended. Blocking.fails t.id ended)
      (λ s. Blocking.here)

note_completion-Goes :
    (t : Task) (output : Value) (n : ℕ) (x : Exec)
    → GoesExec x.scheduler (note_completion t output n x)
unfolding note_completion
note_completion-Goes t output n x =
    lift_exec x (complete t.id x.scheduler) _ (λ s ended. Blocking.completes t.id ended)
      (λ s. Blocking.here)

report_run-scheduler :
    (cancelled : Bool) (x : Exec) → (report_run cancelled x).scheduler ≡ x.scheduler
unfolding report_run
report_run-scheduler cancelled x = refl

saved : (e : Executor) (x : Exec) → Calls x.scheduler (save_checkpoint e x).scheduler
saved e x = subst (λ s. Calls x.scheduler s) (sym (save_checkpoint-scheduler e x)) Blocking.here

module _ (e : Executor) where
  fail_task-Goes :
      (t : Task) (error : String) (n : ℕ) (x : Exec)
      → GoesExec x.scheduler (fail_task e t error n x)
  unfolding fail_task
  fail_task-Goes t error n x =
      bind-GoesExec _ (note_failure t error n x) _ (note_failure-Goes t error n x) (λ y. saved e _)

  complete_task-Goes :
      (t : Task) (output : Value) (n : ℕ) (x : Exec)
      → GoesExec x.scheduler (complete_task e t output n x)
  unfolding complete_task
  complete_task-Goes t output n x =
      bind-GoesExec _ (note_completion t output n x) _ (note_completion-Goes t output n x)
        (λ y. saved e _)

  block_task-Goes :
      (t : Task) (reason : String) (x : Exec) → GoesExec x.scheduler (block_task e t reason x)
  unfolding block_task
  block_task-Goes t reason x =
      bind-GoesExec _ (note_failure t _ 1 x) _ (note_failure-Goes t _ 1 x) (λ y. saved e _)

  launch-Goes :
      (t : Task) (found : Option Handler) (l : Loop) → Goes l.exec.scheduler (launch e t found l)
  unfolding launch
  launch-Goes t none l = in_loop-Goes _ l _ (fail_task-Goes t (no_handler t) 1 l.exec)
  launch-Goes t (some h) l = Blocking.here

  admit-Goes :
      (t : Task) (refused : Option String) (l : Loop) → Goes l.exec.scheduler (admit e t refused l)
  unfolding admit
  admit-Goes t (some reason) l = in_loop-Goes _ l _ (block_task-Goes t reason l.exec)
  admit-Goes t none l = launch-Goes t _ l

  dispatch-Goes : (t : Task) (l : Loop) → Goes l.exec.scheduler (dispatch e t l)
  unfolding dispatch
  dispatch-Goes t l =
      lift_loop l.exec (start t.id l.exec.scheduler) _ (λ s began. Blocking.started t.id began)
        (λ s. admit-Goes t (refusal e t) (begun_task t l s))

  settle_outcome-Goes :
      (allow : Bool) (f : Flight) (ns : List ℕ) (o : Result String Value) (l : Loop)
      → Goes l.exec.scheduler (settle_outcome e allow f ns o l)
  unfolding settle_outcome retry
  settle_outcome-Goes allow f ns (ok output) l =
      in_loop-Goes _ l _ (complete_task-Goes f.task output f.attempt l.exec)
  settle_outcome-Goes allow f ns (err error) l =
      elim (Bool-cases (allow && ltb f.attempt e.max_attempts)) [
        | inl again ↦ rw again Blocking.here
        | inr last ↦ rw last (in_loop-Goes _ l _ (fail_task-Goes f.task error f.attempt l.exec))
      ]

  settle-Goes :
      (allow : Bool) (f : Flight) (ns : List ℕ) (l : Loop)
      → Goes l.exec.scheduler (settle e allow f ns l)
  unfolding settle
  settle-Goes allow f ns l = settle_outcome-Goes allow f ns (e.outcome f.future) l

  cancel_rest-Goes : (d : Dict TaskStatus) (x : Exec) → GoesExec x.scheduler (cancel_rest d x)
  unfolding cancel_rest
  cancel_rest-Goes [] x = Blocking.here
  cancel_rest-Goes ((id, status) ∷ rest) x = elim (Bool-cases (is_terminal status)) [
    | inl over ↦ rw over (cancel_rest-Goes rest x)
    | inr open_ ↦ rw open_ (
        bind-GoesExec _ (lift x (cancel id x.scheduler) >>= λ s. ok (record x { scheduler = s }))
          (cancel_rest rest)
          (lift_exec x (cancel id x.scheduler) _ (λ s ended. Blocking.cancels id ended)
            (λ s. Blocking.here))
          (cancel_rest-Goes rest))
  ]

  cancel_open-Goes : (cancelled : Bool) (x : Exec) → GoesExec x.scheduler (cancel_open cancelled x)
  unfolding cancel_open
  cancel_open-Goes false x = Blocking.here
  cancel_open-Goes true x = cancel_rest-Goes (statuses x.scheduler) x

  settle_found-Goes :
      (n : ℕ) (ns : List ℕ) (o : Option Flight) (l : Loop)
      → Calls l.exec.scheduler (settle_found n ns o l).exec.scheduler
  settle_found-Goes n ns none l = Blocking.here
  settle_found-Goes n ns (some f) l = Blocking.here

  advance_at-Goes :
      (chosen : List ℕ) (p : Phase) (l : Loop) → Goes l.exec.scheduler (advance_at e chosen p l)
  unfolding advance_at
  advance_at-Goes chosen Phase.testing l = Blocking.here
  advance_at-Goes chosen Phase.choosing l = Blocking.here
  advance_at-Goes chosen (Phase.dispatching []) l = Blocking.here
  advance_at-Goes chosen (Phase.dispatching (t ∷ ts)) l = dispatch-Goes t _
  advance_at-Goes chosen Phase.checking l = Blocking.here
  advance_at-Goes chosen Phase.waiting l = Blocking.here
  advance_at-Goes chosen (Phase.settling []) l = Blocking.here
  advance_at-Goes chosen (Phase.settling (n ∷ ns)) l =
      settle_found-Goes n ns (find_flight n l.inflight) l
  advance_at-Goes chosen (Phase.deciding allow f ns) l = settle-Goes allow f ns _
  advance_at-Goes chosen (Phase.resubmitting f ns) l = Blocking.here
  advance_at-Goes chosen Phase.closing l = Blocking.here
  advance_at-Goes chosen (Phase.draining []) l = Blocking.here
  advance_at-Goes chosen (Phase.draining (f ∷ fs)) l = settle-Goes false f [] _
  advance_at-Goes chosen Phase.ending l =
      in_loop-Goes _ (at Phase.reporting l) (cancel_open (is_cancelled l.job) l.exec)
        (cancel_open-Goes (is_cancelled l.job) l.exec)
  advance_at-Goes chosen Phase.reporting l =
      subst (λ s. Calls l.exec.scheduler s) (sym (report_run-scheduler _ l.exec)) Blocking.here
  advance_at-Goes chosen Phase.ended l = Blocking.here

pub LoopStep-Calls :
    (e : Executor) {l m : Loop} → LoopStep e l m → Calls l.exec.scheduler m.exec.scheduler
unfolding act advance
LoopStep-Calls e {l} {m} (advances chosen stepped) =
    subst (λ r. Goes l.exec.scheduler r) stepped (advance_at-Goes e chosen l.phase l)
LoopStep-Calls e {l} {m} (controls c same) = rw same Blocking.here
LoopStep-Calls e {l} {m} (acts effect same) = rw same Blocking.here

-- Whatever the dispatcher, the calls of the job and the handlers in flight do, in any order, the
-- scheduler goes through a sequence of starts, completions, failures and cancellations only.
pub LoopReach-scheduler :
    (e : Executor) {l m : Loop} → LoopReach e l m → Blocking.Reach l.exec.scheduler m.exec.scheduler
LoopReach-scheduler e here = Blocking.here
LoopReach-scheduler e (next r step) = Calls-trans (LoopReach-scheduler e r) (LoopStep-Calls e step)

-- In an execution by the executor no dependent of a failed or blocked task is ever open.
pub LoopReach-IsBlocking :
    (e : Executor) {l m : Loop}
    → LoopReach e l m
    → IsBlocking l.exec.scheduler
    → IsBlocking m.exec.scheduler
LoopReach-IsBlocking e r h = Reach-IsBlocking (LoopReach-scheduler e r) h
