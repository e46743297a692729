-- ===== src/Executor/Dependencies.antt =====
-- The dependencies of the tasks in flight in nexus/executor/executor.py.
use pharae.Base.{Option, List, [], ◌∷◌, ok, map, ◌+◌, All, All-In, In, ◌≡◌, refl}
use pharae.Schemas.{Plan, Task}
use pharae.Kernel.Scheduler.{Scheduler, submit, new_scheduler}
use pharae.Kernel.Scheduler.Blocking.{Reach}
use pharae.Kernel.Scheduler.Final.{Reach-All}
use pharae.Kernel.Scheduler.Ready.{Completed, ready_tasks-In}
use pharae.Kernel.Sessions.{Session, now}
use pharae.Kernel.Runtime.{Runtime, new_run, session_or_new}
use pharae.Kernel.Runtime.Execution.{Exec}
use pharae.Executor.{begin_loop, begin_plan, begin_running, fresh_task, job_run_id, restore_given}
use pharae.Executor.Jobs.{Executor, Flight, Job, Loop, Phase}
use pharae.Executor.Checkpoints.{Checkpoint}
use pharae.Executor.After.{After, any_exec, bind-After, lift-After}
use pharae.Executor.Steps.{LoopReach, LoopStep, LoopStep-Calls, here, next}
use pharae.Executor.Places.{FlightsHold, Holds, LoopStep-Holds, PlaceHolds}
use pharae.Executor.Attempts.Begun.{begun-cases, gate-ok}

-- Every dependency of the task is stored and completed.
abbrev IsReleased : Scheduler → Task → Type 0
IsReleased s t = All (Completed s) t.depends_on

flights-Later :
    {s t : Scheduler}
    → Reach s t
    → (fs : List Flight) → FlightsHold (IsReleased s) fs
    → FlightsHold (IsReleased t) fs
flights-Later r [] h = tt
flights-Later r (f ∷ fs) h = (Reach-All r f.task.depends_on h.0, flights-Later r fs h.1)

tasks-Later :
    {s t : Scheduler} → Reach s t → (ts : List Task) → All (IsReleased s) ts → All (IsReleased t) ts
tasks-Later r [] h = tt
tasks-Later r (u ∷ us) h = (Reach-All r u.depends_on h.0, tasks-Later r us h.1)

place-Later :
    {s t : Scheduler}
    → Reach s t
    → (p : Phase) → PlaceHolds (IsReleased s) p
    → PlaceHolds (IsReleased t) p
place-Later r (Phase.dispatching ts) h = tasks-Later r ts h
place-Later r (Phase.draining fs) h = flights-Later r fs h
place-Later r (Phase.deciding allow f ns) h = Reach-All r f.task.depends_on h
place-Later r (Phase.resubmitting f ns) h = Reach-All r f.task.depends_on h
place-Later r Phase.testing h = tt
place-Later r Phase.choosing h = tt
place-Later r Phase.checking h = tt
place-Later r Phase.waiting h = tt
place-Later r (Phase.settling ns) h = tt
place-Later r Phase.closing h = tt
place-Later r Phase.ending h = tt
place-Later r Phase.reporting h = tt
place-Later r Phase.ended h = tt

abbrev AreReleased : Loop → Type 0
AreReleased l = Holds (IsReleased l.exec.scheduler) l

LoopStep-AreReleased : (e : Executor) {l m : Loop} → LoopStep e l m → AreReleased l → AreReleased m
LoopStep-AreReleased e {l} {m} step h =
    let r = LoopStep-Calls e step in
    let held =
      LoopStep-Holds e (IsReleased l.exec.scheduler) step
        (λ t ready. let (_, _, deps) = (ready_tasks-In l.exec.scheduler t).0 ready in deps) h in
    record {
      flights = flights-Later r m.inflight held.flights;
      place = place-Later r m.phase held.place;
    }

LoopReach-AreReleased :
    (e : Executor) {l m : Loop} → LoopReach e l m → AreReleased l → AreReleased m
LoopReach-AreReleased e here h = h
LoopReach-AreReleased e (next r step) h = LoopStep-AreReleased e step (LoopReach-AreReleased e r h)

begin_loop-AreReleased :
    (plan : Plan) (job : Job) (o : Option Checkpoint) (x : Exec)
    → After AreReleased (begin_loop plan job o x)
unfolding begin_loop
begin_loop-AreReleased plan job o x =
    let ts = map fresh_task plan.tasks in
    lift-After AreReleased x (submit ts x.scheduler) _ (λ s admitted.
      bind-After (λ y. Unit {0}) AreReleased (restore_given ts o _) _ (any_exec _)
        (λ y k. record { flights = tt; place = tt }))

begin_plan-AreReleased :
    (plan : Plan) (given : Option Session) (job : Job) (o : Option Checkpoint) (e : Executor)
    (r : Runtime) {l : Loop} {e' : Executor} {r' : Runtime}
    → begin_plan plan given job o e r ≡ (ok l, e', r')
    → AreReleased l
unfolding begin_plan begin_running
begin_plan-AreReleased plan given job o e r same =
    let (session, sessions, bus) = session_or_new given r.sessions r.bus in
    let x : Exec = record {
      scheduler = new_scheduler;
      run = new_run (job_run_id (e.counter + 1)) plan.id session.id (now bus);
      state = r.state;
      bus = bus;
    } in
    (begun-cases AreReleased (record e { counter = e.counter + 1 })
      (record r { sessions = sessions }) (begin_loop plan job o x) (gate-ok r.running _ _ refl same)
      (begin_loop-AreReleased plan job o x)).0

-- In every execution of a plan by the executor, from its beginning on and also where a checkpoint
-- is replayed, a task is in flight only where each of its dependencies is stored and completed,
-- whatever was retried, paused or cancelled.
pub begun-released :
    (plan : Plan) (given : Option Session) (job : Job) (o : Option Checkpoint) (e : Executor)
    (r : Runtime) {l m : Loop} {e' : Executor} {r' : Runtime}
    → begin_plan plan given job o e r ≡ (ok l, e', r')
    → LoopReach e' l m
    → (f : Flight) → In f m.inflight
    → All (Completed m.exec.scheduler) f.task.depends_on
begun-released plan given job o e r {m = m} {e' = e'} began reached f there =
    All-In (λ g. IsReleased m.exec.scheduler g.task) f m.inflight
      (LoopReach-AreReleased e' reached (begin_plan-AreReleased plan given job o e r began)).flights
      there
