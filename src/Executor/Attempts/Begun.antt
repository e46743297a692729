-- ===== src/Executor/Attempts/Begun.antt =====
-- The attempts in an execution from its beginning, in nexus/executor/executor.py.
use pharae.Base.{
  Bool, if◌then◌else◌, String, true, false, Option, none, some, List, [], ◌∷◌, ok, err, ◌≡◌, refl,
  map, ◌+◌, Bool-cases, inl, inr,
}
use mathlib.Core.Path.{subst}
use pharae.Base.Dict.{Dict}
use pharae.Schemas.{Plan, Task, Value}
use pharae.Kernel.Scheduler.{complete, start, submit, new_scheduler}
use pharae.Kernel.Sessions.{Session, now}
use pharae.Kernel.Runtime.{Runtime, new_run, session_or_new}
use pharae.Kernel.Runtime.Execution.{Exec, Step}
use pharae.Executor.{
  Begun, begin_loop, begin_plan, begin_running, begun, fresh_task, is_task_of, job_run_id, replay,
  replay_one, restore_given, restore_run,
}
use pharae.Executor.Jobs.{Executor, Job, Loop, not_running}
use pharae.Executor.Checkpoints.{Checkpoint}
use pharae.Executor.After.{After, bind-After, lift-After}
use pharae.Executor.Steps.{LoopReach}
use pharae.Executor.Attempts.{IsWithin, ResultsWithin}
use pharae.Executor.Attempts.Recorded.{one, set_result-Within}
use pharae.Executor.Attempts.Moves.{LoopReach-IsWithin}

module _ (e : Executor) where
  replay_one-Within :
      (k : String) (output : Value) (x : Exec)
      → ResultsWithin e x
      → After (ResultsWithin e) (replay_one k output x)
  unfolding replay_one
  replay_one-Within k output x h =
      lift-After (ResultsWithin e) x (start k x.scheduler) _ (λ s began.
        lift-After (ResultsWithin e) (record x { scheduler = s }) (complete k s) _
          (λ t over. set_result-Within e _ x.run (one e) h))

  replay-Within :
      (tasks : List Task) (d : Dict Value) (x : Exec)
      → ResultsWithin e x
      → After (ResultsWithin e) (replay tasks d x)
  unfolding replay
  replay-Within tasks [] x h = h
  replay-Within tasks ((k, output) ∷ d) x h = elim (Bool-cases (is_task_of tasks k)) [
    | inl ours ↦
        rw (ours, After)
          (bind-After (ResultsWithin e) (ResultsWithin e) (replay_one k output x) (replay tasks d)
            (replay_one-Within k output x h) (replay-Within tasks d))
    | inr foreign ↦ rw (foreign, After) (replay-Within tasks d x h)
  ]

  restore_given-Within :
      (tasks : List Task) (o : Option Checkpoint) (x : Exec)
      → ResultsWithin e x
      → After (ResultsWithin e) (restore_given tasks o x)
  unfolding restore_given restore_run
  restore_given-Within tasks none x h = h
  restore_given-Within tasks (some saved) x h =
      bind-After (ResultsWithin e) (ResultsWithin e) (replay tasks saved.completed _) _
        (replay-Within tasks saved.completed _ h) (λ y k. k)

  begin_loop-IsWithin :
      (plan : Plan) (job : Job) (o : Option Checkpoint) (x : Exec)
      → ResultsWithin e x
      → After (IsWithin e) (begin_loop plan job o x)
  unfolding begin_loop
  begin_loop-IsWithin plan job o x h =
      let ts = map fresh_task plan.tasks in
      lift-After (IsWithin e) x (submit ts x.scheduler) _ (λ s admitted.
        bind-After (ResultsWithin e) (IsWithin e) (restore_given ts o _) _
          (restore_given-Within ts o _ h)
          (λ y k. record { flights = tt; drained = tt; results = k }))

pub begun-cases :
    (P : Loop → Type 0) (e : Executor) (r : Runtime) (m : Step Loop) {l : Loop} {e' : Executor}
    {r' : Runtime}
    → begun e r m ≡ (ok l, e', r')
    → After P m
    → P l × (e' ≡ e)
begun-cases P e r (ok k) {l} same h = let this : k ≡ l = cc in (subst P this h, cc)
begun-cases P e r (err (f, x)) same h = absurd cc

pub gate-ok :
    (b : Bool) (x y : Begun) {l : Loop} {e : Executor} {r : Runtime}
    → (y.0 ≡ err not_running)
    → (if b then x else y) ≡ (ok l, e, r)
    → x ≡ (ok l, e, r)
gate-ok true x y bad same = same
gate-ok false x y bad same = absurd cc

begin_plan-IsWithin :
    (plan : Plan) (given : Option Session) (job : Job) (o : Option Checkpoint) (e : Executor)
    (r : Runtime) {l : Loop} {e' : Executor} {r' : Runtime}
    → begin_plan plan given job o e r ≡ (ok l, e', r')
    → IsWithin e' l
unfolding begin_plan begin_running
begin_plan-IsWithin plan given job o e r {l} {e'} same =
    let counted : Executor = record e { counter = e.counter + 1 } in
    let (session, sessions, bus) = session_or_new given r.sessions r.bus in
    let x : Exec = record {
      scheduler = new_scheduler;
      run = new_run (job_run_id (e.counter + 1)) plan.id session.id (now bus);
      state = r.state;
      bus = bus;
    } in
    let (within, kept) =
      begun-cases (IsWithin counted) counted (record r { sessions = sessions })
        (begin_loop plan job o x) (gate-ok r.running _ _ refl same)
        (begin_loop-IsWithin counted plan job o x tt) in
    rw kept within

-- In every execution of a plan by the executor, from its beginning on and also where a checkpoint
-- is replayed, the attempts of each task in flight and of each result lie between one and what the
-- retry policy allows, and a policy that allows none still makes one.
pub begun-IsWithin :
    (plan : Plan) (given : Option Session) (job : Job) (o : Option Checkpoint) (e : Executor)
    (r : Runtime) {l m : Loop} {e' : Executor} {r' : Runtime}
    → begin_plan plan given job o e r ≡ (ok l, e', r')
    → LoopReach e' l m
    → IsWithin e' m
begun-IsWithin plan given job o e r {e' = e'} began reached =
    LoopReach-IsWithin e' reached (begin_plan-IsWithin plan given job o e r began)
