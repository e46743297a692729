-- ===== src/Verify/Runs.antt =====
-- The runs that nexus/executor/executor.py reports, before nexus/verify/engine.py.
use pharae.Base.{
  both_branches, ℕ, ◌||◌, String, Bool, true, false, ◌&&◌, not, Option, none, some, List, [], ◌∷◌,
  ok, err, Result, is_empty, ltb, map, elem, elem_iff, In, arith, ◌≡◌, refl, sym, ap, ◌∙◌,
  Bool-cases, inl, inr,
}
use mathlib.Core.Path.{subst}
use pharae.Base.Dict.{Dict, has_key}
use pharae.Schemas.{Artifact, Evidence, Plan, Task, Value, task_ids}
use pharae.Kernel.Events.{EventBus}
use pharae.Kernel.State.{StateManager}
use pharae.Kernel.Scheduler.{complete, start, submit}
use pharae.Kernel.Scheduler.Stored.{Reach-Stays, Step-Stays}
use pharae.Kernel.Scheduler.Blocking.{completes, started}
use pharae.Kernel.Scheduler.Submit.{submit-has_key}
use pharae.Kernel.Runtime.Context.{Handler}
use pharae.Kernel.Runtime.Execution.{Exec, run_status}
use pharae.Kernel.Runtime.Results.{fill_results-all}
use pharae.Executor.{
  begin_loop, fresh_task, is_task_of, replay, replay_one, restore_given, restore_run,
}
use pharae.Executor.Checkpoints.{Checkpoint}
use pharae.Executor.Jobs.{Executor, Flight, Job, Loop, Phase, find_flight, is_cancelled}
use pharae.Executor.Machine.{
  act, admit, advance, advance_at, at, dispatch, final_status, launch, report_run, retry, settle,
  settle_found, settle_outcome,
}
use pharae.Executor.After.{After, After-ok, any_exec, bind-After, in_loop-After, lift-After}
use pharae.Executor.Steps.{
  LoopReach, LoopReach-scheduler, LoopStep, advances, controls, acts, here, next,
}
use pharae.Verify.{is_terminal_run, verify}
use pharae.Verify.Checks.{VerificationEngine}
use pharae.Verify.Scores.{Foreign}
use pharae.Verify.Verdicts.{HasResults, IsConsistent, verify_lem}

-- What is known of the run at a place of the loop: behind the report, it is over, and every task of
-- the scheduler has a result.
abbrev Reported : Phase → Exec → Type 0
Reported Phase.ended x =
    (is_terminal_run x.run.status ≡ true)
    × ((id : String) → has_key id x.scheduler.tasks ≡ true → has_key id x.run.task_results ≡ true)
Reported _ x = Unit

abbrev IsReported : Loop → Type 0
IsReported l = Reported l.phase l.exec

-- A place before the end of the report.
abbrev Busy : Loop → Type 0
Busy l = (x : Exec) → Reported l.phase x

run_status-over : (x : Exec) → is_terminal_run (run_status x.run) ≡ true
unfolding run_status
run_status-over x = ground arith

final_status-over : (b : Bool) (x : Exec) → is_terminal_run (final_status b x) ≡ true
unfolding final_status
final_status-over true x = refl
final_status-over false x = run_status-over x

module _ (e : Executor) where
  settle_outcome-IsReported :
      (allow : Bool) (f : Flight) (ns : List ℕ) (o : Result String Value) (l : Loop)
      → Busy l
      → After IsReported (settle_outcome e allow f ns o l)
  unfolding settle_outcome retry
  settle_outcome-IsReported allow f ns (ok output) l b =
      in_loop-After (λ x. Unit {0}) IsReported l _ (any_exec _) (λ x _. b x)
  settle_outcome-IsReported allow f ns (err error) l b =
      elim (Bool-cases (allow && ltb f.attempt e.max_attempts)) [
        | inl again ↦ rw (again, After) tt
        | inr last ↦
            rw (last, After)
              (in_loop-After (λ x. Unit {0}) IsReported l _ (any_exec _) (λ x _. b x))
      ]

  settle_found-IsReported :
      (n : ℕ) (ns : List ℕ) (o : Option Flight) (l : Loop) → IsReported (settle_found n ns o l)
  settle_found-IsReported n ns none l = tt
  settle_found-IsReported n ns (some f) l = tt

  launch-IsReported :
      (t : Task) (o : Option Handler) (l : Loop) → Busy l → After IsReported (launch e t o l)
  unfolding launch
  launch-IsReported t none l b =
      in_loop-After (λ x. Unit {0}) IsReported l _ (any_exec _) (λ x _. b x)
  launch-IsReported t (some handler) l b = b _

  admit-IsReported :
      (t : Task) (o : Option String) (l : Loop) → Busy l → After IsReported (admit e t o l)
  unfolding admit
  admit-IsReported t none l b = launch-IsReported t _ l b
  admit-IsReported t (some reason) l b =
      in_loop-After (λ x. Unit {0}) IsReported l _ (any_exec _) (λ x _. b x)

  advance_at-IsReported :
      (chosen : List ℕ) (p : Phase) (l : Loop)
      → Reported p l.exec
      → IsReported l
      → After IsReported (advance_at e chosen p l)
  unfolding advance_at dispatch settle report_run
  advance_at-IsReported chosen Phase.testing l h k =
      both_branches (λ p. Reported p l.exec) (is_cancelled l.job) Phase.closing Phase.choosing tt tt
  advance_at-IsReported chosen Phase.choosing l h k = tt
  advance_at-IsReported chosen (Phase.dispatching []) l h k = tt
  advance_at-IsReported chosen (Phase.dispatching (t ∷ ts)) l h k =
      lift-After IsReported l.exec (start t.id l.exec.scheduler) _
        (λ s _. admit-IsReported t _ _ (λ x. tt))
  advance_at-IsReported chosen Phase.checking l h k =
      both_branches (λ p. Reported p l.exec) (not (is_empty l.inflight)) Phase.waiting _ tt
        (both_branches (λ p. Reported p l.exec) _ Phase.testing Phase.closing tt tt)
  advance_at-IsReported chosen Phase.waiting l h k = tt
  advance_at-IsReported chosen (Phase.settling []) l h k = tt
  advance_at-IsReported chosen (Phase.settling (n ∷ ns)) l h k =
      settle_found-IsReported n ns (find_flight n l.inflight) l
  advance_at-IsReported chosen (Phase.deciding allow f ns) l h k =
      settle_outcome-IsReported allow f ns (e.outcome f.future) _ (λ x. tt)
  advance_at-IsReported chosen (Phase.resubmitting f ns) l h k = tt
  advance_at-IsReported chosen Phase.closing l h k =
      both_branches (λ p. Reported p l.exec) (is_cancelled l.job) (Phase.draining l.inflight)
        Phase.ending tt tt
  advance_at-IsReported chosen (Phase.draining []) l h k = tt
  advance_at-IsReported chosen (Phase.draining (f ∷ fs)) l h k =
      settle_outcome-IsReported false f [] (e.outcome f.future) _ (λ x. tt)
  advance_at-IsReported chosen Phase.ending l h k =
      in_loop-After (λ x. Unit {0}) IsReported (at Phase.reporting l) _ (any_exec _) (λ x _. tt)
  advance_at-IsReported chosen Phase.reporting l h k = (
    final_status-over (is_cancelled l.job) _,
    λ id there. fill_results-all id l.exec.scheduler.tasks l.exec.run there,
  )
  advance_at-IsReported chosen Phase.ended l h k = k

  kept :
      (p : Phase) (x : Exec) (s : StateManager) (b : EventBus)
      → Reported p x
      → Reported p (record x { state = s; bus = b })
  kept Phase.ended x s b h = h
  kept _ x s b h = h

  LoopStep-IsReported : {l m : Loop} → LoopStep e l m → IsReported l → IsReported m
  unfolding act advance
  LoopStep-IsReported {l} {m} (advances chosen stepped) h =
      After-ok IsReported _ (advance_at-IsReported chosen l.phase l h h) stepped
  LoopStep-IsReported {l} {m} (controls c same) h = rw same h
  LoopStep-IsReported {l} {m} (acts effect same) h = rw same (kept l.phase l.exec _ _ h)

LoopReach-IsReported : (e : Executor) {l m : Loop} → LoopReach e l m → IsReported l → IsReported m
LoopReach-IsReported e here h = h
LoopReach-IsReported e (next r step) h = LoopStep-IsReported e step (LoopReach-IsReported e r h)

fresh_ids : (ts : List Task) → task_ids (map fresh_task ts) ≡ task_ids ts
fresh_ids [] = refl
fresh_ids (t ∷ ts) = ap (λ ids. t.id ∷ ids) (fresh_ids ts)

-- The task is stored in the scheduler.
abbrev Stored : String → Exec → Type 0
Stored id x = has_key id x.scheduler.tasks ≡ true

replay_one-Stored :
    (id k : String) (output : Value) (x : Exec)
    → Stored id x
    → After (Stored id) (replay_one k output x)
unfolding replay_one
replay_one-Stored id k output x h = lift-After (Stored id) x (start k x.scheduler) _ (λ s one.
    lift-After (Stored id) (record x { scheduler = s }) (complete k s) _
      (λ t two. Step-Stays (completes k two) id (Step-Stays (started k one) id h)))

replay-Stored :
    (id : String) (tasks : List Task) (d : Dict Value) (x : Exec)
    → Stored id x
    → After (Stored id) (replay tasks d x)
unfolding replay
replay-Stored id tasks [] x h = h
replay-Stored id tasks ((k, output) ∷ d) x h = elim (Bool-cases (is_task_of tasks k)) [
  | inl ours ↦
      rw (ours, After)
        (bind-After (Stored id) (Stored id) (replay_one k output x) (replay tasks d)
          (replay_one-Stored id k output x h) (replay-Stored id tasks d))
  | inr foreign ↦ rw (foreign, After) (replay-Stored id tasks d x h)
]

restore_given-Stored :
    (id : String) (tasks : List Task) (o : Option Checkpoint) (x : Exec)
    → Stored id x
    → After (Stored id) (restore_given tasks o x)
unfolding restore_given restore_run
restore_given-Stored id tasks none x h = h
restore_given-Stored id tasks (some saved) x h =
    bind-After (Stored id) (Stored id) (replay tasks saved.completed _) _
      (replay-Stored id tasks saved.completed _ h) (λ y k. k)

begin_loop-Stored :
    (plan : Plan) (job : Job) (o : Option Checkpoint) (x : Exec) (id : String)
    → In id (task_ids plan.tasks)
    → After (λ l. Stored id l.exec) (begin_loop plan job o x)
unfolding begin_loop
begin_loop-Stored plan job o x id there =
    let ts = map fresh_task plan.tasks in
    lift-After (λ l. Stored id l.exec) x (submit ts x.scheduler) _
      (λ s admitted.
        let listed : elem id (task_ids ts) ≡ true =
          ap (elem id) (fresh_ids plan.tasks) ∙ (elem_iff id (task_ids plan.tasks)).1 there in
        let stored = submit-has_key ts x.scheduler admitted in
        bind-After (Stored id) (λ l. Stored id l.exec) (restore_given ts o _) _
          (restore_given-Stored id ts o _
            (stored id ∙ ap (λ b. b || has_key id x.scheduler.tasks) listed))
          (λ y k. k))

begin_loop-IsReported :
    (plan : Plan) (job : Job) (o : Option Checkpoint) (x : Exec)
    → After IsReported (begin_loop plan job o x)
unfolding begin_loop
begin_loop-IsReported plan job o x =
    let ts = map fresh_task plan.tasks in
    lift-After IsReported x (submit ts x.scheduler) _ (λ s admitted.
      bind-After (λ y. Unit {0}) IsReported (restore_given ts o _) _ (any_exec _) (λ y k. tt))

-- The run of a plan that the executor comes to report, also where it was resumed, retried, paused or
-- cancelled, is verified by an engine that looks at no log: it is over, and it has a result for
-- every task of the plan.
pub verify-executed :
    (e : Executor) (plan : Plan) (job : Job) (restored : Option Checkpoint) (x : Exec) {l m : Loop}
    → begin_loop plan job restored x ≡ ok l
    → LoopReach e l m
    → m.phase ≡ Phase.ended
    → (f : Foreign) (artifacts : List Artifact) (v : VerificationEngine) {ev : Evidence}
      {v' : VerificationEngine}
    → v.bus ≡ none
    → verify f m.exec.run (some plan) artifacts v ≡ ok (ev, v')
    → ev.verified ≡ true
verify-executed e plan job restored x {l} {m} began r ended f artifacts v no_bus verified =
    let first =
      After-ok IsReported (begin_loop plan job restored x)
        (begin_loop-IsReported plan job restored x) began in
    let (over, covered) = subst (λ p. Reported p m.exec) ended (LoopReach-IsReported e r first) in
    let has_results : HasResults m.exec.run (some plan) = λ id there. covered id (
      Reach-Stays (LoopReach-scheduler e r) id (
        After-ok (λ k. Stored id k.exec) (begin_loop plan job restored x)
          (begin_loop-Stored plan job restored x id there) began)) in
    let consistent : IsConsistent f m.exec.run v.bus =
      subst (IsConsistent f m.exec.run) (sym no_bus) tt in
    (verify_lem f m.exec.run (some plan) artifacts v verified).0.1 (over, has_results, consistent)
