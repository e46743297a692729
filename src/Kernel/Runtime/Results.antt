-- ===== src/Kernel/Runtime/Results.antt =====
-- The report at the end of `Runtime.execute` in nexus/kernel/runtime.py.
use pharae.Base.{
  String, Bool, true, false, ◌||◌, Option, List, [], ◌∷◌, is_empty, all_of, any_of, if◌then◌else◌,
  ok, arith, ◌≡◌, refl, sym, ◌∙◌, ◌==◌, eq_iff, eq_refl, Bool-cases, inl, inr, ◌⊎◌, ◌↔◌, is_some,
  All, In,
}
use pharae.Base.Dict.{Dict, has_key, lookup, has_key-insert, has_key-insert_of, has_key-cons}
use mathlib.Core.Path.{subst}
use pharae.Schemas.{Task, Plan, Run, RunStatus, TaskStatus, TaskResult, is_completed}
use pharae.Kernel.Scheduler.{Scheduler, statuses_of, ready_tasks, done}
use pharae.Kernel.Sessions.{Session}
use pharae.Kernel.Runtime.{Runtime, execute}
use pharae.Kernel.Runtime.Execution.{
  set_result, fill_result, fill_results, run_status, result_statuses, finish_run,
}
use pharae.Kernel.Runtime.Termination.{execute_cases}

set_result-has_key :
    (id : String) (result : TaskResult) (run : Run)
    → has_key id run.task_results ≡ true
    → has_key id (set_result result run).task_results ≡ true
unfolding set_result
set_result-has_key id result run h = has_key-insert_of result.task_id id result run.task_results h

set_result_self :
    (result : TaskResult) (run : Run)
    → has_key result.task_id (set_result result run).task_results ≡ true
unfolding set_result
set_result_self result run = ground (
  arith,
  has_key-insert result.task_id result.task_id result run.task_results,
  eq_refl result.task_id,
)

fill_result-keeps :
    (id k : String) (st : TaskStatus) (run : Run)
    → has_key id run.task_results ≡ true
    → has_key id (fill_result k st run).task_results ≡ true
unfolding fill_result
fill_result-keeps id k st run h = elim (Bool-cases (has_key k run.task_results)) [
  | inl there ↦ rw there h
  | inr missing ↦ rw missing (set_result-has_key id _ run h)
]

fill_result_self :
    (k : String) (st : TaskStatus) (run : Run)
    → has_key k (fill_result k st run).task_results ≡ true
unfolding fill_result
fill_result_self k st run = elim (Bool-cases (has_key k run.task_results)) [
  | inl there ↦ rw there there
  | inr missing ↦ rw missing (set_result_self _ run)
]

fill_results-keeps :
    (id : String) (all : Dict TaskStatus) (run : Run)
    → has_key id run.task_results ≡ true
    → has_key id (fill_results all run).task_results ≡ true
unfolding fill_results
fill_results-keeps id [] run h = h
fill_results-keeps id ((k, st) ∷ rest) run h =
    fill_results-keeps id rest (fill_result k st run) (fill_result-keeps id k st run h)

no_key : (k : String) → has_key {V = Task} k [] ≡ false
unfolding has_key lookup
no_key k = refl

pub fill_results-all :
    (id : String) (tasks : Dict Task) (run : Run)
    → has_key id tasks ≡ true
    → has_key id (fill_results (statuses_of tasks) run).task_results ≡ true
unfolding fill_results
fill_results-all id [] run h = cc (no_key id)
fill_results-all id ((k, t) ∷ tasks) run h = elim (Bool-cases (k == id)) [
  | inl same ↦ fill_results-keeps id (statuses_of tasks) (fill_result k t.status run) (
      subst (λ j. has_key j (fill_result k t.status run).task_results ≡ true) ((eq_iff k id).0 same)
        (fill_result_self k t.status run))
  | inr other ↦
      fill_results-all id tasks (fill_result k t.status run)
        (rw other at (sym (has_key-cons id k t tasks) ∙ h))
]

completed_iff : (st : TaskStatus) → (is_completed st ≡ true) ↔ (st ≡ TaskStatus.completed)
completed_iff st = ((λ h. ground arith), (λ h. ground arith))

-- An execution that returns a run was ended because every task is in a terminal status, or because
-- no task is ready; the run has a result for every task of the scheduler, it is marked as finished,
-- and its status is the one that its results call for.
pub execute-results :
    (plan : Plan) (given : Option Session) (r : Runtime) (run : Run) (s : Scheduler)
    → (execute plan given r).0 ≡ ok (run, s)
    → ((done s ≡ true) ⊎ (is_empty (ready_tasks s) ≡ true))
      × ((id : String) → has_key id s.tasks ≡ true → has_key id run.task_results ≡ true)
      × (run.status ≡ run_status run)
      × (is_some run.finished_at ≡ true)
unfolding finish_run run_status
execute-results plan given r run s e =
    let (y, of_run, of_scheduler, over) = (execute_cases plan given r).1 run s e in
    rw of_run (
      rw of_scheduler (
        either (done y.scheduler) (is_empty (ready_tasks y.scheduler)) over,
        λ id h. fill_results-all id y.scheduler.tasks y.run h,
        refl,
        refl,
      ))
  where
    either : (a b : Bool) → (a || b) ≡ true → (a ≡ true) ⊎ (b ≡ true)
    either a b h = ground arith

All-completed_iff :
    (sts : List TaskStatus)
    → (all_of is_completed sts ≡ true) ↔ All (λ st. st ≡ TaskStatus.completed) sts
All-completed_iff [] = (λ h. tt, λ h. refl)
All-completed_iff (st ∷ sts) = (
  λ h.
      let first : is_completed st ≡ true = ground arith in
      let rest : all_of is_completed sts ≡ true = ground arith in
      ((completed_iff st).0 first, (All-completed_iff sts).0 rest),
  λ h.
      let first = (completed_iff st).1 h.0 in
      let rest = (All-completed_iff sts).1 h.1 in ground arith,
)

any_completed_iff :
    (sts : List TaskStatus) → (any_of is_completed sts ≡ true) ↔ In TaskStatus.completed sts
any_completed_iff [] = (λ h. cc, λ m. absurd m)
any_completed_iff (st ∷ sts) = elim (Bool-cases (is_completed st)) [
  | inl first ↦ (λ h. inl ((completed_iff st).0 first), λ m. rw first)
  | inr other ↦ (
    λ h. inr ((any_completed_iff sts).0 (rw other at h)),
    λ m. rw other (elim m [
      | inl e ↦ let bad = (completed_iff st).1 e in cc
      | inr later ↦ (any_completed_iff sts).1 later
    ]),
  )
]

status_tests :
    (a b : Bool)
    → let status =
        if a then RunStatus.completed else if b then RunStatus.partial else RunStatus.failed in
      ((status ≡ RunStatus.completed) ↔ (a ≡ true))
      × ((status ≡ RunStatus.partial) ↔ ((a ≡ false) × (b ≡ true)))
status_tests true b = ((λ h. refl, λ h. refl), (λ h. cc, λ h. cc))
status_tests false true = ((λ h. cc, λ h. cc), (λ h. (refl, refl), λ h. refl))
status_tests false false = ((λ h. cc, λ h. cc), (λ h. cc, λ h. cc))

-- A run is `completed` exactly if each of its results is completed, and it is `partial` exactly if
-- one is and not all are.
pub run_status_lem :
    (run : Run)
    → ((run_status run ≡ RunStatus.completed)
        ↔ All (λ st. st ≡ TaskStatus.completed) (result_statuses run))
      × ((run_status run ≡ RunStatus.partial) ↔ (
          (¬ All (λ st. st ≡ TaskStatus.completed) (result_statuses run))
          × In TaskStatus.completed (result_statuses run)))
unfolding run_status
run_status_lem run =
    let sts = result_statuses run in
    let all = All-completed_iff sts in
    let some_done = any_completed_iff sts in
    let (whole, part) = status_tests (all_of is_completed sts) (any_of is_completed sts) in
    (
      (λ e. all.0 (whole.0 e), λ h. whole.1 (all.1 h)),
      (
        λ e. let (not_all, one) = part.0 e in (λ h. let bad = all.1 h in cc, some_done.0 one),
        λ (not_all, one). part.1 (
          elim (Bool-cases (all_of is_completed sts)) [
            | inl each ↦ absurd (not_all (all.0 each))
            | inr missing ↦ missing
          ],
          some_done.1 one,
        ),
      ),
    )
