-- ===== src/Executor/Attempts/Recorded.antt =====
-- The attempts in the results that nexus/executor/executor.py records.
use pharae.Base.{
  ℕ, String, Bool, true, false, [], ◌∷◌, ok, All, arith, ◌≡◌, Bool-cases, inl, inr, ◌==◌,
}
use pharae.Base.Dict.{Dict, insert, values, has_key}
use pharae.Schemas.{Task, TaskResult, TaskStatus, Value, Run, is_terminal}
use pharae.Kernel.Scheduler.{cancel, complete, fail, statuses}
use pharae.Kernel.Runtime.Execution.{Exec, fill_result, fill_results, set_result}
use pharae.Executor.Jobs.{Executor}
use pharae.Executor.Checkpoints.{save_checkpoint}
use pharae.Executor.Machine.{
  block_task, cancel_open, cancel_rest, complete_task, fail_task, note_completion, note_failure,
  report_run,
}
use pharae.Executor.After.{After, bind-After, lift-After}
use pharae.Executor.Attempts.{ResultsWithin, Within}

All-values-insert :
    {A : Type 0} (P : A → Type 0) (k : String) (v : A) (d : Dict A)
    → P v
    → All P (values d)
    → All P (values (insert k v d))
unfolding insert
All-values-insert P k v [] p h = (p, tt)
All-values-insert P k v ((j, w) ∷ d) p h = elim (Bool-cases (j == k)) [
  | inl same ↦ rw same (p, h.1)
  | inr other ↦ rw other (h.0, All-values-insert P k v d p h.1)
]

module _ (e : Executor) where
  pub one : Within e 1
  one = (omega arith, ground arith)

  pub set_result-Within :
      (r : TaskResult) (run : Run)
      → Within e r.attempts
      → All (λ q. Within e q.attempts) (values run.task_results)
      → All (λ q. Within e q.attempts) (values (set_result r run).task_results)
  unfolding set_result
  set_result-Within r run p h =
      All-values-insert (λ q. Within e q.attempts) r.task_id r run.task_results p h

  fill_result-Within :
      (id : String) (status : TaskStatus) (run : Run)
      → All (λ q. Within e q.attempts) (values run.task_results)
      → All (λ q. Within e q.attempts) (values (fill_result id status run).task_results)
  unfolding fill_result
  fill_result-Within id status run h = elim (Bool-cases (has_key id run.task_results)) [
    | inl there ↦ rw (there, All) h
    | inr missing ↦ rw (missing, All) (set_result-Within _ run one h)
  ]

  fill_results-Within :
      (d : Dict TaskStatus) (run : Run)
      → All (λ q. Within e q.attempts) (values run.task_results)
      → All (λ q. Within e q.attempts) (values (fill_results d run).task_results)
  unfolding fill_results
  fill_results-Within [] run h = h
  fill_results-Within ((id, status) ∷ d) run h =
      fill_results-Within d (fill_result id status run) (fill_result-Within id status run h)

  note_failure-Within :
      (t : Task) (error : String) (n : ℕ) (x : Exec)
      → Within e n
      → ResultsWithin e x
      → After (ResultsWithin e) (note_failure t error n x)
  unfolding note_failure
  note_failure-Within t error n x p h =
      lift-After _ x (fail t.id x.scheduler) _ (λ s _. set_result-Within _ x.run p h)

  note_completion-Within :
      (t : Task) (output : Value) (n : ℕ) (x : Exec)
      → Within e n
      → ResultsWithin e x
      → After (ResultsWithin e) (note_completion t output n x)
  unfolding note_completion
  note_completion-Within t output n x p h =
      lift-After _ x (complete t.id x.scheduler) _ (λ s _. set_result-Within _ x.run p h)

  save_checkpoint-run : (x : Exec) → (save_checkpoint e x).run ≡ x.run
  unfolding save_checkpoint
  save_checkpoint-run x = ground arith

  saved-Within : (x : Exec) → ResultsWithin e x → ResultsWithin e (save_checkpoint e x)
  saved-Within x h = rw (save_checkpoint-run x) h

  pub fail_task-Within :
      (t : Task) (error : String) (n : ℕ) (x : Exec)
      → Within e n
      → ResultsWithin e x
      → After (ResultsWithin e) (fail_task e t error n x)
  unfolding fail_task
  fail_task-Within t error n x p h =
      bind-After (ResultsWithin e) (ResultsWithin e) _ _ (note_failure-Within t error n x p h)
        (λ y q. saved-Within _ q)

  pub block_task-Within :
      (t : Task) (reason : String) (x : Exec)
      → ResultsWithin e x
      → After (ResultsWithin e) (block_task e t reason x)
  unfolding block_task
  block_task-Within t reason x h =
      bind-After (ResultsWithin e) (ResultsWithin e) _ _ (note_failure-Within t _ 1 x one h)
        (λ y q. saved-Within _ q)

  pub complete_task-Within :
      (t : Task) (output : Value) (n : ℕ) (x : Exec)
      → Within e n
      → ResultsWithin e x
      → After (ResultsWithin e) (complete_task e t output n x)
  unfolding complete_task
  complete_task-Within t output n x p h =
      bind-After (ResultsWithin e) (ResultsWithin e) _ _ (note_completion-Within t output n x p h)
        (λ y q. saved-Within _ q)

  cancel_rest-Within :
      (d : Dict TaskStatus) (x : Exec)
      → ResultsWithin e x
      → After (ResultsWithin e) (cancel_rest d x)
  unfolding cancel_rest
  cancel_rest-Within [] x h = h
  cancel_rest-Within ((id, status) ∷ rest) x h = elim (Bool-cases (is_terminal status)) [
    | inl over ↦ rw (over, After) (cancel_rest-Within rest x h)
    | inr open_ ↦
        rw (open_, After)
          (bind-After (ResultsWithin e) (ResultsWithin e) _ (cancel_rest rest)
            (lift-After (ResultsWithin e) x (cancel id x.scheduler)
              (λ s. ok (record x { scheduler = s })) (λ s _. h))
            (cancel_rest-Within rest))
  ]

  pub cancel_open-Within :
      (cancelled : Bool) (x : Exec)
      → ResultsWithin e x
      → After (ResultsWithin e) (cancel_open cancelled x)
  unfolding cancel_open
  cancel_open-Within false x h = h
  cancel_open-Within true x h = cancel_rest-Within (statuses x.scheduler) x h

  pub report_run-Within :
      (cancelled : Bool) (x : Exec) → ResultsWithin e x → ResultsWithin e (report_run cancelled x)
  unfolding report_run
  report_run-Within cancelled x h = fill_results-Within (statuses x.scheduler) x.run h
