-- ===== src/Executor/Attempts.antt =====
-- The attempts of a task in nexus/executor/executor.py.
pub mod Recorded
pub mod Moves
pub mod Begun
use pharae.Base.{
  ℕ, ◌+◌, ◌≤◌, max, String, Bool, true, false, ◌&&◌, not, Option, none, some, List, [], ◌∷◌, ◌++◌,
  is_empty, Result, ok, err, if◌then◌else◌, ltb, eqb, All, All-append, arith, ◌≡◌, refl, sym,
  Bool-cases, inl, inr, ◌==◌,
}
use mathlib.Core.Path.{subst}
use pharae.Base.Dict.{Dict, insert, values, has_key}
use pharae.Schemas.{Task, TaskResult, TaskStatus, Value, Run, is_terminal}
use pharae.Kernel.Scheduler.{cancel, complete, fail, start, statuses}
use pharae.Kernel.Runtime.Context.{Handler}
use pharae.Kernel.Runtime.Execution.{Exec, fill_result, fill_results, set_result}
use pharae.Executor.Jobs.{Executor, Flight, Loop, Phase, drop_flight, find_flight, is_cancelled}
use pharae.Executor.Checkpoints.{save_checkpoint}
use pharae.Executor.Machine.{
  act, admit, advance, advance_at, block_task, cancel_open, cancel_rest, complete_task, dispatch,
  fail_task, launch, note_completion, note_failure, report_run, retry, settle, settle_found,
  settle_outcome, at,
}
use pharae.Executor.After.{After, bind-After, in_loop-After, lift-After, After-ok}
use pharae.Executor.Steps.{LoopStep, LoopReach, advances, controls, acts, here, next}

-- The attempts that the policy allows, of which the first is always made.
abbrev pub allowed : Executor → ℕ
allowed e = max 1 e.max_attempts

abbrev pub Within : Executor → ℕ → Type 0
Within e n = (1 ≤ n) × (n ≤ allowed e)

abbrev pub FlightsWithin : Executor → List Flight → Type 0
FlightsWithin e fs = All (λ f. Within e f.attempt) fs

abbrev pub ResultsWithin : Executor → Exec → Type 0
ResultsWithin e x = All (λ r. Within e r.attempts) (values x.run.task_results)

abbrev pub DrainWithin : Executor → Phase → Type 0
DrainWithin e (Phase.draining fs) = FlightsWithin e fs
DrainWithin e (Phase.deciding allow f ns) = Within e f.attempt
DrainWithin e (Phase.resubmitting f ns) = Within e (f.attempt + 1)
DrainWithin e _ = Unit

-- The attempts of the tasks in flight and of the results lie between one and what is allowed.
pub record IsWithin (e : Executor) (l : Loop) : Type 0 where
  pub flights : FlightsWithin e l.inflight
  pub drained : DrainWithin e l.phase
  pub results : ResultsWithin e l.exec
