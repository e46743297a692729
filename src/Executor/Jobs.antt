-- ===== src/Executor/Jobs.antt =====
-- The objects of nexus/executor/executor.py: the executor, a job, and the variables of `_run`.
use pharae.Base.{
  ℕ, String, Bool, true, false, ◌&&◌, not, Option, none, some, List, [], ◌∷◌, Result, eqb,
  if◌then◌else◌,
}
use pharae.Base.Dict.{Dict}
use pharae.Schemas.{Value, Task}
use pharae.Kernel.Runtime.Context.{Handler}
use pharae.Kernel.Runtime.Execution.{Exec, RuntimeError}
use pharae.Capabilities.Registry.Entries.{CapabilityRegistry}
use pharae.Security.{SecurityGuard, Reason}

pub data ExecutorError : Type 0 where
  not_running bad_checkpoint : ExecutorError
  no_checkpoint : String → ExecutorError
  raised : RuntimeError → ExecutorError

-- The events of a job: `cancel_flag` is `_cancel.is_set()`, and `go` is `_resume.is_set()`.
pub record Job : Type 0 where
  pub cancel_flag : Bool
  pub go : Bool

abbrev pub new_job : Bool → Job
new_job start_paused = record { cancel_flag = false; go = not start_paused }

abbrev pub is_cancelled : Job → Bool
is_cancelled job = job.cancel_flag

abbrev pub is_paused : Job → Bool
is_paused job = not job.go && not job.cancel_flag

pub data Control : Type 0 where
  pause unpause cancel_job : Control

-- `Job.pause`, `Job.unpause` and `Job.cancel`
abbrev pub control : Control → Job → Job
control Control.pause job = record job { go = false }
control Control.unpause job = record job { go = true }
control Control.cancel_job job = record { cancel_flag = true; go = true }

-- `outcome` is what the handler in a future returns or raises, by the future's number, and
-- `show_reason` the text of a guard's reason.
pub record Executor : Type 0 where
  pub handlers : Dict Handler
  pub max_attempts : ℕ
  pub checkpoints : Bool
  pub security : Option SecurityGuard
  pub registry : CapabilityRegistry
  pub counter : ℕ
  pub outcome : ℕ → Result String Value
  pub show_reason : Reason → String

-- An entry of `inflight`.
pub record Flight : Type 0 where
  pub future : ℕ
  pub task : Task
  pub attempt : ℕ

-- The places in `_run`: the loop's test, the test of `paused`, the loop over the ready tasks, the
-- tests without a task in flight, the wait, the loop over the returned futures, in `_settle` of one
-- of them behind the look at `cancelled`, and before the submission of a retry, the test after the
-- loop, the loop over the rest of `inflight`, the cancellation of the rest, and the report.
pub data Phase : Type 0 where
  testing choosing checking waiting closing ending reporting ended : Phase
  dispatching : List Task → Phase
  settling : List ℕ → Phase
  deciding : (allow_retry : Bool) → Flight → List ℕ → Phase
  resubmitting : Flight → List ℕ → Phase
  draining : List Flight → Phase

pub record Loop : Type 0 where
  pub phase : Phase
  pub job : Job
  pub exec : Exec
  pub inflight : List Flight
  pub futures : ℕ

abbrev pub find_flight : ℕ → List Flight → Option Flight
find_flight n [] = none
find_flight n (f ∷ fs) = if eqb f.future n then some f else find_flight n fs

-- `inflight.pop(future)`
abbrev pub drop_flight : ℕ → List Flight → List Flight
drop_flight n [] = []
drop_flight n (f ∷ fs) = if eqb f.future n then fs else f ∷ drop_flight n fs
