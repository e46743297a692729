-- ===== src/Executor/Reports.antt =====
-- The end of `_run` in nexus/executor/executor.py.
use pharae.Base.{
  ℕ, String, Bool, true, false, List, [], ok, is_some, all_of, arith, ◌≡◌, ◌≢◌, refl, ◌↔◌,
  Bool-cases, inl, inr,
}
use mathlib.Core.Path.{subst}
use pharae.Base.Dict.{has_key}
use pharae.Schemas.{Run, RunStatus, is_completed}
use pharae.Kernel.Runtime.Execution.{Exec, run_status, result_statuses}
use pharae.Kernel.Runtime.Results.{fill_results-all}
use pharae.Executor.Jobs.{Control, Executor, Loop, Phase}
use pharae.Executor.Machine.{advance, advance_at, cancel_open, final_status, report_run}
use pharae.Executor.After.{After, After-ok}
use pharae.Executor.Steps.{LoopReach, advances, controls, here, next}

run_status-ne : (run : Run) → run_status run ≢ RunStatus.cancelled
unfolding run_status
run_status-ne run h = elim (Bool-cases (all_of is_completed (result_statuses run))) [
  | inl all ↦ ground arith
  | inr part ↦ ground arith
]

final_status_iff : (b : Bool) (x : Exec) → (final_status b x ≡ RunStatus.cancelled) ↔ (b ≡ true)
unfolding final_status
final_status_iff true x = (λ h. refl, λ h. refl)
final_status_iff false x = (λ h. absurd (run_status-ne x.run h), λ h. cc)

-- What the report says of the scheduler it is made from.
abbrev pub IsReport : Loop → Loop → Type 0
IsReport l m =
    (m.phase ≡ Phase.ended)
    × ((id : String)
        → has_key id l.exec.scheduler.tasks ≡ true
        → has_key id m.exec.run.task_results ≡ true)
    × ((m.exec.run.status ≡ RunStatus.cancelled) ↔ (l.job.cancel_flag ≡ true))
    × (is_some m.exec.run.finished_at ≡ true)

-- The report has a result for every task of the scheduler, it is marked as finished, and its status
-- is `cancelled` exactly if the job was cancelled by then.
pub reporting-IsReport :
    (e : Executor) (chosen : List ℕ) (l : Loop) {m : Loop}
    → l.phase ≡ Phase.reporting
    → advance e chosen l ≡ ok m
    → IsReport l m
unfolding advance advance_at report_run
reporting-IsReport e chosen l {m} place stepped =
    let made : After (IsReport l) (advance_at e chosen Phase.reporting l) = (
      refl,
      λ id h. fill_results-all id l.exec.scheduler.tasks l.exec.run h,
      final_status_iff l.job.cancel_flag _,
      refl,
    ) in
    After-ok (IsReport l) (advance_at e chosen Phase.reporting l) made
      (subst (λ p. advance_at e chosen p l ≡ ok m) place stepped)

-- A paused job without a task in flight.
abbrev pub idle : Bool → Phase → Exec → ℕ → Loop
idle go phase x n = record {
  phase = phase;
  job = record { cancel_flag = false; go = go };
  exec = x;
  inflight = [];
  futures = n;
}

stepped : (e : Executor) (k l m : Loop) → advance e [] l ≡ ok m → LoopReach e k l → LoopReach e k m
stepped e k l m step r = next r (advances [] step)

-- A paused job that is unpaused between the two tests of `paused` in one round of the loop, with no
-- task in flight, comes to its end without starting any of its tasks and without being cancelled,
-- whatever tasks are ready.
pub unpaused_ends :
    (e : Executor) (x : Exec) (n : ℕ)
    → (m : Loop) × LoopReach e (idle false Phase.choosing x n) m
      × (m.phase ≡ Phase.ended)
      × (m.exec.scheduler ≡ x.scheduler)
      × (m.job.cancel_flag ≡ false)
unfolding advance advance_at cancel_open report_run
unpaused_ends e x n =
    let start = idle false Phase.choosing x n in
    let go : (p q : Phase) (y z : Exec)
          (at_p : advance e [] (idle true p y n) ≡ ok (idle true q z n))
        → LoopReach e start (idle true p y n)
        → LoopReach e start (idle true q z n) =
      λ p q y z. stepped e start (idle true p y n) (idle true q z n) in
    let stop = idle false Phase.checking x n in
    let checked =
      stepped e start (idle false (Phase.dispatching []) x n) stop refl
        (stepped e start start (idle false (Phase.dispatching []) x n) refl here) in
    let unpaused : LoopReach e start (idle true Phase.checking x n) =
      next checked (controls Control.unpause refl) in
    (
      idle true Phase.ended (report_run false x) n,
      go Phase.reporting Phase.ended x (report_run false x) refl (
          go Phase.ending Phase.reporting x x refl (
            go Phase.closing Phase.ending x x refl
              (go Phase.checking Phase.closing x x refl unpaused))),
      refl,
      refl,
      refl,
    )
