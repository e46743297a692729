-- ===== src/Executor/After.antt =====
-- What holds where a step of nexus/executor/executor.py does not raise.
pub use pharae.Base.{After, After-map, After-ok, bind-After}
use pharae.Base.{ok, err, ◌>>=◌, Result, ◌≡◌, refl}
use pharae.Kernel.Runtime.Execution.{Exec, Step, lift}
use pharae.Kernel.Scheduler.{Scheduler, SchedulerError}
use pharae.Executor.Jobs.{Loop}
use pharae.Executor.Machine.{in_loop}

pub in_loop-After :
    (Q : Exec → Type 0) (P : Loop → Type 0) (l : Loop) (m : Step Exec)
    → After Q m
    → ((x : Exec) → Q x → P (record l { exec = x }))
    → After P (in_loop l m)
in_loop-After Q P l (ok x) q h = h x q
in_loop-After Q P l (err e) q h = tt

pub lift-After :
    {B : Type 0} (P : B → Type 0) (x : Exec) (r : Result SchedulerError Scheduler)
    (f : Scheduler → Step B)
    → ((s : Scheduler) → r ≡ ok s → After P (f s))
    → After P (lift x r >>= f)
lift-After P x (ok s) f h = h s refl
lift-After P x (err e) f h = tt

pub any_exec : (m : Step Exec) → After (λ x. Unit {0}) m
any_exec (ok x) = tt
any_exec (err e) = tt
