-- ===== src/Executor/Cancellation.antt =====
-- Pausing and cancelling a job in nexus/executor/executor.py.
use pharae.Base.{
  both_branches, ℕ, String, Bool, true, false, not, Option, none, some, List, [], ◌∷◌, Result, ok,
  err, if◌then◌else◌, is_empty, ◌≡◌, refl, sym,
}
use mathlib.Core.Path.{subst}
use pharae.Schemas.{Value}
use pharae.Kernel.Runtime.Execution.{Exec, Step}
use pharae.Executor.Jobs.{
  Control, Executor, Flight, Job, Loop, Phase, control, find_flight, is_cancelled,
}
use pharae.Executor.Machine.{
  act, advance, advance_at, at, in_loop, settle, settle_found, settle_outcome,
}
use pharae.Executor.After.{After, in_loop-After, After-ok, any_exec}
use pharae.Executor.Steps.{LoopStep, LoopReach, advances, controls, acts, here, next}

-- The places from which a cancelled job comes to no dispatch any more: those of the dispatches
-- before the cancellation, and of a retry that was decided before it, are not among them.
abbrev pub IsPast : Phase → Type 0
IsPast Phase.choosing = ⊥
IsPast (Phase.dispatching ts) = ⊥
IsPast (Phase.deciding true f ns) = ⊥
IsPast (Phase.resubmitting f ns) = ⊥
IsPast _ = Unit

-- The job is cancelled, the tasks that were ready are dispatched, and this many futures were made.
pub record IsStopped (n : ℕ) (l : Loop) : Type 0 where
  pub cancelled : l.job.cancel_flag ≡ true
  pub past : IsPast l.phase
  pub count : l.futures ≡ n

module _ (e : Executor) (n : ℕ) where
  moved_on : (l : Loop) (m : Step Exec) → IsStopped n l → After (IsStopped n) (in_loop l m)
  moved_on l m h =
      in_loop-After (λ x. Unit {0}) (IsStopped n) l m (any_exec m)
        (λ x _. record { cancelled = h.cancelled; past = h.past; count = h.count })

  settle_outcome-IsStopped :
      (f : Flight) (ns : List ℕ) (o : Result String Value) (l : Loop)
      → IsStopped n l
      → After (IsStopped n) (settle_outcome e false f ns o l)
  unfolding settle_outcome
  settle_outcome-IsStopped f ns (ok output) l h = moved_on l _ h
  settle_outcome-IsStopped f ns (err error) l h = moved_on l _ h

  settle-IsStopped :
      (f : Flight) (ns : List ℕ) (l : Loop)
      → IsStopped n l
      → After (IsStopped n) (settle e false f ns l)
  unfolding settle
  settle-IsStopped f ns l h = settle_outcome-IsStopped f ns (e.outcome f.future) l h

  deciding-IsPast :
      (b : Bool) (f : Flight) (ns : List ℕ) → b ≡ true → IsPast (Phase.deciding (not b) f ns)
  deciding-IsPast true f ns off = tt
  deciding-IsPast false f ns off = cc

  settle_found-IsStopped :
      (k : ℕ) (ns : List ℕ) (o : Option Flight) (l : Loop)
      → IsStopped n l
      → IsStopped n (settle_found k ns o l)
  settle_found-IsStopped k ns none l h = record {
    cancelled = h.cancelled;
    past = tt;
    count = h.count;
  }
  settle_found-IsStopped k ns (some f) l h = record {
    cancelled = h.cancelled;
    past = deciding-IsPast l.job.cancel_flag f ns h.cancelled;
    count = h.count;
  }

  go_to : (p : Phase) (l : Loop) → IsPast p → IsStopped n l → IsStopped n (at p l)
  go_to p l past h = record { cancelled = h.cancelled; past = past; count = h.count }

  advance_at-IsStopped :
      (chosen : List ℕ) (p : Phase) (l : Loop)
      → IsPast p
      → IsStopped n l
      → After (IsStopped n) (advance_at e chosen p l)
  unfolding advance_at
  advance_at-IsStopped chosen Phase.testing l past h =
      go_to _ l
        (subst (λ b. IsPast (if b then Phase.closing else Phase.choosing)) (sym h.cancelled) tt) h
  advance_at-IsStopped chosen Phase.choosing l past h = absurd past
  advance_at-IsStopped chosen (Phase.dispatching ts) l past h = absurd past
  advance_at-IsStopped chosen Phase.checking l past h =
      go_to _ l
        (both_branches IsPast (not (is_empty l.inflight)) Phase.waiting _ tt
          (both_branches IsPast _ Phase.testing Phase.closing tt tt))
        h
  advance_at-IsStopped chosen Phase.waiting l past h = go_to _ l tt h
  advance_at-IsStopped chosen (Phase.settling []) l past h = go_to _ l tt h
  advance_at-IsStopped chosen (Phase.settling (k ∷ ks)) l past h =
      settle_found-IsStopped k ks (find_flight k l.inflight) l h
  advance_at-IsStopped chosen (Phase.deciding true f ks) l past h = absurd past
  advance_at-IsStopped chosen (Phase.deciding false f ks) l past h =
      settle-IsStopped f ks _ (go_to (Phase.settling ks) l tt h)
  advance_at-IsStopped chosen (Phase.resubmitting f ks) l past h = absurd past
  advance_at-IsStopped chosen Phase.closing l past h =
      go_to _ l
        (both_branches IsPast (is_cancelled l.job) (Phase.draining l.inflight) Phase.ending tt tt) h
  advance_at-IsStopped chosen (Phase.draining []) l past h = record {
    cancelled = h.cancelled;
    past = tt;
    count = h.count;
  }
  advance_at-IsStopped chosen (Phase.draining (f ∷ fs)) l past h =
      settle-IsStopped f [] _ (go_to (Phase.draining fs) l tt h)
  advance_at-IsStopped chosen Phase.ending l past h = moved_on _ _ (go_to Phase.reporting l tt h)
  advance_at-IsStopped chosen Phase.reporting l past h = record {
    cancelled = h.cancelled;
    past = tt;
    count = h.count;
  }
  advance_at-IsStopped chosen Phase.ended l past h = h

  still_cancelled :
      (c : Control) (job : Job) → job.cancel_flag ≡ true → (control c job).cancel_flag ≡ true
  still_cancelled Control.pause job h = h
  still_cancelled Control.unpause job h = h
  still_cancelled Control.cancel_job job h = refl

  LoopStep-IsStopped : {l m : Loop} → LoopStep e l m → IsStopped n l → IsStopped n m
  unfolding act advance
  LoopStep-IsStopped {l} {m} (advances chosen stepped) h =
      After-ok (IsStopped n) _ (advance_at-IsStopped chosen l.phase l h.past h) stepped
  LoopStep-IsStopped {l} {m} (controls c same) h =
      subst (IsStopped n) (sym same)
        (record { cancelled = still_cancelled c l.job h.cancelled; past = h.past; count = h.count })
  LoopStep-IsStopped {l} {m} (acts effect same) h =
      subst (IsStopped n) (sym same)
        (record { cancelled = h.cancelled; past = h.past; count = h.count })

-- Once a job is cancelled, the loop over the tasks that were ready before is over, and no retry is
-- under way that was decided before, no future is made any more, neither for a task nor for a
-- retry, and no later call of the job's methods undoes the cancellation.
pub LoopReach-IsStopped :
    (e : Executor) {l m : Loop}
    → LoopReach e l m
    → l.job.cancel_flag ≡ true
    → IsPast l.phase
    → IsStopped l.futures m
LoopReach-IsStopped e here off past = record { cancelled = off; past = past; count = refl }
LoopReach-IsStopped e {l} (next r step) off past =
    LoopStep-IsStopped e l.futures step (LoopReach-IsStopped e r off past)
