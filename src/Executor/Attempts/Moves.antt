-- ===== src/Executor/Attempts/Moves.antt =====
-- The steps of the loop in nexus/executor/executor.py and the attempts.
use pharae.Base.{
  both_branches, ℕ, ◌+◌, String, Bool, false, ◌&&◌, not, Option, none, some, List, [], ◌∷◌, ◌++◌,
  is_empty, Result, ok, err, ltb, eqb, All, All-append, arith, ◌≡◌, refl, sym, Bool-cases, inl, inr,
}
use mathlib.Core.Path.{subst}
use pharae.Schemas.{Task, Value}
use pharae.Kernel.Scheduler.{start}
use pharae.Kernel.Runtime.Context.{Handler}
use pharae.Kernel.Runtime.Execution.{Exec}
use pharae.Executor.Jobs.{Executor, Flight, Loop, Phase, drop_flight, find_flight, is_cancelled}
use pharae.Executor.Machine.{
  act, admit, advance, advance_at, dispatch, launch, retry, settle, settle_found, settle_outcome,
  at,
}
use pharae.Executor.After.{After, in_loop-After, lift-After, After-ok}
use pharae.Executor.Steps.{LoopStep, LoopReach, advances, controls, acts, here, next}
use pharae.Executor.Attempts.{DrainWithin, FlightsWithin, IsWithin, ResultsWithin, Within}
use pharae.Executor.Attempts.Recorded.{
  one, fail_task-Within, block_task-Within, complete_task-Within, cancel_open-Within,
  report_run-Within,
}

module _ (e : Executor) where
  replaced :
      (l : Loop)
      → IsWithin e l
      → (x : Exec) → ResultsWithin e x
      → IsWithin e (record l { exec = x })
  replaced l h x r = record { flights = h.flights; drained = h.drained; results = r }

  flown :
      (t : Task) (n : ℕ) (l : Loop)
      → Within e n
      → FlightsWithin e l.inflight
      → FlightsWithin e (l.inflight ++ record { future = l.futures; task = t; attempt = n } ∷ [])
  flown t n l p h = All-append (λ f. Within e f.attempt) l.inflight _ h (p, tt)

  launch-IsWithin :
      (t : Task) (found : Option Handler) (l : Loop)
      → IsWithin e l
      → After (IsWithin e) (launch e t found l)
  unfolding launch
  launch-IsWithin t none l h =
      in_loop-After (ResultsWithin e) (IsWithin e) l _
        (fail_task-Within e t _ 1 l.exec (one e) h.results) (replaced l h)
  launch-IsWithin t (some handler) l h = record {
    flights = flown t 1 l (one e) h.flights;
    drained = h.drained;
    results = h.results;
  }

  admit-IsWithin :
      (t : Task) (refused : Option String) (l : Loop)
      → IsWithin e l
      → After (IsWithin e) (admit e t refused l)
  unfolding admit
  admit-IsWithin t (some reason) l h =
      in_loop-After (ResultsWithin e) (IsWithin e) l _
        (block_task-Within e t reason l.exec h.results) (replaced l h)
  admit-IsWithin t none l h = launch-IsWithin t _ l h

  dispatch-IsWithin : (t : Task) (l : Loop) → IsWithin e l → After (IsWithin e) (dispatch e t l)
  unfolding dispatch
  dispatch-IsWithin t l h =
      lift-After _ l.exec (start t.id l.exec.scheduler) _
        (λ s _. admit-IsWithin t _ _ (replaced l h _ h.results))

  settle_outcome-Within :
      (allow : Bool) (f : Flight) (ns : List ℕ) (o : Result String Value) (l : Loop)
      → Within e f.attempt
      → IsWithin e l
      → After (IsWithin e) (settle_outcome e allow f ns o l)
  unfolding settle_outcome retry
  settle_outcome-Within allow f ns (ok output) l p h =
      in_loop-After (ResultsWithin e) (IsWithin e) l _
        (complete_task-Within e f.task output f.attempt l.exec p h.results) (replaced l h)
  settle_outcome-Within allow f ns (err error) l p h =
      elim (Bool-cases (allow && ltb f.attempt e.max_attempts)) [
        | inl again ↦
            let more : Within e (f.attempt + 1) = (omega (arith, p), ground arith) in
            rw (again, After) (record { flights = h.flights; drained = more; results = h.results })
        | inr last ↦
            rw (last, After)
              (in_loop-After (ResultsWithin e) (IsWithin e) l _
                (fail_task-Within e f.task error f.attempt l.exec p h.results) (replaced l h))
      ]

  settle-Within :
      (allow : Bool) (f : Flight) (ns : List ℕ) (l : Loop)
      → Within e f.attempt
      → IsWithin e l
      → After (IsWithin e) (settle e allow f ns l)
  unfolding settle
  settle-Within allow f ns l p h = settle_outcome-Within allow f ns (e.outcome f.future) l p h

  found-Within :
      (n : ℕ) (fs : List Flight) {f : Flight}
      → find_flight n fs ≡ some f
      → FlightsWithin e fs
      → Within e f.attempt
  found-Within n [] found h = cc
  found-Within n (g ∷ fs) found h = elim (Bool-cases (eqb g.future n)) [
    | inl same ↦
        let this : some g ≡ some _ = rw same at found in
        subst (λ o. elim o [ none ↦ Unit | some f ↦ Within e f.attempt ]) this h.0
    | inr other ↦ found-Within n fs (rw other at found) h.1
  ]

  dropped-Within :
      (n : ℕ) (fs : List Flight) → FlightsWithin e fs → FlightsWithin e (drop_flight n fs)
  dropped-Within n [] h = tt
  dropped-Within n (g ∷ fs) h = elim (Bool-cases (eqb g.future n)) [
    | inl same ↦ rw (same, All) h.1
    | inr other ↦ rw (other, All) (h.0, dropped-Within n fs h.1)
  ]

  settle_found-IsWithin :
      (n : ℕ) (ns : List ℕ) (o : Option Flight) (l : Loop)
      → find_flight n l.inflight ≡ o
      → IsWithin e l
      → IsWithin e (settle_found n ns o l)
  settle_found-IsWithin n ns none l found h = record {
    flights = h.flights;
    drained = tt;
    results = h.results;
  }
  settle_found-IsWithin n ns (some f) l found h = record {
    flights = dropped-Within n l.inflight h.flights;
    drained = found-Within n l.inflight found h.flights;
    results = h.results;
  }

  plain : (p : Phase) → DrainWithin e p → (l : Loop) → IsWithin e l → IsWithin e (at p l)
  plain p d l h = record { flights = h.flights; drained = d; results = h.results }

  advance_at-IsWithin :
      (chosen : List ℕ) (p : Phase) (l : Loop)
      → DrainWithin e p
      → IsWithin e l
      → After (IsWithin e) (advance_at e chosen p l)
  unfolding advance_at
  advance_at-IsWithin chosen Phase.testing l d h =
      plain _
        (both_branches (DrainWithin e) (is_cancelled l.job) Phase.closing Phase.choosing tt tt) l h
  advance_at-IsWithin chosen Phase.choosing l d h = plain _ tt l h
  advance_at-IsWithin chosen (Phase.dispatching []) l d h = plain _ tt l h
  advance_at-IsWithin chosen (Phase.dispatching (t ∷ ts)) l d h =
      dispatch-IsWithin t _ (plain (Phase.dispatching ts) tt l h)
  advance_at-IsWithin chosen Phase.checking l d h =
      plain _
        (both_branches (DrainWithin e) (not (is_empty l.inflight)) Phase.waiting _ tt
          (both_branches (DrainWithin e) _ Phase.testing Phase.closing tt tt))
        l h
  advance_at-IsWithin chosen Phase.waiting l d h = plain _ tt l h
  advance_at-IsWithin chosen (Phase.settling []) l d h = plain _ tt l h
  advance_at-IsWithin chosen (Phase.settling (n ∷ ns)) l d h =
      settle_found-IsWithin n ns (find_flight n l.inflight) l refl h
  advance_at-IsWithin chosen (Phase.deciding allow f ns) l d h =
      settle-Within allow f ns (at (Phase.settling ns) l) d (plain (Phase.settling ns) tt l h)
  advance_at-IsWithin chosen (Phase.resubmitting f ns) l d h = record {
    flights = flown f.task (f.attempt + 1) l d h.flights;
    drained = tt;
    results = h.results;
  }
  advance_at-IsWithin chosen Phase.closing l d h =
      plain _
        (both_branches (DrainWithin e) (is_cancelled l.job) (Phase.draining l.inflight) Phase.ending
          h.flights tt)
        l h
  advance_at-IsWithin chosen (Phase.draining []) l d h = record {
    flights = tt;
    drained = tt;
    results = h.results;
  }
  advance_at-IsWithin chosen (Phase.draining (f ∷ fs)) l d h =
      settle-Within false f [] (at (Phase.draining fs) l) d.0 (plain (Phase.draining fs) d.1 l h)
  advance_at-IsWithin chosen Phase.ending l d h =
      in_loop-After (ResultsWithin e) (IsWithin e) (at Phase.reporting l) _
        (cancel_open-Within e (is_cancelled l.job) l.exec h.results)
        (replaced (at Phase.reporting l) (plain Phase.reporting tt l h))
  advance_at-IsWithin chosen Phase.reporting l d h = record {
    flights = h.flights;
    drained = tt;
    results = report_run-Within e (is_cancelled l.job) l.exec h.results;
  }
  advance_at-IsWithin chosen Phase.ended l d h = h

LoopStep-IsWithin : (e : Executor) {l m : Loop} → LoopStep e l m → IsWithin e l → IsWithin e m
unfolding act advance
LoopStep-IsWithin e {l} {m} (advances chosen stepped) h =
    After-ok (IsWithin e) _ (advance_at-IsWithin e chosen l.phase l h.drained h) stepped
LoopStep-IsWithin e {l} {m} (controls c same) h =
    subst (IsWithin e) (sym same)
      (record { flights = h.flights; drained = h.drained; results = h.results })
LoopStep-IsWithin e {l} {m} (acts effect same) h =
    subst (IsWithin e) (sym same)
      (record { flights = h.flights; drained = h.drained; results = h.results })

pub LoopReach-IsWithin : (e : Executor) {l m : Loop} → LoopReach e l m → IsWithin e l → IsWithin e m
LoopReach-IsWithin e here h = h
LoopReach-IsWithin e (next r step) h = LoopStep-IsWithin e step (LoopReach-IsWithin e r h)
