-- ===== src/Executor/Places.antt =====
-- The tasks at the places of the loop in nexus/executor/executor.py.
use pharae.Base.{
  both_branches, ℕ, ◌+◌, String, Bool, false, ◌&&◌, not, Option, none, some, List, [], ◌∷◌, ◌++◌,
  is_empty, Result, ok, err, ltb, eqb, All, All-append, All-of_In, In, ◌≡◌, refl, sym, Bool-cases,
  inl, inr,
}
use mathlib.Core.Path.{subst}
use pharae.Schemas.{Task, Value}
use pharae.Kernel.Scheduler.{ready_tasks, start}
use pharae.Kernel.Runtime.Context.{Handler}
use pharae.Kernel.Runtime.Execution.{Exec, Step}
use pharae.Executor.Jobs.{
  Executor, Flight, Loop, Phase, drop_flight, find_flight, is_cancelled, is_paused,
}
use pharae.Executor.Machine.{
  act, admit, advance, advance_at, dispatch, in_loop, launch, retry, settle, settle_found,
  settle_outcome, at,
}
use pharae.Executor.After.{After, any_exec, in_loop-After, lift-After, After-ok}
use pharae.Executor.Steps.{LoopStep, advances, controls, acts}

abbrev pub FlightsHold : (Task → Type 0) → List Flight → Type 0
FlightsHold P fs = All (λ f. P f.task) fs

abbrev pub PlaceHolds : (Task → Type 0) → Phase → Type 0
PlaceHolds P (Phase.dispatching ts) = All P ts
PlaceHolds P (Phase.draining fs) = FlightsHold P fs
PlaceHolds P (Phase.deciding allow f ns) = P f.task
PlaceHolds P (Phase.resubmitting f ns) = P f.task
PlaceHolds P _ = Unit

-- A property of the tasks that are in flight, and of those that the dispatcher holds.
pub record Holds (P : Task → Type 0) (l : Loop) : Type 0 where
  pub flights : FlightsHold P l.inflight
  pub place : PlaceHolds P l.phase

module _ (e : Executor) (P : Task → Type 0) where
  moved_on : (l : Loop) (m : Step Exec) → Holds P l → After (Holds P) (in_loop l m)
  moved_on l m h =
      in_loop-After (λ x. Unit {0}) (Holds P) l m (any_exec m)
        (λ x _. record { flights = h.flights; place = h.place })

  flown :
      (t : Task) (n : ℕ) (l : Loop)
      → P t
      → FlightsHold P l.inflight
      → FlightsHold P (l.inflight ++ record { future = l.futures; task = t; attempt = n } ∷ [])
  flown t n l p h = All-append (λ f. P f.task) l.inflight _ h (p, tt)

  launch-Holds :
      (t : Task) (found : Option Handler) (l : Loop)
      → P t
      → Holds P l
      → After (Holds P) (launch e t found l)
  unfolding launch
  launch-Holds t none l p h = moved_on l _ h
  launch-Holds t (some handler) l p h = record {
    flights = flown t 1 l p h.flights;
    place = h.place;
  }

  admit-Holds :
      (t : Task) (refused : Option String) (l : Loop)
      → P t
      → Holds P l
      → After (Holds P) (admit e t refused l)
  unfolding admit
  admit-Holds t (some reason) l p h = moved_on l _ h
  admit-Holds t none l p h = launch-Holds t _ l p h

  dispatch-Holds : (t : Task) (l : Loop) → P t → Holds P l → After (Holds P) (dispatch e t l)
  unfolding dispatch
  dispatch-Holds t l p h =
      lift-After _ l.exec (start t.id l.exec.scheduler) _
        (λ s _. admit-Holds t _ _ p (record { flights = h.flights; place = h.place }))

  settle_outcome-Holds :
      (allow : Bool) (f : Flight) (ns : List ℕ) (o : Result String Value) (l : Loop)
      → P f.task
      → Holds P l
      → After (Holds P) (settle_outcome e allow f ns o l)
  unfolding settle_outcome retry
  settle_outcome-Holds allow f ns (ok output) l p h = moved_on l _ h
  settle_outcome-Holds allow f ns (err error) l p h =
      elim (Bool-cases (allow && ltb f.attempt e.max_attempts)) [
        | inl again ↦ rw (again, After) (record { flights = h.flights; place = p })
        | inr last ↦ rw (last, After) (moved_on l _ h)
      ]

  settle-Holds :
      (allow : Bool) (f : Flight) (ns : List ℕ) (l : Loop)
      → P f.task
      → Holds P l
      → After (Holds P) (settle e allow f ns l)
  unfolding settle
  settle-Holds allow f ns l p h = settle_outcome-Holds allow f ns (e.outcome f.future) l p h

  found-Holds :
      (n : ℕ) (fs : List Flight) {f : Flight}
      → find_flight n fs ≡ some f
      → FlightsHold P fs
      → P f.task
  found-Holds n [] found h = cc
  found-Holds n (g ∷ fs) found h = elim (Bool-cases (eqb g.future n)) [
    | inl same ↦
        let this : some g ≡ some _ = rw same at found in
        subst (λ o. elim o [ none ↦ Unit | some f ↦ P f.task ]) this h.0
    | inr other ↦ found-Holds n fs (rw other at found) h.1
  ]

  dropped-Holds : (n : ℕ) (fs : List Flight) → FlightsHold P fs → FlightsHold P (drop_flight n fs)
  dropped-Holds n [] h = tt
  dropped-Holds n (g ∷ fs) h = elim (Bool-cases (eqb g.future n)) [
    | inl same ↦ rw (same, All) h.1
    | inr other ↦ rw (other, All) (h.0, dropped-Holds n fs h.1)
  ]

  settle_found-Holds :
      (n : ℕ) (ns : List ℕ) (o : Option Flight) (l : Loop)
      → find_flight n l.inflight ≡ o
      → Holds P l
      → Holds P (settle_found n ns o l)
  settle_found-Holds n ns none l found h = record { flights = h.flights; place = tt }
  settle_found-Holds n ns (some f) l found h = record {
    flights = dropped-Holds n l.inflight h.flights;
    place = found-Holds n l.inflight found h.flights;
  }

  go_to : (p : Phase) (l : Loop) → PlaceHolds P p → Holds P l → Holds P (at p l)
  go_to p l place h = record { flights = h.flights; place = place }

  advance_at-Holds :
      (chosen : List ℕ) (p : Phase) (l : Loop)
      → ((t : Task) → In t (ready_tasks l.exec.scheduler) → P t)
      → PlaceHolds P p
      → Holds P l
      → After (Holds P) (advance_at e chosen p l)
  unfolding advance_at
  advance_at-Holds chosen Phase.testing l ready d h =
      go_to _ l
        (both_branches (PlaceHolds P) (is_cancelled l.job) Phase.closing Phase.choosing tt tt) h
  advance_at-Holds chosen Phase.choosing l ready d h =
      go_to _ l
        (both_branches (All P) (is_paused l.job) [] (ready_tasks l.exec.scheduler) tt
          (All-of_In P (ready_tasks l.exec.scheduler) ready))
        h
  advance_at-Holds chosen (Phase.dispatching []) l ready d h = go_to _ l tt h
  advance_at-Holds chosen (Phase.dispatching (t ∷ ts)) l ready d h =
      dispatch-Holds t _ d.0 (go_to (Phase.dispatching ts) l d.1 h)
  advance_at-Holds chosen Phase.checking l ready d h =
      go_to _ l
        (both_branches (PlaceHolds P) (not (is_empty l.inflight)) Phase.waiting _ tt
          (both_branches (PlaceHolds P) _ Phase.testing Phase.closing tt tt))
        h
  advance_at-Holds chosen Phase.waiting l ready d h = go_to _ l tt h
  advance_at-Holds chosen (Phase.settling []) l ready d h = go_to _ l tt h
  advance_at-Holds chosen (Phase.settling (n ∷ ns)) l ready d h =
      settle_found-Holds n ns (find_flight n l.inflight) l refl h
  advance_at-Holds chosen (Phase.deciding allow f ns) l ready d h =
      settle-Holds allow f ns (at (Phase.settling ns) l) d (go_to (Phase.settling ns) l tt h)
  advance_at-Holds chosen (Phase.resubmitting f ns) l ready d h = record {
    flights = flown f.task (f.attempt + 1) l d h.flights;
    place = tt;
  }
  advance_at-Holds chosen Phase.closing l ready d h =
      go_to _ l
        (both_branches (PlaceHolds P) (is_cancelled l.job) (Phase.draining l.inflight) Phase.ending
          h.flights tt)
        h
  advance_at-Holds chosen (Phase.draining []) l ready d h = record { flights = tt; place = tt }
  advance_at-Holds chosen (Phase.draining (f ∷ fs)) l ready d h =
      settle-Holds false f [] (at (Phase.draining fs) l) d.0 (go_to (Phase.draining fs) l d.1 h)
  advance_at-Holds chosen Phase.ending l ready d h =
      moved_on (at Phase.reporting l) _ (go_to Phase.reporting l tt h)
  advance_at-Holds chosen Phase.reporting l ready d h = record { flights = h.flights; place = tt }
  advance_at-Holds chosen Phase.ended l ready d h = h

-- A step keeps what holds of the ready tasks and of those that are held already.
pub LoopStep-Holds :
    (e : Executor) (P : Task → Type 0) {l m : Loop}
    → LoopStep e l m
    → ((t : Task) → In t (ready_tasks l.exec.scheduler) → P t)
    → Holds P l
    → Holds P m
unfolding act advance
LoopStep-Holds e P {l} {m} (advances chosen stepped) ready h =
    After-ok (Holds P) _ (advance_at-Holds e P chosen l.phase l ready h.place h) stepped
LoopStep-Holds e P {l} {m} (controls c same) ready h =
    subst (Holds P) (sym same) (record { flights = h.flights; place = h.place })
LoopStep-Holds e P {l} {m} (acts effect same) ready h =
    subst (Holds P) (sym same) (record { flights = h.flights; place = h.place })
