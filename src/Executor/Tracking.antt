-- ===== src/Executor/Tracking.antt =====
-- The running tasks and the futures in flight in nexus/executor/executor.py.
use pharae.Base.{
  ℕ, String, true, false, Option, none, some, List, [], ◌∷◌, ◌++◌, eqb, map, In, ◌≡◌, Bool-cases,
  inl, inr, ◌⊎◌, ◌==◌, eq_iff,
}
use mathlib.Core.Path.{subst}
use pharae.Schemas.{Task, Value}
use pharae.Kernel.Scheduler.{complete, fail, start}
use pharae.Kernel.Scheduler.Running.{is_running_at, running-complete, running-fail, running-start}
use pharae.Kernel.Runtime.Context.{Handler}
use pharae.Kernel.Runtime.Execution.{Exec, Step}
use pharae.Executor.Jobs.{Executor, Flight, Loop, Phase, drop_flight, find_flight}
use pharae.Executor.Checkpoints.{save_checkpoint}
use pharae.Executor.Machine.{
  admit, begun_task, block_task, complete_task, dispatch, fail_task, in_loop, launch,
  note_completion, note_failure, refusal,
}
use pharae.Executor.After.{After, bind-After, in_loop-After, lift-After}
use pharae.Executor.Steps.{save_checkpoint-scheduler}

abbrev pub Runs : String → Exec → Type 0
Runs id x = is_running_at id x.scheduler ≡ true

abbrev pub flight_tasks : List Flight → List String
flight_tasks fs = map (λ f. f.task.id) fs

-- Every running task but those excepted is in the list.
abbrev pub Covered : List String → Exec → Type 0
Covered ids x = (id : String) → Runs id x → In id ids

-- The futures that are still to be settled.
abbrev pub unsettled : Phase → List Flight → List Flight
unsettled (Phase.draining fs) inflight = fs
unsettled (Phase.deciding allow f ns) inflight = f ∷ inflight
unsettled (Phase.resubmitting f ns) inflight = f ∷ inflight
unsettled _ inflight = inflight

-- What `inflight` holds behind the loop.
abbrev pub AtPlace : Phase → Loop → Type 0
AtPlace Phase.closing l = l.job.cancel_flag ≡ false → l.inflight ≡ []
AtPlace Phase.ending l = l.inflight ≡ []
AtPlace Phase.reporting l = l.inflight ≡ []
AtPlace Phase.ended l = l.inflight ≡ []
AtPlace _ l = Unit

pub record IsTracked (l : Loop) : Type 0 where
  pub covered : Covered (flight_tasks (unsettled l.phase l.inflight)) l.exec
  pub place : AtPlace l.phase l

-- After a task was ended, what runs ran before, and the task does not.
abbrev pub Ended : Task → Exec → Exec → Type 0
Ended t x y = (id : String) → Runs id y → ((t.id == id) ≡ false) × Runs id x

note_failure-Ended :
    (t : Task) (error : String) (n : ℕ) (x : Exec) → After (Ended t x) (note_failure t error n x)
unfolding note_failure
note_failure-Ended t error n x =
    lift-After (Ended t x) x (fail t.id x.scheduler) _
      (λ s ended id runs. running-fail t.id id x.scheduler ended runs)

note_completion-Ended :
    (t : Task) (output : Value) (n : ℕ) (x : Exec)
    → After (Ended t x) (note_completion t output n x)
unfolding note_completion
note_completion-Ended t output n x =
    lift-After (Ended t x) x (complete t.id x.scheduler) _
      (λ s ended id runs. running-complete t.id id x.scheduler ended runs)

module _ (e : Executor) where
  saved-Runs : (y : Exec) (id : String) → Runs id (save_checkpoint e y) → Runs id y
  saved-Runs y id runs = rw (save_checkpoint-scheduler e y) at runs

  pub fail_task-Ended :
      (t : Task) (error : String) (n : ℕ) (x : Exec) → After (Ended t x) (fail_task e t error n x)
  unfolding fail_task
  fail_task-Ended t error n x =
      bind-After (Ended t x) (Ended t x) _ _ (note_failure-Ended t error n x)
        (λ y h id runs. h id (saved-Runs _ id runs))

  block_task-Ended :
      (t : Task) (reason : String) (x : Exec) → After (Ended t x) (block_task e t reason x)
  unfolding block_task
  block_task-Ended t reason x =
      bind-After (Ended t x) (Ended t x) _ _ (note_failure-Ended t _ 1 x)
        (λ y h id runs. h id (saved-Runs _ id runs))

  pub complete_task-Ended :
      (t : Task) (output : Value) (n : ℕ) (x : Exec)
      → After (Ended t x) (complete_task e t output n x)
  unfolding complete_task
  complete_task-Ended t output n x =
      bind-After (Ended t x) (Ended t x) _ _ (note_completion-Ended t output n x)
        (λ y h id runs. h id (saved-Runs _ id runs))

  -- The end of a task that was running beside those in the list.
  pub Ended-Covered :
      (t : Task) (ids : List String) (x y : Exec)
      → ((id : String) → Runs id x → (t.id ≡ id) ⊎ In id ids)
      → Ended t x y
      → Covered ids y
  Ended-Covered t ids x y h ended id runs =
      let (other, before) = ended id runs in
      elim (h id before) [ inl same ↦ let bad = (eq_iff t.id id).1 same in cc | inr there ↦ there ]

  -- The tasks in flight and one more.
  abbrev pub Beside : Task → List Flight → Exec → Type 0
  Beside t fs x = (id : String) → Runs id x → (t.id ≡ id) ⊎ In id (flight_tasks fs)

  pub add-Covered :
      (t : Task) (n k : ℕ) (fs : List Flight) (x : Exec)
      → Beside t fs x
      → Covered (flight_tasks (fs ++ record { future = k; task = t; attempt = n } ∷ [])) x
  add-Covered t n k fs x h id runs = go fs (h id runs)
    where
      go :
          (gs : List Flight)
          → (t.id ≡ id) ⊎ In id (flight_tasks gs)
          → In id (flight_tasks (gs ++ record { future = k; task = t; attempt = n } ∷ []))
      go [] (inl same) = inl same
      go [] (inr bad) = absurd bad
      go (g ∷ gs) (inl same) = inr (go gs (inl same))
      go (g ∷ gs) (inr (inl this)) = inl this
      go (g ∷ gs) (inr (inr later)) = inr (go gs (inr later))

  -- At a place in the loop every running task is in flight.
  abbrev pub InFlight : Phase → Loop → Type 0
  InFlight p l = (l.phase ≡ p) × Covered (flight_tasks l.inflight) l.exec

  module _ (p : Phase) (t : Task) where
    -- The task is ended, and the others are in flight.
    pub settled-InFlight :
        (l : Loop) (m : Step Exec)
        → l.phase ≡ p
        → Beside t l.inflight l.exec
        → After (Ended t l.exec) m
        → After (InFlight p) (in_loop l m)
    settled-InFlight l m place beside ended =
        in_loop-After (Ended t l.exec) (InFlight p) l m ended
          (λ y h. (place, Ended-Covered t (flight_tasks l.inflight) l.exec y beside h))

    launch-InFlight :
        (found : Option Handler) (l : Loop)
        → l.phase ≡ p
        → Beside t l.inflight l.exec
        → After (InFlight p) (launch e t found l)
    unfolding launch
    launch-InFlight none l place beside =
        settled-InFlight l _ place beside (fail_task-Ended t _ 1 l.exec)
    launch-InFlight (some handler) l place beside =
        (place, add-Covered t 1 l.futures l.inflight l.exec beside)

    admit-InFlight :
        (refused : Option String) (l : Loop)
        → l.phase ≡ p
        → Beside t l.inflight l.exec
        → After (InFlight p) (admit e t refused l)
    unfolding admit
    admit-InFlight (some reason) l place beside =
        settled-InFlight l _ place beside (block_task-Ended t reason l.exec)
    admit-InFlight none l place beside = launch-InFlight _ l place beside

    pub dispatch-InFlight : (l : Loop) → InFlight p l → After (InFlight p) (dispatch e t l)
    unfolding dispatch
    dispatch-InFlight l (place, h) =
        lift-After (InFlight p) l.exec (start t.id l.exec.scheduler) _ λ s began.
          admit-InFlight (refusal e t) (begun_task t l s) place λ id runs.
            elim (running-start t.id id l.exec.scheduler began runs) [
              | inl same ↦ inl ((eq_iff t.id id).0 same)
              | inr before ↦ inr (h id before)
            ]

  pub drop-flight_tasks :
      (n : ℕ) (id : String) (fs : List Flight) {f : Flight}
      → find_flight n fs ≡ some f
      → In id (flight_tasks fs)
      → (f.task.id ≡ id) ⊎ In id (flight_tasks (drop_flight n fs))
  drop-flight_tasks n id [] found h = absurd h
  drop-flight_tasks n id (g ∷ fs) {f} found h = elim (Bool-cases (eqb g.future n)) [
    | inl same ↦
        let this : some g ≡ some f = rw same at found in
        elim h [
          | inl e ↦ inl (subst (λ o. elim o [ none ↦ Unit | some k ↦ k.task.id ≡ id ]) this e)
          | inr later ↦ inr (rw (same, In) later)
        ]
    | inr other ↦ elim h [
      | inl e ↦ inr (rw (other, In) (inl e))
      | inr later ↦ elim (drop-flight_tasks n id fs (rw other at found) later) [
        | inl e ↦ inl e
        | inr there ↦ inr (rw (other, In) (inr there))
      ]
    ]
  ]
