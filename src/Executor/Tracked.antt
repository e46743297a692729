-- ===== src/Executor/Tracked.antt =====
-- The running tasks over the whole of `_run` in nexus/executor/executor.py.
use pharae.Base.{
  Option, none, some, ◌+◌, ltb, ◌⊎◌, ℕ, String, Bool, true, false, not, ◌&&◌, List, [], ◌∷◌, Result,
  ok, err, ◌>>=◌, if◌then◌else◌, is_empty, In, arith, ◌≡◌, refl, sym, ◌∙◌, Bool-cases, inl, inr,
}
use mathlib.Core.Path.{subst}
use pharae.Base.Dict.{Dict}
use pharae.Schemas.{TaskStatus, Value, is_terminal}
use pharae.Kernel.Scheduler.{cancel, statuses, done}
use pharae.Kernel.Scheduler.Running.{is_running_at, running-cancel}
use pharae.Kernel.Runtime.Execution.{Exec, Step, lift}
use pharae.Executor.Jobs.{
  Control, Executor, Flight, Job, Loop, Phase, control, find_flight, is_cancelled, is_paused,
}
use pharae.Executor.Machine.{
  act, advance, advance_at, after_check, at, cancel_open, cancel_rest, report_run, settle,
  settle_outcome, settle_found, retry,
}
use pharae.Executor.After.{After, bind-After, in_loop-After, lift-After, After-ok, After-map}
use pharae.Executor.Steps.{LoopStep, LoopReach, advances, controls, acts, here, next}
use pharae.Executor.Tracking.{
  AtPlace, Beside, Covered, Ended, InFlight, IsTracked, Runs, complete_task-Ended,
  dispatch-InFlight, Ended-Covered, fail_task-Ended, flight_tasks, settled-InFlight, add-Covered,
  drop-flight_tasks, unsettled,
}

no_more : (xs : List Flight) → not (is_empty xs) ≡ false → xs ≡ []
no_more [] h = refl
no_more (x ∷ xs) h = cc

place-IsTracked :
    (p : Phase) (m : Loop)
    → m.phase ≡ p
    → Covered (flight_tasks (unsettled p m.inflight)) m.exec
    → AtPlace p m
    → IsTracked m
place-IsTracked p m place h at_p = record {
  covered = subst (λ q. Covered (flight_tasks (unsettled q m.inflight)) m.exec) (sym place) h;
  place = subst (λ q. AtPlace q m) (sym place) at_p;
}

-- Nothing starts to run.
abbrev NoNew : Exec → Exec → Type 0
NoNew x y = (id : String) → Runs id y → Runs id x

cancel_rest-NoNew : (d : Dict TaskStatus) (x : Exec) → After (NoNew x) (cancel_rest d x)
unfolding cancel_rest
cancel_rest-NoNew [] x = λ id runs. runs
cancel_rest-NoNew ((k, status) ∷ rest) x = elim (Bool-cases (is_terminal status)) [
  | inl over ↦ rw (over, After) (cancel_rest-NoNew rest x)
  | inr open_ ↦
      rw (open_, After)
        (bind-After (NoNew x) (NoNew x)
          (lift x (cancel k x.scheduler) >>= λ s. ok (record x { scheduler = s }))
          (cancel_rest rest)
          (lift-After (NoNew x) x (cancel k x.scheduler) (λ s. ok (record x { scheduler = s }))
            (λ s ended id runs. running-cancel k id x.scheduler ended runs))
          (λ y h.
            After-map (NoNew y) (NoNew x) (cancel_rest rest y) (λ z g id runs. h id (g id runs))
              (cancel_rest-NoNew rest y)))
]

cancel_open-NoNew : (b : Bool) (x : Exec) → After (NoNew x) (cancel_open b x)
unfolding cancel_open
cancel_open-NoNew true x = cancel_rest-NoNew (statuses x.scheduler) x
cancel_open-NoNew false x = λ id runs. runs

module _ (e : Executor) where
  drain-IsTracked :
      (f : Flight) (fs : List Flight) (o : Result String Value) (l : Loop)
      → l.phase ≡ Phase.draining fs
      → Beside e f.task fs l.exec
      → After IsTracked (settle_outcome e false f [] o l)
  unfolding settle_outcome
  drain-IsTracked f fs o l place beside = drained o
    where
      over : (y : Exec) → Ended f.task l.exec y → IsTracked (record l { exec = y })
      over y h =
          place-IsTracked (Phase.draining fs) (record l { exec = y }) place
            (Ended-Covered e f.task (flight_tasks fs) l.exec y beside h) tt

      drained : (o : Result String Value) → After IsTracked (settle_outcome e false f [] o l)
      drained (ok output) =
          in_loop-After (Ended f.task l.exec) IsTracked l _
            (complete_task-Ended e f.task output f.attempt l.exec) over
      drained (err error) =
          in_loop-After (Ended f.task l.exec) IsTracked l _
            (fail_task-Ended e f.task error f.attempt l.exec) over

  from_InFlight :
      (p : Phase) (m : Step Loop)
      → ((l : Loop) → unsettled p l.inflight ≡ l.inflight)
      → ((l : Loop) → AtPlace p l)
      → After (InFlight e p) m
      → After IsTracked m
  from_InFlight p m same free h =
      After-map (InFlight e p) IsTracked m
        (λ l (place, covered). place-IsTracked p l place (rw (same l) covered) (free l)) h

  deciding-IsTracked :
      (allow : Bool) (f : Flight) (ns : List ℕ) (o : Result String Value) (l : Loop)
      → l.phase ≡ Phase.settling ns
      → Beside e f.task l.inflight l.exec
      → After IsTracked (settle_outcome e allow f ns o l)
  unfolding settle_outcome retry
  deciding-IsTracked allow f ns (ok output) l place beside =
      from_InFlight (Phase.settling ns) _ (λ m. refl) (λ m. tt)
        (settled-InFlight e (Phase.settling ns) f.task l _ place beside
          (complete_task-Ended e f.task output f.attempt l.exec))
  deciding-IsTracked allow f ns (err error) l place beside =
      elim (Bool-cases (allow && ltb f.attempt e.max_attempts)) [
        | inl again ↦
            rw (again, After)
              (record { covered = λ id runs. around id (beside id runs); place = tt })
        | inr last ↦
            rw (last, After)
              (from_InFlight (Phase.settling ns) _ (λ m. refl) (λ m. tt)
                (settled-InFlight e (Phase.settling ns) f.task l _ place beside
                  (fail_task-Ended e f.task error f.attempt l.exec)))
      ]
    where
      around :
          (id : String)
          → (f.task.id ≡ id) ⊎ In id (flight_tasks l.inflight)
          → In id (flight_tasks (f ∷ l.inflight))
      around id (inl same) = inl same
      around id (inr there) = inr there

  settle-deciding :
      (allow : Bool) (f : Flight) (ns : List ℕ) (l : Loop)
      → After IsTracked (settle_outcome e allow f ns (e.outcome f.future) l)
      → After IsTracked (settle e allow f ns l)
  unfolding settle
  settle-deciding allow f ns l h = h

  settle_found-IsTracked :
      (n : ℕ) (ns : List ℕ) (o : Option Flight) (l : Loop)
      → find_flight n l.inflight ≡ o
      → Covered (flight_tasks l.inflight) l.exec
      → IsTracked (settle_found n ns o l)
  settle_found-IsTracked n ns none l found h = record { covered = h; place = tt }
  settle_found-IsTracked n ns (some f) l found h = record {
    covered = λ id runs. elim (drop-flight_tasks e n id l.inflight found (h id runs)) [
      | inl same ↦ inl same
      | inr there ↦ inr there
    ];
    place = tt;
  }

  settle-drained :
      (f : Flight) (l : Loop)
      → After IsTracked (settle_outcome e false f [] (e.outcome f.future) l)
      → After IsTracked (settle e false f [] l)
  unfolding settle
  settle-drained f l h = h

  check-IsTracked :
      (l : Loop) → Covered (flight_tasks l.inflight) l.exec → IsTracked (at (after_check l) l)
  check-IsTracked l h = elim (Bool-cases (not (is_empty l.inflight))) [
    | inl some_task ↦ place-IsTracked Phase.waiting (at (after_check l) l) (rw some_task refl) h tt
    | inr none_left ↦ elim (Bool-cases (is_paused l.job && not (done l.exec.scheduler))) [
      | inl again ↦ place-IsTracked Phase.testing (at (after_check l) l) (ground arith) h tt
      | inr over ↦
          place-IsTracked Phase.closing (at (after_check l) l) (ground arith) h
            (λ on. no_more l.inflight none_left)
    ]
  ]

  reported :
      (ids : List String) (b : Bool) (x : Exec) → Covered ids x → Covered ids (report_run b x)
  unfolding report_run
  reported ids b x h = h

  advance_at-IsTracked :
      (chosen : List ℕ) (p : Phase) (l : Loop)
      → Covered (flight_tasks (unsettled p l.inflight)) l.exec
      → AtPlace p l
      → IsTracked l
      → After IsTracked (advance_at e chosen p l)
  unfolding advance_at
  advance_at-IsTracked chosen Phase.testing l h h' all = elim (Bool-cases l.job.cancel_flag) [
    | inl off ↦
        place-IsTracked Phase.closing
          (at (if l.job.cancel_flag then Phase.closing else Phase.choosing) l) (rw off refl) h
          (λ bad. cc)
    | inr on ↦
        place-IsTracked Phase.choosing
          (at (if l.job.cancel_flag then Phase.closing else Phase.choosing) l) (rw on refl) h tt
  ]
  advance_at-IsTracked chosen Phase.choosing l h h' all = record { covered = h; place = tt }
  advance_at-IsTracked chosen (Phase.dispatching []) l h h' all = record { covered = h; place = tt }
  advance_at-IsTracked chosen (Phase.dispatching (t ∷ ts)) l h h' all =
      from_InFlight (Phase.dispatching ts) _ (λ m. refl) (λ m. tt)
        (dispatch-InFlight e (Phase.dispatching ts) t (at (Phase.dispatching ts) l) (refl, h))
  advance_at-IsTracked chosen Phase.checking l h h' all = check-IsTracked l h
  advance_at-IsTracked chosen Phase.waiting l h h' all = record { covered = h; place = tt }
  advance_at-IsTracked chosen (Phase.settling []) l h h' all = record { covered = h; place = tt }
  advance_at-IsTracked chosen (Phase.settling (n ∷ ns)) l h h' all =
      settle_found-IsTracked n ns (find_flight n l.inflight) l refl h
  advance_at-IsTracked chosen (Phase.deciding allow f ns) l h h' all =
      settle-deciding allow f ns (at (Phase.settling ns) l) (
        deciding-IsTracked allow f ns (e.outcome f.future) (at (Phase.settling ns) l) refl
          (λ id runs. elim (h id runs) [ inl same ↦ inl same | inr there ↦ inr there ]))
  advance_at-IsTracked chosen (Phase.resubmitting f ns) l h h' all = record {
    covered =
        add-Covered e f.task (f.attempt + 1) l.futures l.inflight l.exec
          (λ id runs. elim (h id runs) [ inl same ↦ inl same | inr there ↦ inr there ]);
    place = tt;
  }
  advance_at-IsTracked chosen Phase.closing l h h' all = elim (Bool-cases l.job.cancel_flag) [
    | inl off ↦
        place-IsTracked (Phase.draining l.inflight)
          (at (if l.job.cancel_flag then Phase.draining l.inflight else Phase.ending) l)
          (rw off refl) h tt
    | inr on ↦
        place-IsTracked Phase.ending
          (at (if l.job.cancel_flag then Phase.draining l.inflight else Phase.ending) l)
          (rw on refl) h (h' on)
  ]
  advance_at-IsTracked chosen (Phase.draining []) l h h' all = record { covered = h; place = refl }
  advance_at-IsTracked chosen (Phase.draining (f ∷ fs)) l h h' all =
      settle-drained f (at (Phase.draining fs) l) (
        drain-IsTracked f fs (e.outcome f.future) (at (Phase.draining fs) l) refl
          (λ id runs. elim (h id runs) [ inl same ↦ inl same | inr there ↦ inr there ]))
  advance_at-IsTracked chosen Phase.ending l h h' all =
      in_loop-After (NoNew l.exec) IsTracked (at Phase.reporting l) _
        (cancel_open-NoNew (is_cancelled l.job) l.exec)
        (λ y g. record { covered = λ id runs. h id (g id runs); place = h' })
  advance_at-IsTracked chosen Phase.reporting l h h' all = record {
    covered = reported (flight_tasks l.inflight) (is_cancelled l.job) l.exec h;
    place = h';
  }
  advance_at-IsTracked chosen Phase.ended l h h' all = all

not_cancelled :
    (c : Control) (job : Job) → (control c job).cancel_flag ≡ false → job.cancel_flag ≡ false
not_cancelled Control.pause job h = h
not_cancelled Control.unpause job h = h
not_cancelled Control.cancel_job job h = cc

AtPlace-same :
    (p : Phase) (l m : Loop)
    → m.inflight ≡ l.inflight
    → (m.job.cancel_flag ≡ false → l.job.cancel_flag ≡ false)
    → AtPlace p l
    → AtPlace p m
AtPlace-same Phase.testing l m e h k = tt
AtPlace-same Phase.choosing l m e h k = tt
AtPlace-same Phase.checking l m e h k = tt
AtPlace-same Phase.waiting l m e h k = tt
AtPlace-same Phase.closing l m e h k = λ off. e ∙ k (h off)
AtPlace-same Phase.ending l m e h k = e ∙ k
AtPlace-same Phase.reporting l m e h k = e ∙ k
AtPlace-same Phase.ended l m e h k = e ∙ k
AtPlace-same (Phase.dispatching ts) l m e h k = tt
AtPlace-same (Phase.settling ns) l m e h k = tt
AtPlace-same (Phase.draining fs) l m e h k = tt
AtPlace-same (Phase.deciding allow f ns) l m e h k = tt
AtPlace-same (Phase.resubmitting f ns) l m e h k = tt

LoopStep-IsTracked : (e : Executor) {l m : Loop} → LoopStep e l m → IsTracked l → IsTracked m
unfolding act advance
LoopStep-IsTracked e {l} {m} (advances chosen stepped) h =
    After-ok IsTracked _ (advance_at-IsTracked e chosen l.phase l h.covered h.place h) stepped
LoopStep-IsTracked e {l} {m} (controls c same) h = subst IsTracked (sym same) (record {
  covered = h.covered;
  place =
      AtPlace-same l.phase l (record l { job = control c l.job }) refl (not_cancelled c l.job)
        h.place;
})
LoopStep-IsTracked e {l} {m} (acts effect same) h = subst IsTracked (sym same) (record {
  covered = h.covered;
  place = AtPlace-same l.phase l (act effect l) refl (λ off. off) h.place;
})

-- In every execution by the executor, each running task has a future that is still to be settled.
pub LoopReach-IsTracked : (e : Executor) {l m : Loop} → LoopReach e l m → IsTracked l → IsTracked m
LoopReach-IsTracked e here h = h
LoopReach-IsTracked e (next r step) h = LoopStep-IsTracked e step (LoopReach-IsTracked e r h)

settled :
    (m : Loop)
    → IsTracked m
    → m.phase ≡ Phase.ended
    → (id : String) → is_running_at id m.exec.scheduler ≡ false
settled m h over id = elim (Bool-cases (is_running_at id m.exec.scheduler)) [
  | inr still ↦ still
  | inl runs ↦
      let at_end : Covered (flight_tasks (unsettled Phase.ended m.inflight)) m.exec =
        subst (λ p. Covered (flight_tasks (unsettled p m.inflight)) m.exec) over h.covered in
      let empty : m.inflight ≡ [] = subst (λ p. AtPlace p m) over h.place in
      absurd (subst (λ fs. In id (flight_tasks fs)) empty (at_end id runs))
]

-- An execution that starts where each running task is in flight, as `_run` does, comes to its end
-- only with no task running.
pub LoopReach-settled :
    (e : Executor) {l m : Loop}
    → LoopReach e l m
    → IsTracked l
    → m.phase ≡ Phase.ended
    → (id : String) → is_running_at id m.exec.scheduler ≡ false
LoopReach-settled e {l} {m} r h over id = settled m (LoopReach-IsTracked e r h) over id
