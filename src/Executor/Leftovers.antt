-- ===== src/Executor/Leftovers.antt =====
-- The tasks that a cancelled job leaves in nexus/executor/executor.py.
use pharae.Base.{
  ℕ, String, Bool, true, false, Option, none, some, List, [], ◌∷◌, ok, err, ◌>>=◌, if◌then◌else◌,
  arith, ◌≡◌, refl, sym, ◌∙◌, Bool-cases, Option-cases, inl, inr, ◌==◌, eq_iff, eq_refl, ◌⊎◌,
}
use mathlib.Core.Path.{subst}
use pharae.Base.Dict.{Dict, lookup}
use pharae.Schemas.{Task, TaskStatus, is_terminal}
use pharae.Kernel.Scheduler.{Scheduler, cancel, is_open, get_task, set_status, statuses_of}
use pharae.Kernel.Scheduler.Marks.{is_open-set_status, lookup-set_status}
use pharae.Kernel.Scheduler.Blocking.{cancel_cases}
use pharae.Kernel.Runtime.Execution.{Exec, Step, lift}
use pharae.Executor.Jobs.{Executor, Loop, Phase}
use pharae.Executor.Machine.{advance, advance_at, at, cancel_open, cancel_rest}
use pharae.Executor.After.{After, bind-After, in_loop-After, lift-After, After-ok}

marked_closed :
    (id x : String) (s : Scheduler)
    → ((id == x) ≡ true) ⊎ (is_open x s ≡ false)
    → is_open x (set_status id TaskStatus.cancelled s) ≡ false
marked_closed id x s h =
    is_open-set_status id x TaskStatus.cancelled s refl
    ∙ elim h [ inl same ↦ rw same refl | inr closed ↦ rw closed (ground arith) ]

cancel-closed :
    (id x : String) (s : Scheduler) {t : Scheduler}
    → cancel id s ≡ ok t
    → is_open x s ≡ false
    → is_open x t ≡ false
cancel-closed id x s e closed = elim (cancel_cases id s e) [
  | inl same ↦ rw same closed
  | inr (live, same) ↦ rw same (marked_closed id x s (inr closed))
]

cancel-open :
    (id : String) (s : Scheduler) {t : Scheduler}
    → cancel id s ≡ ok t
    → is_open id s ≡ true
    → t ≡ set_status id TaskStatus.cancelled s
unfolding cancel get_task is_open
cancel-open id s e live = elim (Option-cases (lookup id s.tasks)) [
  | inl absent ↦ ground arith
  | inr (t, found) ↦ ground arith
]

cancel-closes :
    (id : String) (s : Scheduler) {t : Scheduler} → cancel id s ≡ ok t → is_open id t ≡ false
cancel-closes id s e = elim (Bool-cases (is_open id s)) [
  | inl live ↦ rw (cancel-open id s e live) (marked_closed id id s (inl (eq_refl id)))
  | inr closed ↦ cancel-closed id id s e closed
]

abbrev Closed : String → Exec → Type 0
Closed id x = is_open id x.scheduler ≡ false

abbrev cancel_in : String → Exec → Step Exec
cancel_in id x = lift x (cancel id x.scheduler) >>= λ s. ok (record x { scheduler = s })

cancel_rest-Closed :
    (id : String) (d : Dict TaskStatus) (x : Exec)
    → Closed id x
    → After (Closed id) (cancel_rest d x)
unfolding cancel_rest
cancel_rest-Closed id [] x h = h
cancel_rest-Closed id ((k, status) ∷ rest) x h = elim (Bool-cases (is_terminal status)) [
  | inl over ↦ rw (over, After) (cancel_rest-Closed id rest x h)
  | inr open_ ↦
      rw (open_, After)
        (bind-After (Closed id) (Closed id) (cancel_in k x) (cancel_rest rest)
          (lift-After (Closed id) x (cancel k x.scheduler) (λ s. ok (record x { scheduler = s }))
            (λ s ended. cancel-closed k id x.scheduler ended h))
          (cancel_rest-Closed id rest))
]

lookup-Closed :
    (id : String) (x : Exec) (o : Option Task)
    → lookup id x.scheduler.tasks ≡ o
    → elim o [ none ↦ true | some t ↦ is_terminal t.status ] ≡ true
    → Closed id x
unfolding is_open
lookup-Closed id x none found h = rw (found, is_open) refl
lookup-Closed id x (some t) found h = rw (found, is_open) (ground arith)

cancel-lookup :
    (k id : String) (s : Scheduler) {t : Scheduler}
    → cancel k s ≡ ok t
    → (k == id) ≡ false
    → lookup id t.tasks ≡ lookup id s.tasks
cancel-lookup k id s e other = elim (cancel_cases k s e) [
  | inl same ↦ rw same refl
  | inr (live, same) ↦ rw same (lookup-set_status k id TaskStatus.cancelled s other)
]

lookup-first :
    (id k : String) (t : Task) (tasks : Dict Task)
    → lookup id ((k, t) ∷ tasks) ≡ (if k == id then some t else lookup id tasks)
unfolding lookup
lookup-first id k t tasks = refl

no_task : (id : String) → lookup {V = Task} id [] ≡ none
unfolding lookup
no_task id = refl

-- A task whose first entry in the list is the one that is stored is closed after the loop.
cancel_rest-closes :
    (id : String) (tasks : Dict Task) (x : Exec)
    → lookup id tasks ≡ lookup id x.scheduler.tasks
    → After (Closed id) (cancel_rest (statuses_of tasks) x)
unfolding cancel_rest
cancel_rest-closes id [] x h = lookup-Closed id x none (sym h ∙ no_task id) refl
cancel_rest-closes id ((k, t) ∷ tasks) x h =
    let first = lookup-first id k t tasks in
    elim (Bool-cases (k == id)) [
      | inl this ↦
          let found : lookup id x.scheduler.tasks ≡ some t = sym h ∙ first ∙ rw this refl in
          elim (Bool-cases (is_terminal t.status)) [
            | inl over ↦
                rw (over, After)
                  (cancel_rest-Closed id (statuses_of tasks) x
                    (lookup-Closed id x (some t) found over))
            | inr open_ ↦
                rw (open_, After)
                  (bind-After (Closed id) (Closed id) (cancel_in k x)
                    (cancel_rest (statuses_of tasks))
                    (lift-After (Closed id) x (cancel k x.scheduler)
                      (λ s. ok (record x { scheduler = s }))
                      (λ s ended.
                        subst (λ j. is_open j s ≡ false) ((eq_iff k id).0 this)
                          (cancel-closes k x.scheduler ended)))
                    (cancel_rest-Closed id (statuses_of tasks)))
          ]
      | inr other ↦
          let same : lookup id tasks ≡ lookup id x.scheduler.tasks =
            sym (first ∙ rw other refl) ∙ h in
          elim (Bool-cases (is_terminal t.status)) [
            | inl over ↦ rw (over, After) (cancel_rest-closes id tasks x same)
            | inr open_ ↦
                rw (open_, After)
                  (bind-After (λ y. lookup id tasks ≡ lookup id y.scheduler.tasks) (Closed id)
                    (cancel_in k x) (cancel_rest (statuses_of tasks))
                    (lift-After _ x (cancel k x.scheduler) (λ s. ok (record x { scheduler = s }))
                      (λ s ended. same ∙ sym (cancel-lookup k id x.scheduler ended other)))
                    (λ y found. cancel_rest-closes id tasks y found))
          ]
    ]

every :
    {A : Type 0} (P : String → A → Type 0) (m : Step A)
    → ((id : String) → After (P id) m)
    → After (λ a. (id : String) → P id a) m
every P (ok a) h = λ id. h id
every P (err e) h = tt

abbrev AllClosed : Exec → Type 0
AllClosed x = (id : String) → Closed id x

cancel_open-closes : (b : Bool) (x : Exec) → b ≡ true → After AllClosed (cancel_open b x)
unfolding cancel_open
cancel_open-closes true x on = every Closed _ (λ id. cancel_rest-closes id x.scheduler.tasks x refl)
cancel_open-closes false x on = cc

-- No task is open where `_run` comes to its report.
abbrev pub AtReport : Loop → Type 0
AtReport m = (m.phase ≡ Phase.reporting) × ((id : String) → is_open id m.exec.scheduler ≡ false)

-- If the job is cancelled when the loop is over, no task of the scheduler is left open, whatever
-- the scheduler holds.
pub ending-AtReport :
    (e : Executor) (chosen : List ℕ) (l : Loop) {m : Loop}
    → l.phase ≡ Phase.ending
    → l.job.cancel_flag ≡ true
    → advance e chosen l ≡ ok m
    → AtReport m
unfolding advance advance_at
ending-AtReport e chosen l {m} place off stepped =
    let reached : After AtReport (advance_at e chosen Phase.ending l) =
      in_loop-After AllClosed AtReport (at Phase.reporting l) (cancel_open l.job.cancel_flag l.exec)
        (cancel_open-closes l.job.cancel_flag l.exec off) (λ x h. (refl, h)) in
    After-ok AtReport (advance_at e chosen Phase.ending l) reached
      (subst (λ p. advance_at e chosen p l ≡ ok m) place stepped)
