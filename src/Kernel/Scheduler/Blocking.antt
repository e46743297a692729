-- ===== src/Kernel/Scheduler/Blocking.antt =====
-- Failed tasks and their dependents in nexus/kernel/scheduler.py, over sequences of calls.
use pharae.Base.{
  String, Bool, true, false, none, some, List, [], ◌∷◌, ok, length, arith, ◌≡◌, refl, sym, ◌∙◌,
  ◌==◌, eq_iff, Option-cases, Bool-cases, inl, inr, ◌⊎◌, All, >>=-eq-ok,
}
use mathlib.Core.Path.{subst}
use pharae.Base.Dict.{lookup, lookup-insert}
use pharae.Schemas.{TaskStatus}
use pharae.Kernel.Scheduler.{
  cancel, Scheduler, set_status, is_open, children, block_dependents, finish, fail, start, complete,
  get_task,
}
use pharae.Kernel.Scheduler.Marks.{
  open_count-le, lookup-set_status, set_status-dependents, is_open-set_status, Keeps,
  is_open_of_lookup, Keeps-closed, Keeps-trans, set_status-Keeps, block_children-Keeps,
}
use pharae.Kernel.Scheduler.Closing.{Sealed, Closed-mono, children_of, block_children_closes}

abbrev pub stops : TaskStatus → Bool
stops TaskStatus.failed = true
stops TaskStatus.blocked = true
stops _ = false

-- The status `failed` or `blocked`: a dependent of such a task can never run.
unfoldable pub is_stopped : String → Scheduler → Bool
is_stopped id s = elim (lookup id s.tasks) [ none ↦ false | some t ↦ stops t.status ]

-- No dependent of a failed or blocked task is open.
abbrev pub IsBlocking : Scheduler → Type 0
IsBlocking s =
    (id : String) → is_stopped id s ≡ true → All (λ c. is_open c s ≡ false) (children id s)

pub stopped_closed : (x : String) (s : Scheduler) → is_stopped x s ≡ true → is_open x s ≡ false
unfolding is_stopped is_open
stopped_closed x s h = ground arith

is_stopped_of_lookup :
    (x : String) (a b : Scheduler)
    → lookup x b.tasks ≡ lookup x a.tasks
    → is_stopped x b ≡ is_stopped x a
unfolding is_stopped
is_stopped_of_lookup x a b e = rw (e, is_stopped)

pub finish_cases :
    (id : String) (st : TaskStatus) (s : Scheduler) {s' : Scheduler}
    → finish id st s ≡ ok s'
    → (is_open id s ≡ true) × (s' ≡ set_status id st s)
unfolding finish get_task is_open
finish_cases id st s e = elim (Option-cases (lookup id s.tasks)) [
  | inl absent ↦ ground arith
  | inr (t, found) ↦ ground arith
]

pub fail_cases :
    (id : String) (s : Scheduler) {s' : Scheduler}
    → fail id s ≡ ok s'
    → (is_open id s ≡ true) × (s' ≡ block_dependents id (set_status id TaskStatus.failed s))
unfolding fail
fail_cases id s e =
    let (mid, ended, rest) =
      >>=-eq-ok (finish id TaskStatus.failed s) (λ r. ok (block_dependents id r)) e in
    let (live, same) = finish_cases id TaskStatus.failed s ended in (live, cc)

module _ (id : String) (s : Scheduler) (live : is_open id s ≡ true) where
  abbrev pub marked : Scheduler
  marked = set_status id TaskStatus.failed s

  marked-Keeps : Keeps s marked
  marked-Keeps = set_status-Keeps id TaskStatus.failed s live refl

  pub after-Keeps : Keeps marked (block_dependents id marked)
  unfolding block_dependents
  after-Keeps = block_children-Keeps (length marked.tasks) (children id marked) marked

  after_closes :
      All (λ c. is_open c (block_dependents id marked) ≡ false) (children id marked)
      × Sealed marked (block_dependents id marked)
  unfolding block_dependents
  after_closes =
      block_children_closes (length marked.tasks) (children id marked) marked
        (open_count-le marked.tasks)

  own_children :
      All
        (λ c. is_open c (block_dependents id marked) ≡ false)
        (children id (block_dependents id marked))
  own_children =
      rw (children_of id marked (block_dependents id marked) after-Keeps.same_graph) after_closes.0

  after-Sealed : Sealed s (block_dependents id marked)
  after-Sealed x before closed = elim (Bool-cases (id == x)) [
    | inl same ↦
        subst
          (λ y.
            All (λ c. is_open c (block_dependents id marked) ≡ false)
              (children y (block_dependents id marked)))
          ((eq_iff id x).0 same) own_children
    | inr other ↦
        after_closes.1 x (is_open-set_status id x TaskStatus.failed s refl ∙ rw other before) closed
  ]

  after-IsBlocking : IsBlocking s → IsBlocking (block_dependents id marked)
  after-IsBlocking h x stopped = elim (Bool-cases (is_open x s)) [
    | inl before ↦ after-Sealed x before (stopped_closed x _ stopped)
    | inr closed ↦
        let keeps = Keeps-trans s marked _ marked-Keeps after-Keeps in
        let same = is_stopped_of_lookup x s _ (keeps.same_closed x closed) in
        rw (children_of x s (block_dependents id marked) keeps.same_graph)
          (Closed-mono s _ (children x s) keeps (h x (sym same ∙ stopped)))
  ]

-- A task fails only while it is not in a terminal status. It is closed then, and so is every
-- dependent of whatever the call has closed: of the task, and of each task that it blocks. A task
-- that was in a terminal status before is left as it was, and so is the graph.
pub fail_blocks :
    (id : String) (s : Scheduler) {s' : Scheduler}
    → fail id s ≡ ok s'
    → (is_open id s ≡ true)
      × (is_open id s' ≡ false)
      × ((x : String)
          → is_open x s ≡ true
          → is_open x s' ≡ false
          → All (λ c. is_open c s' ≡ false) (children x s'))
      × ((x : String) → is_open x s ≡ false → lookup x s'.tasks ≡ lookup x s.tasks)
      × (s'.dependents ≡ s.dependents)
fail_blocks id s e =
    let (live, same) = fail_cases id s e in
    let keeps = Keeps-trans s _ _ (marked-Keeps id s live) (after-Keeps id s live) in
    let now : is_open id (marked id s live) ≡ false =
      ground (arith, is_open-set_status id id TaskStatus.failed s refl, eq_iff id id) in
    rw same (
      live,
      Keeps-closed (marked id s live) _ id (after-Keeps id s live) now,
      after-Sealed id s live,
      keeps.same_closed,
      keeps.same_graph,
    )

is_stopped-set_status :
    (id x : String) (st : TaskStatus) (s : Scheduler)
    → is_open id s ≡ true
    → stops st ≡ false
    → is_stopped x (set_status id st s) ≡ true
    → ((id == x) ≡ false) × (is_stopped x s ≡ true)
unfolding is_stopped is_open set_status
is_stopped-set_status id x st s live other h = elim (Option-cases (lookup id s.tasks)) [
  | inl absent ↦ ground arith
  | inr (t, found) ↦
      ground (arith, eq_iff id x, lookup-insert id x (record t { status = st }) s.tasks)
]

pub closed-set_status :
    (id c : String) (st : TaskStatus) (s : Scheduler)
    → is_open id s ≡ true
    → is_open c s ≡ false
    → is_open c (set_status id st s) ≡ false
closed-set_status id c st s live closed = elim (Bool-cases (id == c)) [
  | inl same ↦ let bad : is_open c s ≡ true = rw ((eq_iff id c).0 same) at live in cc
  | inr other ↦
      is_open_of_lookup c s (set_status id st s) (lookup-set_status id c st s other) ∙ closed
]

set_status-IsBlocking :
    (id : String) (st : TaskStatus) (s : Scheduler)
    → is_open id s ≡ true
    → stops st ≡ false
    → IsBlocking s
    → IsBlocking (set_status id st s)
set_status-IsBlocking id st s live other h x stopped =
    let (_, before) = is_stopped-set_status id x st s live other stopped in
    rw (children_of x s (set_status id st s) (set_status-dependents id st s))
      (go (children x s) (h x before))
  where
    go :
        (cs : List String)
        → All (λ c. is_open c s ≡ false) cs
        → All (λ c. is_open c (set_status id st s) ≡ false) cs
    go [] h = tt
    go (c ∷ cs) h = (closed-set_status id c st s live h.0, go cs h.1)

pub start_cases :
    (id : String) (s : Scheduler) {s' : Scheduler}
    → start id s ≡ ok s'
    → (is_open id s ≡ true) × (s' ≡ set_status id TaskStatus.running s)
unfolding start get_task is_open
start_cases id s e = elim (Option-cases (lookup id s.tasks)) [
  | inl absent ↦ ground arith
  | inr (t, found) ↦ ground arith
]

pub cancel_cases :
    (id : String) (s : Scheduler) {s' : Scheduler}
    → cancel id s ≡ ok s'
    → (s' ≡ s) ⊎ ((is_open id s ≡ true) × (s' ≡ set_status id TaskStatus.cancelled s))
unfolding cancel get_task is_open
cancel_cases id s e = elim (Option-cases (lookup id s.tasks)) [
  | inl absent ↦ ground arith
  | inr (t, found) ↦ ground arith
]

-- The calls that change the status of a stored task.
pub data Step (s s' : Scheduler) : Type 0 where
  started : (id : String) → start id s ≡ ok s' → Step s s'
  completes : (id : String) → complete id s ≡ ok s' → Step s s'
  fails : (id : String) → fail id s ≡ ok s' → Step s s'
  cancels : (id : String) → cancel id s ≡ ok s' → Step s s'

pub data Reach (s : Scheduler) : Scheduler → Type 0 where
  here : Reach s s
  next : {t u : Scheduler} → Reach s t → Step t u → Reach s u

Step-IsBlocking : {s s' : Scheduler} → Step s s' → IsBlocking s → IsBlocking s'
unfolding complete
Step-IsBlocking {s} {s'} (started id e) h =
    let (live, same) = start_cases id s e in
    rw same (set_status-IsBlocking id TaskStatus.running s live refl h)
Step-IsBlocking {s} {s'} (completes id e) h =
    let (live, same) = finish_cases id TaskStatus.completed s e in
    rw same (set_status-IsBlocking id TaskStatus.completed s live refl h)
Step-IsBlocking {s} {s'} (fails id e) h =
    let (live, same) = fail_cases id s e in rw same (after-IsBlocking id s live h)
Step-IsBlocking {s} {s'} (cancels id e) h = elim (cancel_cases id s e) [
  | inl same ↦ rw same h
  | inr (live, same) ↦ rw same (set_status-IsBlocking id TaskStatus.cancelled s live refl h)
]

-- In every sequence of starts, completions, failures and cancellations it stays true that no
-- dependent of a failed or blocked task is open.
pub Reach-IsBlocking : {s t : Scheduler} → Reach s t → IsBlocking s → IsBlocking t
Reach-IsBlocking here h = h
Reach-IsBlocking (next r step) h = Step-IsBlocking step (Reach-IsBlocking r h)
