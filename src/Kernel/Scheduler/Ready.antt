-- ===== src/Kernel/Scheduler/Ready.antt =====
-- Which tasks are ready, and in which order.
use pharae.Base.{
  String, true, false, some, List, [], ◌∷◌, select, all_of, arith, ◌≡◌, refl, ◌↔◌, Option-cases,
  inl, inr, In, All, Sorted, sort_by-Sorted, In-sort_by, In-select,
}
use pharae.Base.Dict.{lookup, values}
use pharae.Schemas.{Task, TaskStatus, is_pending, is_completed}
use pharae.Kernel.Scheduler.{Scheduler, dep_completed, is_ready, ready_le, ready_tasks}

-- The dependency is stored and completed.
abbrev pub Completed : Scheduler → String → Type 0
Completed s dep = (t : Task) × (lookup dep s.tasks ≡ some t) × (t.status ≡ TaskStatus.completed)

completed_only : (st : TaskStatus) → is_completed st ≡ true → st ≡ TaskStatus.completed
completed_only st h = ground arith

dep_completed_iff : (s : Scheduler) (dep : String) → (dep_completed s dep ≡ true) ↔ Completed s dep
unfolding dep_completed
dep_completed_iff s dep = (there, back)
  where
    there : dep_completed s dep ≡ true → Completed s dep
    there h = elim (Option-cases (lookup dep s.tasks)) [
      | inl absent ↦ let bad : false ≡ true = rw (absent, dep_completed) at h in cc
      | inr (t, found) ↦
          let ended : is_completed t.status ≡ true = rw (found, dep_completed) at h in
          (t, found, completed_only t.status ended)
    ]

    back : Completed s dep → dep_completed s dep ≡ true
    back (t, found, ended) = ground arith

All-Completed_iff :
    (s : Scheduler) (deps : List String)
    → (all_of (dep_completed s) deps ≡ true) ↔ All (Completed s) deps
All-Completed_iff s [] = (λ h. tt, λ h. refl)
All-Completed_iff s (d ∷ ds) = (
  λ h.
      let first : dep_completed s d ≡ true = ground arith in
      let rest : all_of (dep_completed s) ds ≡ true = ground arith in
      ((dep_completed_iff s d).0 first, (All-Completed_iff s ds).0 rest),
  λ h.
      let first = (dep_completed_iff s d).1 h.0 in
      let rest = (All-Completed_iff s ds).1 h.1 in ground arith,
)

pending_iff : (st : TaskStatus) → (is_pending st ≡ true) ↔ (st ≡ TaskStatus.pending)
pending_iff st = ((λ h. ground arith), (λ h. ground arith))

is_ready_iff :
    (s : Scheduler) (t : Task)
    → (is_ready s t ≡ true) ↔ ((t.status ≡ TaskStatus.pending) × All (Completed s) t.depends_on)
unfolding is_ready
is_ready_iff s t = (
  λ h.
      let waits : is_pending t.status ≡ true = ground arith in
      let rest : all_of (dep_completed s) t.depends_on ≡ true = ground arith in
      ((pending_iff t.status).0 waits, (All-Completed_iff s t.depends_on).0 rest),
  λ h.
      let waits = (pending_iff t.status).1 h.0 in
      let rest = (All-Completed_iff s t.depends_on).1 h.1 in ground arith,
)

-- The ready tasks are exactly the stored tasks that are pending and whose dependencies are all
-- stored and completed.
pub ready_tasks-In :
    (s : Scheduler) (t : Task)
    → In t (ready_tasks s)
      ↔ (In t (values s.tasks) × (t.status ≡ TaskStatus.pending) × All (Completed s) t.depends_on)
unfolding ready_tasks
ready_tasks-In s t =
    let sorted = In-sort_by t (ready_le s) (select (is_ready s) (values s.tasks)) in
    let chosen = In-select t (is_ready s) (values s.tasks) in
    let meaning = is_ready_iff s t in
    (
      λ m.
          let (stored, good) = chosen.0 (sorted.0 m) in
          let (waits, deps) = meaning.0 good in (stored, waits, deps),
      λ (stored, waits, deps). sorted.1 (chosen.1 (stored, meaning.1 (waits, deps))),
    )

ready_le-total : (s : Scheduler) (t u : Task) → ready_le s t u ≡ false → ready_le s u t ≡ true
unfolding ready_le
ready_le-total s t u h = ground arith

ready_le_trans :
    (s : Scheduler) (t u v : Task)
    → ready_le s t u ≡ true
    → ready_le s u v ≡ true
    → ready_le s t v ≡ true
unfolding ready_le
ready_le_trans s t u v h k = ground arith

-- A task of higher priority stands before one of lower priority, and of two tasks of one priority
-- the one that was submitted first.
pub ready_tasks-Sorted : (s : Scheduler) → Sorted (ready_le s) (ready_tasks s)
unfolding ready_tasks
ready_tasks-Sorted s =
    sort_by-Sorted (ready_le s) (ready_le-total s) (ready_le_trans s)
      (select (is_ready s) (values s.tasks))
