-- ===== src/Kernel/Scheduler/Running.antt =====
-- The running tasks in nexus/kernel/scheduler.py, call by call.
use pharae.Base.{
  ℕ, zero, suc, String, Bool, true, false, none, some, List, [], ◌∷◌, ok, arith, ◌≡◌, refl, ◌==◌,
  eq_iff, Bool-cases, Option-cases, inl, inr, ◌⊎◌,
}
use pharae.Base.Dict.{lookup, lookup-insert}
use pharae.Schemas.{TaskStatus, is_running}
use pharae.Kernel.Scheduler.{
  Scheduler, block_children, block_dependents, cancel, children, complete, fail, is_open,
  set_status, start,
}
use pharae.Kernel.Scheduler.Blocking.{cancel_cases, fail_cases, finish_cases, start_cases}

unfoldable pub is_running_at : String → Scheduler → Bool
is_running_at id s = elim (lookup id s.tasks) [ none ↦ false | some t ↦ is_running t.status ]

pub running-set_status :
    (id x : String) (st : TaskStatus) (s : Scheduler)
    → is_running_at x (set_status id st s) ≡ true
    → ((id == x) ≡ false) × (is_running_at x s ≡ true) ⊎ (is_running st ≡ true) × ((id == x) ≡ true)
unfolding is_running_at set_status
running-set_status id x st s h = elim (Option-cases (lookup id s.tasks)) [
  | inl absent ↦ ground (arith, eq_iff id x)
  | inr (t, found) ↦
      ground (arith, eq_iff id x, lookup-insert id x (record t { status = st }) s.tasks)
]

-- What is running after a task is marked with a status that is not `running`.
pub running-marked :
    (id x : String) (st : TaskStatus) (s : Scheduler)
    → is_running st ≡ false
    → is_running_at x (set_status id st s) ≡ true
    → ((id == x) ≡ false) × (is_running_at x s ≡ true)
running-marked id x st s off h = elim (running-set_status id x st s h) [
  | inl before ↦ before
  | inr (bad, _) ↦ cc
]

running-block_children :
    (fuel : ℕ) (cs : List String) (x : String) (s : Scheduler)
    → is_running_at x (block_children fuel cs s) ≡ true
    → is_running_at x s ≡ true
unfolding block_children
running-block_children fuel [] x s h = h
running-block_children zero (c ∷ cs) x s h = h
running-block_children (suc fuel) (c ∷ cs) x s h = elim (Bool-cases (is_open c s)) [
  | inl live ↦
      let later = running-block_children (suc fuel) cs x _ (rw live at h) in
      let mid = running-block_children fuel (children c s) x _ later in
      (running-marked c x TaskStatus.blocked s refl mid).1
  | inr closed ↦ running-block_children (suc fuel) cs x s (rw closed at h)
]

pub running-start :
    (id x : String) (s : Scheduler) {t : Scheduler}
    → start id s ≡ ok t
    → is_running_at x t ≡ true
    → ((id == x) ≡ true) ⊎ (is_running_at x s ≡ true)
running-start id x s e h =
    let (live, same) = start_cases id s e in
    elim (running-set_status id x TaskStatus.running s (rw same at h)) [
      | inl before ↦ inr before.1
      | inr this ↦ inl this.1
    ]

pub running-complete :
    (id x : String) (s : Scheduler) {t : Scheduler}
    → complete id s ≡ ok t
    → is_running_at x t ≡ true
    → ((id == x) ≡ false) × (is_running_at x s ≡ true)
unfolding complete
running-complete id x s e h =
    let (live, same) = finish_cases id TaskStatus.completed s e in
    running-marked id x TaskStatus.completed s refl (rw same at h)

pub running-fail :
    (id x : String) (s : Scheduler) {t : Scheduler}
    → fail id s ≡ ok t
    → is_running_at x t ≡ true
    → ((id == x) ≡ false) × (is_running_at x s ≡ true)
unfolding block_dependents
running-fail id x s e h =
    let (live, same) = fail_cases id s e in
    running-marked id x TaskStatus.failed s refl (
      running-block_children _ (children id (set_status id TaskStatus.failed s)) x
        (set_status id TaskStatus.failed s) (rw same at h))

pub running-cancel :
    (id x : String) (s : Scheduler) {t : Scheduler}
    → cancel id s ≡ ok t
    → is_running_at x t ≡ true
    → is_running_at x s ≡ true
running-cancel id x s e h = elim (cancel_cases id s e) [
  | inl same ↦ rw same at h
  | inr (live, same) ↦ (running-marked id x TaskStatus.cancelled s refl (rw same at h)).1
]
