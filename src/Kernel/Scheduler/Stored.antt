-- ===== src/Kernel/Scheduler/Stored.antt =====
-- The ids under which nexus/kernel/scheduler.py stores tasks.
use pharae.Base.{
  both_branches, ℕ, zero, suc, String, true, List, [], ◌∷◌, ◌≡◌, if◌then◌else◌, Option-cases, inl,
  inr,
}
use pharae.Base.Dict.{has_key, has_key-insert_of, lookup}
use pharae.Schemas.{TaskStatus}
use pharae.Kernel.Scheduler.{
  Scheduler, block_children, block_dependents, children, complete, is_open, set_status,
}
use pharae.Kernel.Scheduler.Blocking.{
  Reach, Step, cancel_cases, cancels, completes, fail_cases, fails, finish_cases, here, next,
  start_cases, started,
}

-- Every stored task is still stored.
abbrev pub Stays : Scheduler → Scheduler → Type 0
Stays s t = (id : String) → has_key id s.tasks ≡ true → has_key id t.tasks ≡ true

set_status-Stays : (k : String) (st : TaskStatus) (s : Scheduler) → Stays s (set_status k st s)
unfolding set_status
set_status-Stays k st s id h = elim (Option-cases (lookup k s.tasks)) [
  | inl absent ↦ rw (absent, set_status) h
  | inr (t, found) ↦
      rw (found, set_status) (has_key-insert_of k id (record t { status = st }) s.tasks h)
]

block_children-Stays :
    (fuel : ℕ) (cs : List String) (s : Scheduler) → Stays s (block_children fuel cs s)
unfolding block_children
block_children-Stays fuel [] s id h = h
block_children-Stays zero (c ∷ cs) s id h = h
block_children-Stays (suc fuel) (c ∷ cs) s id h =
    let blocked = set_status c TaskStatus.blocked s in
    let inner = block_children fuel (children c s) blocked in
    block_children-Stays (suc fuel) cs (if is_open c s then inner else s) id (
      both_branches (Stays s) (is_open c s) inner s
        (λ j k.
          block_children-Stays fuel (children c s) blocked j
            (set_status-Stays c TaskStatus.blocked s j k))
        (λ j k. k) id h)

pub Step-Stays : {s t : Scheduler} → Step s t → Stays s t
unfolding complete block_dependents
Step-Stays {s} {t} (started k e) id h =
    rw (start_cases k s e).1 (set_status-Stays k TaskStatus.running s id h)
Step-Stays {s} {t} (completes k e) id h =
    rw (finish_cases k TaskStatus.completed s e).1 (set_status-Stays k TaskStatus.completed s id h)
Step-Stays {s} {t} (fails k e) id h = rw (fail_cases k s e).1 (
    block_children-Stays _ (children k (set_status k TaskStatus.failed s))
      (set_status k TaskStatus.failed s) id (set_status-Stays k TaskStatus.failed s id h))
Step-Stays {s} {t} (cancels k e) id h = elim (cancel_cases k s e) [
  | inl same ↦ rw same h
  | inr (live, same) ↦ rw same (set_status-Stays k TaskStatus.cancelled s id h)
]

pub Reach-Stays : {s t : Scheduler} → Reach s t → Stays s t
Reach-Stays here id h = h
Reach-Stays (next r step) id h = Step-Stays step id (Reach-Stays r id h)
