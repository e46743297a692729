-- ===== src/Kernel/Scheduler/Progress.antt =====
-- The number of open tasks in nexus/kernel/scheduler.py, call by call.
use pharae.Base.{
  ◌≤◌, ◌<◌, String, true, false, some, [], ◌∷◌, all_of, ok, arith, ◌≡◌, refl, ◌==◌, Option-cases,
  Bool-cases, inl, inr,
}
use pharae.Base.Dict.{Dict, lookup, insert, values}
use pharae.Schemas.{Task, TaskStatus, is_terminal}
use pharae.Kernel.Scheduler.{Scheduler, set_status, is_open, start, complete, fail, done}
use pharae.Kernel.Scheduler.Marks.{open_count, open_count-set_status}
use pharae.Kernel.Scheduler.Blocking.{start_cases, finish_cases, fail_cases, after-Keeps}

open_count-insert_open :
    (k : String) (old new : Task) (d : Dict Task)
    → lookup k d ≡ some old
    → is_terminal old.status ≡ false
    → is_terminal new.status ≡ false
    → open_count (insert k new d) ≡ open_count d
unfolding lookup insert
open_count-insert_open k old new [] e h h' = cc
open_count-insert_open k old new ((j, v) ∷ d) e h h' = elim (Bool-cases (j == k)) [
  | inl same ↦ let now : some v ≡ some old = rw same at e in rw same (ground arith)
  | inr other ↦
      let later : lookup k d ≡ some old = rw other at e in
      rw other (omega (arith, open_count-insert_open k old new d later h h'))
]

open_count-set_open :
    (c : String) (st : TaskStatus) (s : Scheduler)
    → is_open c s ≡ true
    → is_terminal st ≡ false
    → open_count (set_status c st s).tasks ≡ open_count s.tasks
unfolding is_open set_status
open_count-set_open c st s live more = elim (Option-cases (lookup c s.tasks)) [
  | inl absent ↦ ground arith
  | inr (t, found) ↦
      ground (arith, open_count-insert_open c t (record t { status = st }) s.tasks found)
]

pub start-open_count :
    (id : String) (s : Scheduler) {s' : Scheduler}
    → start id s ≡ ok s'
    → open_count s'.tasks ≡ open_count s.tasks
start-open_count id s e =
    let (live, same) = start_cases id s e in
    rw same (open_count-set_open id TaskStatus.running s live refl)

pub complete-open_count :
    (id : String) (s : Scheduler) {s' : Scheduler}
    → complete id s ≡ ok s'
    → open_count s'.tasks < open_count s.tasks
unfolding complete
complete-open_count id s e =
    let (live, same) = finish_cases id TaskStatus.completed s e in
    rw same (omega (arith, open_count-set_status id TaskStatus.completed s live refl))

pub fail-open_count :
    (id : String) (s : Scheduler) {s' : Scheduler}
    → fail id s ≡ ok s'
    → open_count s'.tasks < open_count s.tasks
fail-open_count id s e =
    let (live, same) = fail_cases id s e in
    let keeps = after-Keeps id s live in
    rw same (omega (arith, keeps.count, open_count-set_status id TaskStatus.failed s live refl))

none_open :
    (tasks : Dict Task)
    → open_count tasks ≤ 0
    → all_of (λ t. is_terminal t.status) (values tasks) ≡ true
none_open [] h = refl
none_open ((_, t) ∷ tasks) h = ground (arith, none_open tasks)

-- With no open task everything is done.
pub done_of_count : (s : Scheduler) → open_count s.tasks ≤ 0 → done s ≡ true
unfolding done
done_of_count s h = none_open s.tasks h
