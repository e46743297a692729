-- ===== src/Kernel/Scheduler.antt =====
-- nexus/kernel/scheduler.py. The task objects live in `tasks`, by their ids.
pub mod Graph
pub mod Rounds
pub mod Marks
pub mod Closing
pub mod Blocking
pub mod Ready
pub mod Submit
pub mod Progress
pub mod Running
pub mod Stored
pub mod Final
use pharae.Base.{
  ℕ, zero, suc, ◌+◌, String, Bool, true, false, ◌&&◌, ◌||◌, not, Option, none, some, List, [], ◌∷◌,
  ◌++◌, select, all_of, sort_by, if◌then◌else◌, leb, eqb, ◌==◌, Result, ok, err, ◌>>=◌, ◌>>◌,
  raise_if, length, is_empty, map, elem,
}
use pharae.Base.Dict.{Dict, lookup, insert, has_key, get_or, values}
use pharae.Base.Int.{leb_ℤ, eqb_ℤ}
use pharae.Base.Text.{text_le}
use pharae.Schemas.{Task, TaskStatus, is_terminal, is_pending, is_running, is_completed, task_ids}
use pharae.Kernel.Scheduler.Graph.{GraphError, check_acyclic}

pub record Scheduler : Type 0 where
  pub tasks : Dict Task
  pub order : Dict ℕ
  pub dependents : Dict (List String)

abbrev pub new_scheduler : Scheduler
new_scheduler = record { tasks = []; order = []; dependents = [] }

pub data SchedulerError : Type 0 where
  duplicate_ids : SchedulerError
  already_scheduled : List String → SchedulerError
  unknown_dependency : (task dep : String) → SchedulerError
  cyclic : GraphError → SchedulerError
  unknown_task : String → SchedulerError
  cannot_start : String → TaskStatus → SchedulerError
  not_running : String → SchedulerError

-- `set(ids)`
unfoldable pub distinct : List String → List String
distinct [] = []
distinct (x ∷ xs) = if elem x xs then distinct xs else x ∷ distinct xs

-- The first dependency of a task that is neither incoming nor known.
unfoldable pub first_unknown : List String → Dict Task → List String → Option String
first_unknown incoming known [] = none
first_unknown incoming known (dep ∷ deps) =
    if elem dep incoming || has_key dep known then first_unknown incoming known deps else some dep

unfoldable pub check_dependencies :
    List String → Dict Task → List Task → Result SchedulerError (Unit {0})
unfolding first_unknown
check_dependencies incoming known [] = ok tt
check_dependencies incoming known (t ∷ ts) =
    let rest = check_dependencies incoming known ts in
    elim (first_unknown incoming known t.depends_on) [
      | none ↦ rest
      | some dep ↦ err (unknown_dependency t.id dep)
    ]

-- `setdefault(dep, []).append(id)` for the dependencies of one task.
unfoldable pub link : String → List String → Dict (List String) → Dict (List String)
link id [] m = m
link id (dep ∷ deps) m = link id deps (insert dep (get_or dep [] m ++ id ∷ []) m)

-- The last loop of `submit`.
unfoldable pub store : List Task → Scheduler → Scheduler
unfolding link
store [] s = s
store (t ∷ ts) s = store ts (record {
  tasks = insert t.id t s.tasks;
  order = insert t.id (length s.order) s.order;
  dependents = link t.id t.depends_on s.dependents;
})

abbrev pub graph_result : Result GraphError (Unit {0}) → Result SchedulerError (Unit {0})
graph_result (ok _) = ok tt
graph_result (err e) = err (cyclic e)

unfoldable pub submit : List Task → Scheduler → Result SchedulerError Scheduler
submit tasks s = do
  let incoming = distinct (task_ids tasks)
  let clash = select (λ id. has_key id s.tasks) incoming
  raise_if (not (eqb (length incoming) (length tasks))) duplicate_ids
  raise_if (not (is_empty clash)) (already_scheduled (sort_by text_le clash))
  check_dependencies incoming s.tasks tasks
  graph_result (check_acyclic s.tasks tasks)
  ok (store tasks s)

-- `Scheduler.get`
unfoldable pub get_task : String → Scheduler → Result SchedulerError Task
get_task id s = elim (lookup id s.tasks) [ none ↦ err (unknown_task id) | some t ↦ ok t ]

-- `self._tasks[d].status is COMPLETED`. A dependency that is not stored is a KeyError in the
-- source; `submit` admits none.
unfoldable pub dep_completed : Scheduler → String → Bool
dep_completed s dep = elim (lookup dep s.tasks) [ none ↦ false | some t ↦ is_completed t.status ]

unfoldable pub is_ready : Scheduler → Task → Bool
unfolding dep_completed
is_ready s t = is_pending t.status && all_of (dep_completed s) t.depends_on

-- The key `(-priority, order)`.
unfoldable pub ready_le : Scheduler → Task → Task → Bool
ready_le s t u =
    if eqb_ℤ t.priority u.priority
    then leb (get_or t.id 0 s.order) (get_or u.id 0 s.order)
    else leb_ℤ u.priority t.priority

-- `Scheduler.ready`
unfoldable pub ready_tasks : Scheduler → List Task
unfolding is_ready ready_le
ready_tasks s = sort_by (ready_le s) (select (is_ready s) (values s.tasks))

-- `task.status = …` on the stored task object.
unfoldable pub set_status : String → TaskStatus → Scheduler → Scheduler
set_status id status s = elim (lookup id s.tasks) [
  | none ↦ s
  | some t ↦ record s { tasks = insert id (record t { status = status }) s.tasks }
]

abbrev pub is_startable : TaskStatus → Bool
is_startable TaskStatus.pending = true
is_startable TaskStatus.ready = true
is_startable _ = false

unfoldable pub start : String → Scheduler → Result SchedulerError Scheduler
unfolding get_task set_status
start id s = do
  t ← get_task id s
  raise_if (not (is_startable t.status)) (cannot_start id t.status)
  ok (set_status id TaskStatus.running s)

-- `Scheduler._finish`
unfoldable pub finish : String → TaskStatus → Scheduler → Result SchedulerError Scheduler
unfolding get_task set_status
finish id status s = do
  t ← get_task id s
  raise_if (not (is_running t.status)) (not_running id)
  ok (set_status id status s)

unfoldable pub complete : String → Scheduler → Result SchedulerError Scheduler
unfolding finish
complete id s = finish id TaskStatus.completed s

abbrev pub children : String → Scheduler → List String
children id s = get_or id [] s.dependents

-- `child.status not in TERMINAL_TASK_STATUSES`
unfoldable pub is_open : String → Scheduler → Bool
is_open id s = elim (lookup id s.tasks) [ none ↦ false | some t ↦ not (is_terminal t.status) ]

-- The loop of `_block_dependents`, on a bound for the depth of its recursion.
unfoldable pub block_children : ℕ → List String → Scheduler → Scheduler
unfolding set_status is_open
block_children fuel [] s = s
block_children zero (c ∷ cs) s = s
block_children (suc fuel) (c ∷ cs) s =
    let blocked = block_children fuel (children c s) (set_status c TaskStatus.blocked s) in
    block_children (suc fuel) cs (if is_open c s then blocked else s)

unfoldable pub block_dependents : String → Scheduler → Scheduler
unfolding block_children
block_dependents id s = block_children (length s.tasks) (children id s) s

unfoldable pub fail : String → Scheduler → Result SchedulerError Scheduler
unfolding finish block_dependents
fail id s = do s' ← finish id TaskStatus.failed s; ok (block_dependents id s')

unfoldable pub cancel : String → Scheduler → Result SchedulerError Scheduler
unfolding get_task set_status
cancel id s = do
  t ← get_task id s
  ok (if is_terminal t.status then s else set_status id TaskStatus.cancelled s)

unfoldable pub done : Scheduler → Bool
done s = all_of (λ t. is_terminal t.status) (values s.tasks)

abbrev pub statuses_of : Dict Task → Dict TaskStatus
statuses_of [] = []
statuses_of ((id, t) ∷ tasks) = (id, t.status) ∷ statuses_of tasks

-- `Scheduler.statuses`
abbrev pub statuses : Scheduler → Dict TaskStatus
statuses s = statuses_of s.tasks
