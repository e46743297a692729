-- ===== src/Kernel/Scheduler/Marks.antt =====
-- `_block_dependents` of nexus/kernel/scheduler.py: the other tasks and the graph.
use pharae.Base.{
  ℕ, zero, suc, ◌+◌, ◌≤◌, String, true, false, some, List, [], ◌∷◌, if◌then◌else◌, length, arith,
  ◌≡◌, refl, ◌∙◌, ◌==◌, eq_iff, Option-cases, Bool-cases, inl, inr,
}
use pharae.Base.Dict.{Dict, lookup, insert, lookup-insert}
use pharae.Schemas.{Task, TaskStatus, is_terminal}
use pharae.Kernel.Scheduler.{Scheduler, set_status, is_open, children, block_children}

-- The number of tasks that are not in a terminal status.
abbrev pub open_count : Dict Task → ℕ
open_count [] = 0
open_count ((_, t) ∷ tasks) = (if is_terminal t.status then 0 else 1) + open_count tasks

pub open_count-le : (tasks : Dict Task) → open_count tasks ≤ length tasks
open_count-le [] = omega arith
open_count-le ((_, t) ∷ tasks) = ground (arith, open_count-le tasks)

pub open_count-insert :
    (k : String) (old new : Task) (d : Dict Task)
    → lookup k d ≡ some old
    → is_terminal old.status ≡ false
    → is_terminal new.status ≡ true
    → open_count d ≡ open_count (insert k new d) + 1
unfolding lookup insert
open_count-insert k old new [] e h h' = cc
open_count-insert k old new ((j, v) ∷ d) e h h' = elim (Bool-cases (j == k)) [
  | inl same ↦ let now : some v ≡ some old = rw same at e in rw same (ground arith)
  | inr other ↦
      let later : lookup k d ≡ some old = rw other at e in
      rw other (omega (arith, open_count-insert k old new d later h h'))
]

-- The status of every other task, and the graph, stay as they are.
pub lookup-set_status :
    (c x : String) (st : TaskStatus) (s : Scheduler)
    → (c == x) ≡ false
    → lookup x (set_status c st s).tasks ≡ lookup x s.tasks
unfolding set_status
lookup-set_status c x st s other = elim (Option-cases (lookup c s.tasks)) [
  | inl absent ↦ rw (absent, set_status)
  | inr (t, found) ↦
      rw (found, set_status) (lookup-insert c x (record t { status = st }) s.tasks ∙ rw other)
]

pub set_status-dependents :
    (c : String) (st : TaskStatus) (s : Scheduler) → (set_status c st s).dependents ≡ s.dependents
unfolding set_status
set_status-dependents c st s = ground arith

pub is_open-set_status :
    (c x : String) (st : TaskStatus) (s : Scheduler)
    → is_terminal st ≡ true
    → is_open x (set_status c st s) ≡ (if c == x then false else is_open x s)
unfolding is_open set_status
is_open-set_status c x st s final = elim (Option-cases (lookup c s.tasks)) [
  | inl absent ↦ ground (arith, eq_iff c x)
  | inr (t, found) ↦
      ground (arith, eq_iff c x, lookup-insert c x (record t { status = st }) s.tasks)
]

pub open_count-set_status :
    (c : String) (st : TaskStatus) (s : Scheduler)
    → is_open c s ≡ true
    → is_terminal st ≡ true
    → open_count s.tasks ≡ open_count (set_status c st s).tasks + 1
unfolding is_open set_status
open_count-set_status c st s live final = elim (Option-cases (lookup c s.tasks)) [
  | inl absent ↦ ground arith
  | inr (t, found) ↦ ground (arith, open_count-insert c t (record t { status = st }) s.tasks found)
]

-- One round of the loop, as a function of its own.
abbrev pub visit : ℕ → String → Scheduler → Scheduler
visit fuel c s =
    if is_open c s
    then block_children fuel (children c s) (set_status c TaskStatus.blocked s)
    else s

pub block_children-cons :
    (fuel : ℕ) (c : String) (cs : List String) (s : Scheduler)
    → block_children (suc fuel) (c ∷ cs) s ≡ block_children (suc fuel) cs (visit fuel c s)
unfolding block_children
block_children-cons fuel c cs s = refl

-- What the loop leaves: closed tasks are not touched, the graph is not, and no task is reopened.
pub record Keeps (before after : Scheduler) : Type 0 where
  pub same_graph : after.dependents ≡ before.dependents
  pub same_closed :
      (x : String) → is_open x before ≡ false → lookup x after.tasks ≡ lookup x before.tasks
  pub count : open_count after.tasks ≤ open_count before.tasks

pub is_open_of_lookup :
    (x : String) (a b : Scheduler) → lookup x b.tasks ≡ lookup x a.tasks → is_open x b ≡ is_open x a
unfolding is_open
is_open_of_lookup x a b e = rw (e, is_open)

pub Keeps-closed :
    (a b : Scheduler) (x : String) → Keeps a b → is_open x a ≡ false → is_open x b ≡ false
Keeps-closed a b x k closed = is_open_of_lookup x a b (k.same_closed x closed) ∙ closed

pub Keeps-refl : (s : Scheduler) → Keeps s s
Keeps-refl s = record { same_graph = refl; same_closed = λ x h. refl; count = omega arith }

pub Keeps-trans : (a b c : Scheduler) → Keeps a b → Keeps b c → Keeps a c
Keeps-trans a b c k l = record {
  same_graph = l.same_graph ∙ k.same_graph;
  same_closed = λ x h. l.same_closed x (Keeps-closed a b x k h) ∙ k.same_closed x h;
  count = omega (arith, k.count, l.count);
}

pub set_status-Keeps :
    (c : String) (st : TaskStatus) (s : Scheduler)
    → is_open c s ≡ true
    → is_terminal st ≡ true
    → Keeps s (set_status c st s)
set_status-Keeps c st s live final = record {
  same_graph = set_status-dependents c st s;
  same_closed = λ x closed. lookup-set_status c x st s (elim (Bool-cases (c == x)) [
    | inl same ↦ let e = (eq_iff c x).0 same in let bad : is_open x s ≡ true = rw e at live in cc
    | inr other ↦ other
  ]);
  count = omega (arith, open_count-set_status c st s live final);
}

pub block_children-Keeps :
    (fuel : ℕ) (cs : List String) (s : Scheduler) → Keeps s (block_children fuel cs s)
unfolding block_children
block_children-Keeps fuel [] s = Keeps-refl s
block_children-Keeps zero (c ∷ cs) s = Keeps-refl s
block_children-Keeps (suc fuel) (c ∷ cs) s =
    let inner = block_children-Keeps fuel (children c s) (set_status c TaskStatus.blocked s) in
    elim (Bool-cases (is_open c s)) [
      | inl live ↦ rw live (
          Keeps-trans s _ _
            (Keeps-trans s _ _ (set_status-Keeps c TaskStatus.blocked s live refl) inner)
            (block_children-Keeps (suc fuel) cs _))
      | inr closed ↦ rw closed (block_children-Keeps (suc fuel) cs s)
    ]
