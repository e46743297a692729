-- ===== src/Executor/Replay.antt =====
-- Checkpoints and their replay in nexus/executor/executor.py.
use pharae.Base.{
  String, true, false, some, List, [], ◌∷◌, ok, ◌≡◌, refl, sym, ◌∙◌, ap, Bool-cases, inl, inr, ◌⊎◌,
  ◌≢◌, In, both_branches, if◌then◌else◌, arith, ◌==◌, eq_iff, eq_refl,
}
use mathlib.Core.Path.{subst}
use pharae.Base.Dict.{
  Dict, lookup, has_key, insert, lookup-insert, has_key-cons, has_key-insert, has_key-insert_of,
  values,
}
use pharae.Schemas.{Task, TaskResult, TaskStatus, Value, is_completed, null}
use pharae.Kernel.Scheduler.{start, complete, is_open}
use pharae.Kernel.Scheduler.Marks.{is_open-set_status}
use pharae.Kernel.Scheduler.Blocking.{closed-set_status, finish_cases, start_cases}
use pharae.Kernel.Sessions.{session_space}
use pharae.Kernel.State.{get, put, snapshot}
use pharae.Kernel.State.Laws.{get-put}
use pharae.Kernel.Runtime.Execution.{Exec, completed_result, set_result}
use pharae.Executor.{is_task_of, replay, replay_one}
use pharae.Executor.Jobs.{Executor}
use pharae.Executor.Checkpoints.{
  checkpoint_value, completed_of, completed_outputs, entries, fields_of, field_or_empty,
  load_checkpoint, save_checkpoint, space_name,
}
use pharae.Executor.After.{After, bind-After, lift-After, After-ok, any_exec}

entries-fields_of : (d : Dict Value) → entries (fields_of d) ≡ d
entries-fields_of [] = refl
entries-fields_of ((k, v) ∷ d) = ap (λ r. (k, v) ∷ r) (entries-fields_of d)

load_checkpoint-checkpoint_value :
    (id : String) (completed session_state : Dict Value)
    → load_checkpoint (checkpoint_value id completed session_state)
      ≡ some (record { completed = completed; session_state = session_state })
unfolding load_checkpoint field_or_empty
load_checkpoint-checkpoint_value id completed session_state =
    rw (entries-fields_of completed, entries-fields_of session_state) refl

no_output : (id : String) (v : Value) → lookup id [] ≢ some v
unfolding lookup
no_output id v h = cc

-- What the comprehension collects comes from a completed result, or was there before.
completed_outputs-lookup :
    (rs : List TaskResult) (d : Dict Value) (id : String) (v : Value)
    → lookup id (completed_outputs rs d) ≡ some v
    → ((r : TaskResult) × In r rs
        × (is_completed r.status ≡ true)
        × (r.task_id ≡ id)
        × (r.output ≡ v))
      ⊎ (lookup id d ≡ some v)
unfolding completed_outputs
completed_outputs-lookup [] d id v found = inr found
completed_outputs-lookup (r ∷ rs) d id v found = elim (Bool-cases (is_completed r.status)) [
  | inr other ↦ elim (completed_outputs-lookup rs d id v (rw other at found)) [
    | inl (q, at, did, its, out) ↦ inl (q, inr at, did, its, out)
    | inr before ↦ inr before
  ]
  | inl over ↦
      elim (completed_outputs-lookup rs (insert r.task_id r.output d) id v (rw over at found)) [
        | inl (q, at, did, its, out) ↦ inl (q, inr at, did, its, out)
        | inr put_in ↦ elim (Bool-cases (r.task_id == id)) [
          | inl this ↦
              let same : r.output ≡ v = ground (arith, lookup-insert r.task_id id r.output d) in
              inl (r, inl refl, over, (eq_iff r.task_id id).0 this, same)
          | inr that ↦ inr (ground (arith, lookup-insert r.task_id id r.output d))
        ]
      ]
]

completed_outputs-keeps :
    (rs : List TaskResult) (d : Dict Value) (id : String)
    → has_key id d ≡ true
    → has_key id (completed_outputs rs d) ≡ true
unfolding completed_outputs
completed_outputs-keeps [] d id h = h
completed_outputs-keeps (r ∷ rs) d id h =
    completed_outputs-keeps rs (if is_completed r.status then insert r.task_id r.output d else d) id
      (both_branches {A = Dict Value} (λ k. has_key id k ≡ true) (is_completed r.status)
        (insert r.task_id r.output d) d (has_key-insert_of r.task_id id r.output d h) h)

completed_outputs-all :
    (rs : List TaskResult) (d : Dict Value) (q : TaskResult)
    → In q rs
    → is_completed q.status ≡ true
    → has_key q.task_id (completed_outputs rs d) ≡ true
unfolding completed_outputs
completed_outputs-all [] d q there over = absurd there
completed_outputs-all (r ∷ rs) d q there over = elim there [
  | inr later ↦ completed_outputs-all rs _ q later over
  | inl same ↦
      let first : is_completed r.status ≡ true = ap (λ k. is_completed k.status) same ∙ over in
      let this : has_key q.task_id (insert r.task_id r.output d) ≡ true =
        has_key-insert r.task_id q.task_id r.output d
        ∙ rw ((eq_iff r.task_id q.task_id).1 (ap (λ k. k.task_id) same)) refl in
      completed_outputs-keeps rs _ q.task_id (
        subst (λ b. has_key q.task_id (if b then insert r.task_id r.output d else d) ≡ true)
          (sym first) this)
]

-- Where checkpoints are on, what `resume` loads for a plan after a checkpoint was saved are the
-- session's working memory as it was then, and outputs by the ids of tasks: there is one for each
-- completed result of the run, and each of them is the output of a completed result for its task.
pub load_checkpoint-save_checkpoint :
    (e : Executor) (x : Exec)
    → e.checkpoints ≡ true
    → let results = values x.run.task_results in
      (completed : Dict Value) × (load_checkpoint
          (get space_name x.run.plan_id null (save_checkpoint e x).state)
        ≡ some (record {
          completed = completed;
          session_state = snapshot (session_space x.run.session_id) x.state;
        }))
      × ((r : TaskResult)
          → In r results
          → is_completed r.status ≡ true
          → has_key r.task_id completed ≡ true)
      × ((id : String) (v : Value)
          → lookup id completed ≡ some v
          → (r : TaskResult) × In r results
            × (is_completed r.status ≡ true)
            × (r.task_id ≡ id)
            × (r.output ≡ v))
unfolding save_checkpoint
load_checkpoint-save_checkpoint e x on =
    let completed = completed_of x.run in
    let session_state = snapshot (session_space x.run.session_id) x.state in
    let value = checkpoint_value x.run.id completed session_state in
    let read : get space_name x.run.plan_id null (put space_name x.run.plan_id value x.state)
        ≡ value =
      get-put space_name x.run.plan_id space_name x.run.plan_id value null x.state
      ∙ rw (eq_refl x.run.plan_id) refl in
    let stored : (save_checkpoint e x).state ≡ put space_name x.run.plan_id value x.state =
      rw on refl in
    (
      completed,
      ap (λ s. load_checkpoint (get space_name x.run.plan_id null s)) stored
          ∙ ap load_checkpoint read
          ∙ load_checkpoint-checkpoint_value x.run.id completed session_state,
      λ r there over. completed_outputs-all (values x.run.task_results) [] r there over,
      λ id v found. elim (completed_outputs-lookup (values x.run.task_results) [] id v found) [
        | inl from ↦ from
        | inr nowhere ↦ absurd (no_output id v nowhere)
      ],
    )

-- A task that is done: it has a completed result and is closed.
abbrev pub IsReplayed : String → Exec → Type 0
IsReplayed id x =
    ((output : Value) × (lookup id x.run.task_results ≡ some (completed_result id output)))
    × (is_open id x.scheduler ≡ false)

no_value : (k : String) → has_key {V = Value} k [] ≡ false
unfolding has_key lookup
no_value k = refl

replay_one-IsReplayed :
    (id k : String) (output : Value) (x : Exec)
    → ((k == id) ≡ true) ⊎ IsReplayed id x
    → After (IsReplayed id) (replay_one k output x)
unfolding replay_one set_result complete
replay_one-IsReplayed id k output x h =
    lift-After (IsReplayed id) x (start k x.scheduler) _ λ s began.
      lift-After (IsReplayed id) (record x { scheduler = s }) (complete k s) _
        λ t ended.
          let (live, same) = start_cases k x.scheduler began in
          let (live', same') = finish_cases k TaskStatus.completed s ended in
          (
            result (elim h [ inl this ↦ inl this | inr (found, _) ↦ inr found ]),
            elim h [
              | inl this ↦
                  subst (λ j. is_open j t ≡ false) ((eq_iff k id).0 this)
                    (rw same'
                      (is_open-set_status k k TaskStatus.completed s refl ∙ rw (eq_refl k) refl))
              | inr (_, closed) ↦ rw same' (
                  closed-set_status k id TaskStatus.completed s live'
                    (rw same (closed-set_status k id TaskStatus.running x.scheduler live closed)))
            ],
          )
  where
    result :
        ((k == id) ≡ true)
          ⊎ ((v : Value) × (lookup id x.run.task_results ≡ some (completed_result id v)))
        → (v : Value) × (lookup id (insert k (completed_result k output) x.run.task_results)
            ≡ some (completed_result id v))
    result h = elim (Bool-cases (k == id)) [
      | inl this ↦ (
        output,
        lookup-insert k id (completed_result k output) x.run.task_results
            ∙ rw (this, (eq_iff k id).0 this) refl,
      )
      | inr other ↦ elim h [
        | inl this ↦ cc
        | inr (v, found) ↦
            (v, lookup-insert k id (completed_result k output) x.run.task_results ∙ rw other found)
      ]
    ]

replay-keeps :
    (tasks : List Task) (id : String) (d : Dict Value) (x : Exec)
    → IsReplayed id x
    → After (IsReplayed id) (replay tasks d x)
unfolding replay
replay-keeps tasks id [] x h = h
replay-keeps tasks id ((k, output) ∷ d) x h = elim (Bool-cases (is_task_of tasks k)) [
  | inl ours ↦
      rw (ours, After)
        (bind-After (IsReplayed id) (IsReplayed id) (replay_one k output x) (replay tasks d)
          (replay_one-IsReplayed id k output x (inr h)) (replay-keeps tasks id d))
  | inr foreign ↦ rw (foreign, After) (replay-keeps tasks id d x h)
]

replay-all :
    (tasks : List Task) (id : String) (d : Dict Value) (x : Exec)
    → is_task_of tasks id ≡ true
    → has_key id d ≡ true
    → After (IsReplayed id) (replay tasks d x)
unfolding replay
replay-all tasks id [] x ours h = cc (no_value id)
replay-all tasks id ((k, output) ∷ d) x ours h = elim (Bool-cases (k == id)) [
  | inl this ↦
      let known : is_task_of tasks k ≡ true =
        subst (λ j. is_task_of tasks j ≡ true) (sym ((eq_iff k id).0 this)) ours in
      rw (known, After)
        (bind-After (IsReplayed id) (IsReplayed id) (replay_one k output x) (replay tasks d)
          (replay_one-IsReplayed id k output x (inl this)) (replay-keeps tasks id d))
  | inr other ↦
      let later : has_key id d ≡ true = rw other at (sym (has_key-cons id k output d) ∙ h) in
      elim (Bool-cases (is_task_of tasks k)) [
        | inl known ↦
            rw (known, After)
              (bind-After (λ y. Unit {0}) (IsReplayed id) (replay_one k output x) (replay tasks d)
                (any_exec (replay_one k output x)) (λ y _. replay-all tasks id d y ours later))
        | inr foreign ↦ rw (foreign, After) (replay-all tasks id d x ours later)
      ]
]

-- A replay that succeeds has a completed result for each task of the plan that the checkpoint has
-- an output of, and leaves none of them open.
pub replay-IsReplayed :
    (tasks : List Task) (d : Dict Value) (x : Exec) {y : Exec}
    → replay tasks d x ≡ ok y
    → (id : String) → is_task_of tasks id ≡ true
    → has_key id d ≡ true
    → IsReplayed id y
replay-IsReplayed tasks d x e id known there =
    After-ok (IsReplayed id) (replay tasks d x) (replay-all tasks id d x known there) e
