-- ===== src/Kernel/Runtime/Rounds.antt =====
-- The open tasks before and after a round of `Runtime.execute`.
use pharae.Base.{
  ℕ, ◌≤◌, ◌<◌, String, false, Option, none, some, List, [], ◌∷◌, is_empty, Result, ok, err,
  >>=-eq-ok, Result-cases, arith, ◌≡◌, inl, inr,
}
use pharae.Base.Dict.{Dict}
use pharae.Schemas.{Task, Value}
use pharae.Kernel.Scheduler.{SchedulerError, start, complete, fail}
use pharae.Kernel.Scheduler.Marks.{open_count}
use pharae.Kernel.Scheduler.Progress.{start-open_count, complete-open_count, fail-open_count}
use pharae.Kernel.Sessions.{Session}
use pharae.Kernel.Runtime.Context.{Handler}
use pharae.Kernel.Runtime.Execution.{
  Exec, lift, settle_failed, settle_completed, settle_reply, run_handler, execute_task,
  execute_batch, resolved, started, after_start, resolve_handler, no_handler,
}

abbrev pub tasks_open : Exec → ℕ
tasks_open x = open_count x.scheduler.tasks

lift-eq-ok :
    {A : Type 0} (x : Exec) (r : Result SchedulerError A) {a : A} → lift x r ≡ ok a → r ≡ ok a
lift-eq-ok x (ok a) e = cc
lift-eq-ok x (err f) e = cc

settle_failed-fewer :
    (t : Task) (error : String) (x : Exec) {x' : Exec}
    → settle_failed t error x ≡ ok x'
    → tasks_open x' < tasks_open x
unfolding settle_failed
settle_failed-fewer t error x e = elim (Result-cases (fail t.id x.scheduler)) [
  | inl (s, done_) ↦ ground (arith, fail-open_count t.id x.scheduler done_)
  | inr (f, refused) ↦ ground arith
]

settle_completed-fewer :
    (t : Task) (output : Value) (x : Exec) {x' : Exec}
    → settle_completed t output x ≡ ok x'
    → tasks_open x' < tasks_open x
unfolding settle_completed
settle_completed-fewer t output x e = elim (Result-cases (complete t.id x.scheduler)) [
  | inl (s, done_) ↦ ground (arith, complete-open_count t.id x.scheduler done_)
  | inr (f, refused) ↦ ground arith
]

settle_reply-fewer :
    (t : Task) (reply : Result String Value) (x : Exec) {x' : Exec}
    → settle_reply t reply x ≡ ok x'
    → tasks_open x' < tasks_open x
unfolding settle_reply
settle_reply-fewer t (ok output) x e = settle_completed-fewer t output x e
settle_reply-fewer t (err raised) x e = settle_failed-fewer t raised x e

run_handler-fewer :
    (session : Session) (t : Task) (h : Handler) (x : Exec) {x' : Exec}
    → run_handler session t h x ≡ ok x'
    → tasks_open x' < tasks_open x
unfolding run_handler
run_handler-fewer session t h x e = settle_reply-fewer t _ _ e

module _ (handlers : Dict Handler) (session : Session) where
  resolved-fewer :
      (t : Task) (found : Option Handler) (x : Exec) {x' : Exec}
      → resolved session t found x ≡ ok x'
      → tasks_open x' < tasks_open x
  unfolding resolved
  resolved-fewer t none x e = settle_failed-fewer t (no_handler t) x e
  resolved-fewer t (some h) x e = run_handler-fewer session t h x e

  execute_task-fewer :
      (t : Task) (x : Exec) {x' : Exec}
      → execute_task handlers session t x ≡ ok x'
      → tasks_open x' < tasks_open x
  unfolding execute_task
  execute_task-fewer t x e =
      let (s, began, rest) =
        >>=-eq-ok (lift x (start t.id x.scheduler)) (after_start handlers session t x) e in
      let same = start-open_count t.id x.scheduler (lift-eq-ok x _ began) in
      omega
        (arith, same, resolved-fewer t (resolve_handler handlers t) (started session t x s) rest)

  execute_batch-le :
      (ts : List Task) (x : Exec) {x' : Exec}
      → execute_batch handlers session ts x ≡ ok x'
      → tasks_open x' ≤ tasks_open x
  unfolding execute_batch
  execute_batch-le [] x e = ground arith
  execute_batch-le (t ∷ ts) x e =
      let (mid, first, rest) = >>=-eq-ok (execute_task handlers session t x) _ e in
      omega (arith, execute_task-fewer t x first, execute_batch-le ts mid rest)

  pub execute_batch-fewer :
      (ts : List Task) (x : Exec) {x' : Exec}
      → is_empty ts ≡ false
      → execute_batch handlers session ts x ≡ ok x'
      → tasks_open x' < tasks_open x
  unfolding execute_batch
  execute_batch-fewer [] x some_task e = cc
  execute_batch-fewer (t ∷ ts) x some_task e =
      let (mid, first, rest) = >>=-eq-ok (execute_task handlers session t x) _ e in
      omega (arith, execute_task-fewer t x first, execute_batch-le ts mid rest)
