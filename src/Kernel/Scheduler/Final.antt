-- ===== src/Kernel/Scheduler/Final.antt =====
-- Terminal statuses in nexus/kernel/scheduler.py, over sequences of calls.
use pharae.Base.{
  String, true, false, List, [], ◌∷◌, arith, All, ◌≡◌, refl, ◌∙◌, inl, inr, Bool-cases, eq_iff,
  ◌==◌,
}
use pharae.Base.Dict.{lookup}
use pharae.Schemas.{TaskStatus}
use pharae.Kernel.Scheduler.{Scheduler, is_open, set_status, complete}
use pharae.Kernel.Scheduler.Marks.{lookup-set_status, is_open_of_lookup}
use pharae.Kernel.Scheduler.Blocking.{
  Reach, Step, cancel_cases, cancels, completes, fail_blocks, fails, finish_cases, here, next,
  start_cases, started,
}
use pharae.Kernel.Scheduler.Ready.{Completed}

-- The tasks in a terminal status stay as they are.
abbrev pub AreFinal : Scheduler → Scheduler → Type 0
AreFinal s t = (x : String) → is_open x s ≡ false → lookup x t.tasks ≡ lookup x s.tasks

set_status-AreFinal :
    (id : String) (st : TaskStatus) (s : Scheduler)
    → is_open id s ≡ true
    → AreFinal s (set_status id st s)
set_status-AreFinal id st s live x closed =
    lookup-set_status id x st s (elim (Bool-cases (id == x)) [
      | inl same ↦ let e = (eq_iff id x).0 same in let bad : is_open x s ≡ true = rw e at live in cc
      | inr other ↦ other
    ])

Step-AreFinal : {s t : Scheduler} → Step s t → AreFinal s t
unfolding complete
Step-AreFinal {s} {t} (started k e) =
    let (live, same) = start_cases k s e in
    rw same (set_status-AreFinal k TaskStatus.running s live)
Step-AreFinal {s} {t} (completes k e) =
    let (live, same) = finish_cases k TaskStatus.completed s e in
    rw same (set_status-AreFinal k TaskStatus.completed s live)
Step-AreFinal {s} {t} (fails k e) = let (_, _, _, kept, _) = fail_blocks k s e in kept
Step-AreFinal {s} {t} (cancels k e) = elim (cancel_cases k s e) [
  | inl same ↦ rw same (λ x closed. refl)
  | inr (live, same) ↦ rw same (set_status-AreFinal k TaskStatus.cancelled s live)
]

pub Reach-AreFinal : {s t : Scheduler} → Reach s t → AreFinal s t
Reach-AreFinal here x closed = refl
Reach-AreFinal {s} {t} (next {t = m} r step) x closed =
    let before = Reach-AreFinal r x closed in
    Step-AreFinal step x (is_open_of_lookup x s m before ∙ closed) ∙ before

-- What is completed stays so.
Reach-Completed : {s t : Scheduler} → Reach s t → (d : String) → Completed s d → Completed t d
unfolding is_open
Reach-Completed {s} {t} r d (task, found, over) =
    let closed : is_open d s ≡ false = ground arith in
    (task, Reach-AreFinal r d closed ∙ found, over)

pub Reach-All :
    {s t : Scheduler} → Reach s t → (ds : List String) → All (Completed s) ds → All (Completed t) ds
Reach-All r [] h = tt
Reach-All r (d ∷ ds) h = (Reach-Completed r d h.0, Reach-All r ds h.1)
