-- ===== src/Planner/Replan.antt =====
-- The successor plans of nexus/planner/planner.py.
use pharae.Base.{
  String, Bool, true, false, not, none, List, [], ◌∷◌, ◌++◌, ok, err, is_empty, select, map, elem,
  elem_iff, ◌≡◌, refl, sym, ap, ◌∙◌, ◌↔◌, arith, Bool-cases, inl, inr, In, All, All-In, All-of_In,
  In-select,
}
use mathlib.Core.Path.{subst}
use pharae.Schemas.{Evidence, Task, TaskStatus, Plan, task_ids}
use pharae.Planner.{
  reset_task, kept_tasks, replan_tasks, successor_plan, revised, publish_plan, replan,
}
use pharae.Planner.Tasks.{Tools, Planner, nothing_to_replan}
use pharae.Planner.Order.{Ordered}

abbrev left_over : List String → List String → List String
left_over completed ids = select (λ id. not (elem id completed)) ids

select-append :
    {A : Type 0} (p : A → Bool) (xs ys : List A) → select p (xs ++ ys) ≡ select p xs ++ select p ys
select-append p [] ys = refl
select-append p (x ∷ xs) ys = ground (arith, select-append p xs ys)

-- A dependency that is among the kept ids was not completed.
kept_open :
    (completed : List String) (d : String) (tasks : List Task)
    → In d (task_ids (kept_tasks completed tasks))
    → elem d completed ≡ false
kept_open completed d [] m = absurd m
kept_open completed d (t ∷ tasks) m = elim (Bool-cases (elem t.id completed)) [
  | inl dropped ↦ kept_open completed d tasks (rw dropped at m)
  | inr kept ↦
      elim (let m' : In d (t.id ∷ task_ids (kept_tasks completed tasks)) = rw kept at m in m') [
        | inl e ↦ rw e at kept
        | inr later ↦ kept_open completed d tasks later
      ]
]

abbrev OpenIds : List String → List String → Type 0
OpenIds completed ids = (d : String) → In d ids → elem d completed ≡ false

released_known :
    (completed ids seen deps : List String)
    → OpenIds completed ids
    → All (λ d. In d seen) deps
    → All (λ d. In d (left_over completed seen)) (select (λ d. elem d ids) deps)
released_known completed ids seen deps good known =
    All-of_In (λ d. In d (left_over completed seen)) (select (λ d. elem d ids) deps)
      (λ d m.
        let (at, kept) = (In-select d (λ x. elem x ids) deps).0 m in
        let here = All-In (λ x. In x seen) d deps known at in
        let open_ = good d ((elem_iff d ids).0 kept) in
        (In-select d (λ x. not (elem x completed)) seen).1 (here, ground arith))

append_nil : (xs : List String) → xs ++ [] ≡ xs
append_nil [] = refl
append_nil (x ∷ xs) = ap (λ l. x ∷ l) (append_nil xs)

kept-Ordered :
    (completed ids seen : List String) (tasks : List Task)
    → OpenIds completed ids
    → Ordered seen tasks
    → Ordered (left_over completed seen) (map (reset_task ids) (kept_tasks completed tasks))
kept-Ordered completed ids seen [] good h = tt
kept-Ordered completed ids seen (t ∷ tasks) good (fresh, deps, later) =
    let rest = kept-Ordered completed ids (seen ++ t.id ∷ []) tasks good later in
    let split = select-append (λ id. not (elem id completed)) seen (t.id ∷ []) in
    let rest' : Ordered (left_over completed seen ++ left_over completed (t.id ∷ []))
        (map (reset_task ids) (kept_tasks completed tasks)) =
      subst (λ l. Ordered l (map (reset_task ids) (kept_tasks completed tasks))) split rest in
    elim (Bool-cases (elem t.id completed)) [
      | inl dropped ↦ rw dropped (
          subst (λ l. Ordered l (map (reset_task ids) (kept_tasks completed tasks)))
            (append_nil (left_over completed seen)) (rw dropped at rest'))
      | inr kept ↦ rw kept (
        λ m. fresh ((In-select t.id (λ id. not (elem id completed)) seen).0 m).0,
        released_known completed ids seen t.depends_on good deps,
        rw kept at rest',
      )
    ]

reset-ids :
    (ids : List String) (tasks : List Task) → task_ids (map (reset_task ids) tasks) ≡ task_ids tasks
reset-ids ids [] = refl
reset-ids ids (t ∷ tasks) = ap (λ l. t.id ∷ l) (reset-ids ids tasks)

kept_ids :
    (completed : List String) (tasks : List Task)
    → task_ids (kept_tasks completed tasks) ≡ left_over completed (task_ids tasks)
kept_ids completed [] = refl
kept_ids completed (t ∷ tasks) = elim (Bool-cases (elem t.id completed)) [
  | inl dropped ↦ rw dropped (kept_ids completed tasks)
  | inr kept ↦ rw kept (ap (λ l. t.id ∷ l) (kept_ids completed tasks))
]

ids-is_empty : (tasks : List Task) → is_empty (task_ids tasks) ≡ is_empty tasks
ids-is_empty [] = refl
ids-is_empty (t ∷ tasks) = refl

-- A task of the old plan, pending and unbound, that waits for those of its old dependencies that
-- are in the new plan, and that is the old one but for this.
abbrev pub IsReset : List Task → List String → Task → Type 0
IsReset old ids t =
    (before : Task) × In before old
    × (t ≡ record before {
      depends_on = t.depends_on;
      status = TaskStatus.pending;
      capability_binding = none;
    })
    × ((d : String) → In d t.depends_on ↔ (In d before.depends_on × In d ids))

map-IsReset :
    (old : List Task) (ids : List String) (tasks : List Task)
    → ((t : Task) → In t tasks → In t old)
    → All (IsReset old ids) (map (reset_task ids) tasks)
map-IsReset old ids [] among = tt
map-IsReset old ids (t ∷ tasks) among = (
  (
    t,
    among t (inl refl),
    refl,
    λ d. (
      λ m.
          let (at, kept) = (In-select d (λ x. elem x ids) t.depends_on).0 m in
          (at, (elem_iff d ids).0 kept),
      λ (at, kept). (In-select d (λ x. elem x ids) t.depends_on).1 (at, (elem_iff d ids).1 kept),
    ),
  ),
  map-IsReset old ids tasks (λ u m. among u (inr m)),
)

-- There is a successor exactly if a task was not completed. The successor of an ordered plan holds
-- the ids that were not completed, in their order. Its tasks are those of the old plan, pending
-- and unbound, and each waits for those of its old dependencies that were not completed. It is an
-- ordered plan again.
pub replan-Ordered :
    (tools : Tools) (plan : Plan) (evidence : Evidence) (completed : List String) (p : Planner)
    → Ordered [] plan.tasks
    → let open_ids = select (λ id. not (elem id completed)) (task_ids plan.tasks) in
      (is_empty open_ids ≡ true
        → replan tools plan evidence completed p ≡ err (nothing_to_replan plan.id))
      × (is_empty open_ids ≡ false
          → (next : Plan) × (p' : Planner) × (replan tools plan evidence completed p
              ≡ ok (next, p'))
            × Ordered [] next.tasks
            × (task_ids next.tasks ≡ open_ids)
            × All (IsReset plan.tasks open_ids) next.tasks)
unfolding replan replan_tasks
replan-Ordered tools plan evidence completed p h =
    let kept = kept_tasks completed plan.tasks in
    let ids = task_ids kept in
    let same = kept_ids completed plan.tasks in
    let sizes : is_empty kept ≡ is_empty (left_over completed (task_ids plan.tasks)) =
      sym (ids-is_empty kept) ∙ ap is_empty same in
    (
      λ all_done. let none_kept = sizes ∙ all_done in ground arith,
      λ some_left.
          let some_kept = sizes ∙ some_left in
          (
            successor_plan tools plan evidence completed (p.clock p.ticks),
            publish_plan "plan.revised" (revised tools plan evidence completed p) p,
            ground arith,
            kept-Ordered completed ids [] plan.tasks (λ d m. kept_open completed d plan.tasks m) h,
            reset-ids ids kept ∙ same,
            subst (λ l. All (IsReset plan.tasks l) (map (reset_task ids) kept)) same
                (map-IsReset plan.tasks ids kept
                  (λ t m. ((In-select t (λ u. not (elem u.id completed)) plan.tasks).0 m).0)),
          ),
    )
