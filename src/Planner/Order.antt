-- ===== src/Planner/Order.antt =====
-- The order of the tasks in the plans of nexus/planner/planner.py.
use pharae.Base.{
  ℕ, ◌+◌, ◌<◌, String, Bool, true, false, ◌&&◌, not, Option, none, some, List, [], ◌∷◌, ◌++◌, ok,
  err, is_empty, ◌≡◌, ◌≢◌, refl, sym, ap, arith, Bool-cases, inl, inr, ◌⊎◌, In, All, All-In,
  All-append, In-append, ◌==◌, eq_iff,
}
use pharae.Base.Text.{decimal}
use pharae.Base.Text.Numbers.{decimal_inj}
use text.Mathlib.TextLemmas.{append_cancel_left}
use mathlib.Core.Path.{subst}
use text.Mathlib.Text.{starts_with}
use text.Mathlib.TextPositions.{starts_with-append}
use pharae.Schemas.{Intent, Task, Plan, task_ids}
use pharae.Planner.{planned, created, publish_plan, make_plan}
use pharae.Planner.Tasks.{
  Tools, Planner, no_goals, goal_id, gather_id, goal_tasks, verify_task, plan_tasks, want_gather,
  depends_on_previous,
}

-- The ids are new, and each task depends on tasks that stand before it.
abbrev pub Ordered : List String → List Task → Type 0
Ordered seen [] = Unit
Ordered seen (t ∷ ts) =
    (¬ In t.id seen) × All (λ d. In d seen) t.depends_on × Ordered (seen ++ t.id ∷ []) ts

-- The ids in front of the goal `index`.
abbrev Earlier : ℕ → String → Type 0
Earlier index id = (id ≡ gather_id) ⊎ ((j : ℕ) × (j < index) × (id ≡ goal_id j))

goal_id_inj : (i j : ℕ) → goal_id i ≡ goal_id j → i ≡ j
unfolding goal_id
goal_id_inj i j e = decimal_inj i j (append_cancel_left "goal-" (decimal i) (decimal j) e)

goal_id-prefix : (i : ℕ) {id : String} → goal_id i ≡ id → starts_with id "goal-" ≡ true
unfolding goal_id
goal_id-prefix i e =
    subst (λ s. starts_with s "goal-" ≡ true) e (starts_with-append "goal-" (decimal i))

goal_id-gather : (i : ℕ) → goal_id i ≢ gather_id
goal_id-gather i e = let clash : false ≡ true = goal_id-prefix i e in cc

goal_id-verify : (i : ℕ) → goal_id i ≢ "verify"
goal_id-verify i e = let clash : false ≡ true = goal_id-prefix i e in cc

Earlier-fresh : (index : ℕ) → ¬ Earlier index (goal_id index)
Earlier-fresh index m = elim m [
  | inl e ↦ goal_id-gather index e
  | inr (j, low, e) ↦ let same = goal_id_inj index j e in omega arith
]

Earlier-verify : (index : ℕ) → ¬ Earlier index "verify"
Earlier-verify index m = elim m [
  | inl e ↦ let same : ("verify" == gather_id) ≡ true = (eq_iff "verify" gather_id).1 e in cc
  | inr (j, low, e) ↦ goal_id-verify j (sym e)
]

Earlier-All :
    (index : ℕ) (seen : List String)
    → All (Earlier index) seen
    → All (Earlier (index + 1)) (seen ++ goal_id index ∷ [])
Earlier-All index [] h = (inr (index, omega arith, refl), tt)
Earlier-All index (id ∷ seen) h = (
  elim h.0 [ inl e ↦ inl e | inr (j, low, e) ↦ inr (j, omega arith, e) ],
  Earlier-All index seen h.1,
)

append_one : (front rest : List String) (x : String) → (front ++ x ∷ []) ++ rest ≡ front ++ x ∷ rest
append_one [] rest x = refl
append_one (y ∷ front) rest x = ap (λ l. y ∷ l) (append_one front rest x)

seen_grows :
    (front seen : List String) (x : String)
    → All (λ d. In d seen) front
    → All (λ d. In d (seen ++ x ∷ [])) front
seen_grows [] seen x h = tt
seen_grows (d ∷ front) seen x h =
    ((In-append d seen (x ∷ [])).1 (inl h.0), seen_grows front seen x h.1)

-- The tasks of the goals that are left, and the one that verifies those in front of them and them.
goal_tasks-Ordered :
    (tools : Tools) (intent : Intent) (index : ℕ) (previous : Option String)
    (goals seen front : List String)
    → All (Earlier index) seen
    → All (λ d. In d seen) (depends_on_previous previous)
    → All (λ d. In d seen) front
    → let tasks = goal_tasks tools intent index previous goals in
      Ordered seen (tasks ++ verify_task intent (front ++ task_ids tasks) ∷ [])
unfolding goal_tasks
goal_tasks-Ordered tools intent index previous [] seen front h before known = (
  λ m. Earlier-verify index (All-In (Earlier index) "verify" seen h m),
  All-append (λ d. In d seen) front [] known tt,
  tt,
)
goal_tasks-Ordered tools intent index previous (goal ∷ goals) seen front h before known =
    let here = goal_id index in
    let next = seen ++ here ∷ [] in
    let tasks = goal_tasks tools intent (index + 1) (some here) goals in
    let newest : In here next = (In-append here seen (here ∷ [])).1 (inr (inl refl)) in
    (
      λ m. Earlier-fresh index (All-In (Earlier index) here seen h m),
      before,
      subst (λ ids. Ordered next (tasks ++ verify_task intent ids ∷ []))
          (append_one front (task_ids tasks) here)
          (goal_tasks-Ordered tools intent (index + 1) (some here) goals next (front ++ here ∷ [])
            (Earlier-All index seen h) (newest, tt)
            (All-append (λ d. In d next) front (here ∷ []) (seen_grows front seen here known)
              (newest, tt))),
    )

plan_tasks-Ordered :
    (tools : Tools) (intent : Intent) (budget : Option Bool)
    → Ordered [] (plan_tasks tools intent budget)
unfolding plan_tasks
plan_tasks-Ordered tools intent budget =
    elim (Bool-cases (not (is_empty intent.context_refs) && want_gather budget)) [
      | inl wanted ↦ rw wanted (
        λ m. m,
        tt,
        goal_tasks-Ordered tools intent 1 (some gather_id) intent.goals (gather_id ∷ []) []
            (inl refl, tt) (inl refl, tt) tt,
      )
      | inr unwanted ↦
          rw unwanted (goal_tasks-Ordered tools intent 1 none intent.goals [] [] tt tt tt)
    ]

-- Whatever is planned is an ordered graph: its ids are distinct, and each task depends on tasks
-- before it only. A plan is made exactly if the intent has a goal.
pub make_plan-Ordered :
    (tools : Tools) (intent : Intent) (budget : Option Bool) (p : Planner)
    → (is_empty intent.goals ≡ true
        → make_plan tools intent budget p ≡ err (no_goals intent.id intent.open_questions))
      × (is_empty intent.goals ≡ false
          → (plan : Plan) × (p' : Planner) × (make_plan tools intent budget p ≡ ok (plan, p'))
            × Ordered [] plan.tasks)
unfolding make_plan
make_plan-Ordered tools intent budget p = (
  λ none_given. ground arith,
  λ some_given. (
    planned tools intent budget p,
    publish_plan "plan.created" (created tools intent budget p) p,
    ground arith,
    plan_tasks-Ordered tools intent budget,
  ),
)
