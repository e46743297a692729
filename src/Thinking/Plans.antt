-- ===== src/Thinking/Plans.antt =====
-- The planner under a budget of nexus/thinking/budget.py.
use pharae.Base.{
  String, true, ◌&&◌, not, Option, none, some, List, [], ◌∷◌, length, is_empty, ltb, eqb, arith,
  ◌≡◌, refl, Bool-cases, inl, inr,
}
use pharae.Schemas.{Intent}
use pharae.Kernel.Events.{EventBus}
use pharae.Planner.{make_plan}
use pharae.Planner.Tasks.{Tools, Planner, plan_tasks}
use pharae.Thinking.{Hints, assess, budget_of, research_signal, is_reflex}

some_refs : (refs : List String) → ltb 0 (length refs) ≡ not (is_empty refs)
some_refs [] = refl
some_refs (r ∷ refs) = ground arith

no_refs : (refs : List String) → eqb (length refs) 0 ≡ is_empty refs
no_refs [] = refl
no_refs (r ∷ refs) = ground arith

-- Where there is context to gather, the budget says so.
budget_of_gathers :
    (hints : Hints) (intent : Intent)
    → (not (is_empty intent.context_refs) && (budget_of hints intent).gather_context)
      ≡ (not (is_empty intent.context_refs) && true)
unfolding budget_of
budget_of_gathers hints intent =
    let some_ = some_refs intent.context_refs in
    let none_ = no_refs intent.context_refs in
    elim (Bool-cases (research_signal hints intent)) [
      | inl signal ↦ rw signal (ground arith)
      | inr calm ↦ elim (Bool-cases (is_reflex hints intent)) [
        | inl quick ↦ rw (calm, quick) (ground arith)
        | inr slow ↦ rw (calm, slow) (ground arith)
      ]
    ]

plan_tasks-budget_of :
    (tools : Tools) (hints : Hints) (intent : Intent)
    → plan_tasks tools intent (some (budget_of hints intent).gather_context)
      ≡ plan_tasks tools intent none
unfolding plan_tasks
plan_tasks-budget_of tools hints intent = rw (budget_of_gathers hints intent) refl

-- A budget that was assessed for an intent never changes its plan: the planner gathers context with
-- it exactly if it does without one.
pub make_plan-assess :
    (tools : Tools) (hints : Hints) (intent : Intent) (bus : Option EventBus) (p : Planner)
    → make_plan tools intent (some (assess hints intent bus).0.gather_context) p
      ≡ make_plan tools intent none p
unfolding make_plan assess
make_plan-assess tools hints intent bus p = rw (plan_tasks-budget_of tools hints intent) refl
