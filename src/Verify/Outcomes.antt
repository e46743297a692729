-- ===== src/Verify/Outcomes.antt =====
-- The raising checks of a run in nexus/verify/engine.py.
use pharae.Base.{
  String, Bool, true, false, ◌&&◌, some, List, [], ◌∷◌, ◌++◌, all_of, Result, ok, >>=-eq-ok, In,
  In-append, ◌≡◌, refl, sym, ap, ◌∙◌, ◌⊎◌, inl, inr,
}
use mathlib.Core.Path.{subst}
use pharae.Base.Dict.{get_or, lookup}
use pharae.Schemas.{Artifact, Evidence, Plan, Run, Task, TaskResult, flag, list}
use pharae.Verify.{evidence_of, verify}
use pharae.Kernel.Runtime.Execution.{is_run_completed}
use pharae.Verify.Checks.{
  Check, CheckEntry, VerificationEngine, answer_entry, apply_all, apply_check, check_task,
  check_tasks, check_value, completed_entry, entry, raises, run_checks,
}
use pharae.Verify.Scores.{Foreign}
use pharae.Verify.Verdicts.{verify-cases}

ok_eq : {E A : Type 0} {m : Result E A} {a b : A} → m ≡ ok a → m ≡ ok b → a ≡ b
ok_eq one two = cc

-- The check's entry is among those of the task.
apply_all-In :
    (cs : List Check) (r : TaskResult) (t : Task) {es : List CheckEntry}
    → apply_all cs r t ≡ ok es
    → (c : Check) (exception : String) → In c cs
    → c.run r t ≡ raises exception
    → In (entry c.name t.id false exception) es
unfolding apply_all apply_check answer_entry
apply_all-In [] r t e c x there raised = absurd there
apply_all-In (d ∷ cs) r t e c x there raised =
    let (first, one, rest) = >>=-eq-ok (apply_check d r t) _ e in
    let (others, two, end) = >>=-eq-ok (apply_all cs r t) (λ rest. ok (first ∷ rest)) rest in
    let split = subst (In (entry c.name t.id false x)) (ok_eq refl end) in
    elim there [
      | inl same ↦ split (
          inl (
            sym (
              ok_eq refl (
                sym (ap (answer_entry c t) raised)
                ∙ ap (λ k. apply_check k r t) (sym same)
                ∙ one))))
      | inr later ↦ split (inr (apply_all-In cs r t two c x later raised))
    ]

check_tasks-In :
    (run : Run) (ts : List Task) (v : VerificationEngine) {es : List CheckEntry}
    → check_tasks run ts v ≡ ok es
    → (t : Task) (r : TaskResult) (c : Check) (exception : String) → In t ts
    → lookup t.id run.task_results ≡ some r
    → In c (get_or t.capability_type [] v.checks)
    → c.run r t ≡ raises exception
    → In (entry c.name t.id false exception) es
unfolding check_tasks check_task
check_tasks-In run [] v e t r c x there found kept raised = absurd there
check_tasks-In run (d ∷ ts) v {es} e t r c x there found kept raised =
    let (first, one, rest) = >>=-eq-ok (check_task (lookup d.id run.task_results) d v) _ e in
    let (others, two, end) = >>=-eq-ok (check_tasks run ts v) (λ rest. ok (first ++ rest)) rest in
    let target = entry c.name t.id false x in
    let split = λ (h : In target first ⊎ In target others).
      subst (In target) (ok_eq refl end) ((In-append target first others).1 h) in
    elim there [
      | inl same ↦
          let here : apply_all (get_or t.capability_type [] v.checks) r t ≡ ok first =
            ap (λ o. check_task o t v) (sym found)
            ∙ ap (λ k. check_task (lookup k.id run.task_results) k v) (sym same)
            ∙ one in
          split (inl (apply_all-In (get_or t.capability_type [] v.checks) r t here c x kept raised))
      | inr later ↦ split (inr (check_tasks-In run ts v two t r c x later found kept raised))
    ]

and_false : (a : Bool) {b : Bool} → b ≡ false → (a && b) ≡ false
and_false true off = off
and_false false off = refl

all_of-false :
    (cs : List CheckEntry) (c : CheckEntry)
    → In c cs
    → c.passed ≡ false
    → all_of (λ k. k.passed) cs ≡ false
all_of-false [] c there off = absurd there
all_of-false (d ∷ cs) c there off = elim there [
  | inl same ↦ let first : d.passed ≡ false = ap (λ k. k.passed) same ∙ off in rw first refl
  | inr later ↦ and_false d.passed (all_of-false cs c later off)
]

-- A check that raises on the result of a planned task fails, with the exception as its detail: it
-- is in the list of checks from which the evidence is made, and the evidence denies the success,
-- whatever the other checks say.
pub verify-raises :
    (f : Foreign) (run : Run) (plan : Plan) (artifacts : List Artifact) (v : VerificationEngine)
    {ev : Evidence} {v' : VerificationEngine}
    → verify f run (some plan) artifacts v ≡ ok (ev, v')
    → (t : Task) (r : TaskResult) (c : Check) (exception : String) → In t plan.tasks
    → lookup t.id run.task_results ≡ some r
    → In c (get_or t.capability_type [] v.checks)
    → c.run r t ≡ raises exception
    → (checks : List CheckEntry) × (lookup "checks" ev.test_results
        ≡ some (list (check_value checks)))
      × In (entry c.name t.id false exception) checks
      × (lookup "success" ev.test_results ≡ some (flag false))
unfolding run_checks evidence_of lookup
verify-raises f run plan artifacts v {ev} e t r c x there found kept raised =
    let (checks, ran, same) = verify-cases f run (some plan) artifacts v e in
    let (tail, made, end) =
      >>=-eq-ok (check_tasks run plan.tasks v) (λ cs. ok (completed_entry run ∷ cs)) ran in
    let at = check_tasks-In run plan.tasks v made t r c x there found kept raised in
    let here = subst (In (entry c.name t.id false x)) (ok_eq refl end) (inr at) in
    let failed = all_of-false checks (entry c.name t.id false x) here refl in
    let off = and_false (is_run_completed run.status) failed in
    (
      checks,
      ap (λ k. lookup "checks" k.test_results) same,
      here,
      ap (λ k. lookup "success" k.test_results) same ∙ ap (λ b. some (flag b)) off,
    )
