-- ===== src/Verify/Verdicts.antt =====
-- The evidence of nexus/verify/engine.py.
use pharae.Base.{
  String, true, false, not, Option, none, some, List, is_empty, ok, >>=-eq-ok, In, In-select, ◌≡◌,
  refl, sym, ap, ◌↔◌, inl, inr, Bool-cases,
}
use mathlib.Core.Path.{subst}
use pharae.Base.Dict.{has_key}
use pharae.Schemas.{Artifact, Evidence, Plan, Run, float_zero, task_ids}
use pharae.Kernel.Events.{EventBus}
use pharae.Verify.{
  check_trace, evidence_of, inconsistent, is_terminal_run, missing_results, not_terminal, plan_of,
  problems_in, reasons_of, verify, without_results,
}
use pharae.Verify.Checks.{CheckEntry, VerificationEngine, run_checks}
use pharae.Verify.Scores.{Foreign}
use pharae.Verify.Consistency.{IsTraced, empty-In, no_one, three_tests, trace_problems_iff}

-- Every task of the plan has a result.
abbrev pub HasResults : Run → Option Plan → Type 0
HasResults run none = Unit
HasResults run (some plan) =
    (id : String) → In id (task_ids plan.tasks) → has_key id run.task_results ≡ true

abbrev pub IsConsistent : Foreign → Run → Option EventBus → Type 0
IsConsistent f run none = Unit
IsConsistent f run (some bus) = IsTraced f.number_le run.id bus.log

-- What the engine calls verifiable: the run is over, every planned task has a result, and the
-- bus's log, if there is one, agrees.
abbrev pub IsVerifiable : Foreign → Run → Option Plan → Option EventBus → Type 0
IsVerifiable f run plan bus =
    (is_terminal_run run.status ≡ true) × HasResults run plan × IsConsistent f run bus

missing_iff :
    (run : Run) (plan : Option Plan)
    → (is_empty (missing_results run plan) ≡ true) ↔ HasResults run plan
missing_iff run none = (λ h. tt, λ h. refl)
missing_iff run (some plan) = (
  λ none_left id there. elim (Bool-cases (has_key id run.task_results)) [
    | inl found ↦ found
    | inr missing ↦ absurd (
        empty-In id (missing_results run (some plan)) none_left (
          (In-select id (λ j. not (has_key j run.task_results)) (task_ids plan.tasks)).1
            (there, ap not missing)))
  ],
  λ all. no_one (missing_results run (some plan)) (λ id there.
      let (at, missing) =
        (In-select id (λ j. not (has_key j run.task_results)) (task_ids plan.tasks)).0 there in
      let bad : not true ≡ true = subst (λ b. not b ≡ true) (all id at) missing in cc),
)

problems_iff :
    (f : Foreign) (run : Run) (bus : Option EventBus)
    → (is_empty (problems_in f run bus) ≡ true) ↔ IsConsistent f run bus
problems_iff f run none = (λ h. tt, λ h. refl)
problems_iff f run (some bus) = trace_problems_iff f.number_le run.id bus.log

reasons_iff :
    (f : Foreign) (run : Run) (plan : Option Plan) (bus : Option EventBus)
    → (is_empty (reasons_of f run plan bus) ≡ true) ↔ IsVerifiable f run plan bus
unfolding reasons_of
reasons_iff f run plan bus =
    let tests =
      three_tests (is_terminal_run run.status) (is_empty (missing_results run plan))
        (is_empty (problems_in f run bus)) (not_terminal run.status)
        (without_results (missing_results run plan)) (inconsistent (problems_in f run bus)) in
    let missing = missing_iff run plan in
    let problems = problems_iff f run bus in
    (
      λ h. let (over, full, clean) = tests.0 h in (over, missing.0 full, problems.0 clean),
      λ (over, full, clean). tests.1 (over, missing.1 full, problems.1 clean),
    )

-- `verify` that returns.
pub verify-cases :
    (f : Foreign) (run : Run) (plan : Option Plan) (artifacts : List Artifact)
    (v : VerificationEngine) {ev : Evidence} {v' : VerificationEngine}
    → verify f run plan artifacts v ≡ ok (ev, v')
    → (checks : List CheckEntry) × (run_checks run (plan_of plan) v ≡ ok checks)
      × (ev ≡ evidence_of f run plan artifacts (reasons_of f run plan v.bus) checks v.bus)
unfolding verify
verify-cases f run plan artifacts v e =
    let (_, _, then_checks) = >>=-eq-ok (check_trace f run v.bus) _ e in
    let (checks, ran, rest) = >>=-eq-ok (run_checks run (plan_of plan) v) _ then_checks in
    (checks, ran, cc)

confidence_of_unverified :
    (f : Foreign) (run : Run) (plan : Option Plan) (artifacts : List Artifact)
    (checks : List CheckEntry) (bus : Option EventBus)
    → let ev = evidence_of f run plan artifacts (reasons_of f run plan bus) checks bus in
      ev.verified ≡ false → ev.confidence ≡ float_zero
unfolding evidence_of
confidence_of_unverified f run plan artifacts checks bus off = rw off refl

-- Evidence is verified exactly if the run is over, every task of the plan has a result, and the
-- bus's log, where there is one, shows the run's start, its end, and the end of every task that it
-- shows started. Unverified evidence has no confidence.
pub verify_lem :
    (f : Foreign) (run : Run) (plan : Option Plan) (artifacts : List Artifact)
    (v : VerificationEngine) {ev : Evidence} {v' : VerificationEngine}
    → verify f run plan artifacts v ≡ ok (ev, v')
    → ((ev.verified ≡ true) ↔ IsVerifiable f run plan v.bus)
      × (ev.verified ≡ false → ev.confidence ≡ float_zero)
unfolding evidence_of
verify_lem f run plan artifacts v {ev} e =
    let (checks, _, same) = verify-cases f run plan artifacts v e in
    subst
      (λ x.
        ((x.verified ≡ true) ↔ IsVerifiable f run plan v.bus)
        × (x.verified ≡ false → x.confidence ≡ float_zero))
      (sym same)
      (reasons_iff f run plan v.bus, confidence_of_unverified f run plan artifacts checks v.bus)
