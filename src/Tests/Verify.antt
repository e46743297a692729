-- ===== src/Tests/Verify.antt =====
-- The verification of a run whose second task has a check that raises.
use pharae.Base.{
  String, Bool, true, false, elem, none, some, List, [], ◌∷◌, ok, In, ◌≡◌, ◌↔◌, ◌==◌, if◌then◌else◌,
  elem_iff, sym, ◌∙◌, ap, refl, inl, inr, is_empty, ◌++◌, sort_by,
}
use mathlib.Core.Path.{subst}
use pharae.Base.Dict.{Dict, has_key, get_or, lookup}
use pharae.Schemas.{
  Evidence, Run, RunStatus, TaskResult, TaskStatus, Value, Task, flag, float_zero, list, null, str,
}
use pharae.Kernel.Events.{Event}
use pharae.Verify.{check_trace, conclude_evidence, evidence_of, reasons_of, verify}
use pharae.Verify.Checks.{
  Check, CheckEntry, VerificationEngine, answer_entry, apply_all, apply_check, check_task,
  check_tasks, check_value, completed_entry, entry, judges, raises, run_checks,
}
use pharae.Verify.Traces.{
  distinct_ids, is_of_run, orphans, settled_topics, start_topics, trace_error, trace_error_of,
  problems_of, task_event_ids, trace_problems,
}
use pharae.Verify.Scores.{Foreign}
use pharae.Verify.Consistency.{IsTraced, trace_problems_iff}
use pharae.Verify.Verdicts.{IsVerifiable, verify_lem}
use pharae.Verify.Outcomes.{verify-raises}
use pharae.Verify.Returns.{HasTextIds, IsAnswering, is_answer, verify_returns}
use pharae.Tests.Samples.{clock, failing_plan, quiet_runtime, task}

abbrev pub foreign : Foreign
foreign = record {
  ratio = λ part whole. clock part;
  arithmetic = record { plus = λ x y. x; minus = λ x y. x; times = λ x y. x; divide = λ x y. x };
  sum = λ xs. float_zero;
  round_six = λ x. x;
  fingerprint = λ parts. "0";
  show_results = λ rs. "[]";
  show_list = λ ids. "[]";
  show_ids = λ ids. "[]";
  number_le = λ x y. true;
  join_problems = λ ps. "";
}

abbrev done : String → TaskResult
done id = record {
  task_id = id;
  status = TaskStatus.completed;
  output = null;
  error = none;
  attempts = 1;
}

abbrev run : Run
run = record {
  id = "run-1";
  plan_id = "plan-1";
  session_id = "ses-1";
  status = RunStatus.completed;
  task_results = ("b", done "b") ∷ ("d", done "d") ∷ [];
  started_at = clock 0;
  finished_at = some (clock 9);
}

abbrev event : String → Dict Value → Event
event topic payload = record {
  topic = topic;
  payload = ("run_id", str "run-1") ∷ payload;
  seq = 0;
  timestamp = clock 0;
}

abbrev log : List Event
log =
    event "run.started" []
    ∷ event "task.started" (("task_id", str "b") ∷ [])
    ∷ event "task.completed" (("task_id", str "b") ∷ [])
    ∷ event "run.completed" []
    ∷ []

abbrev crashing : Check
crashing = record {
  name = "crashing";
  run = λ result task. if task.id == "d" then raises "ValueError()" else judges true;
}

abbrev engine : VerificationEngine
engine = record {
  bus = some (record quiet_runtime.bus { log = log });
  checks = ("code", crashing ∷ []) ∷ [];
}

crashing-IsAnswering :
    (r : TaskResult) (b : Bool)
    → is_answer (if b then raises "ValueError()" else judges true) ≡ true
crashing-IsAnswering r true = refl
crashing-IsAnswering r false = refl

kept-IsAnswering :
    (b : Bool) (c : Check) (r : TaskResult) (t : Task)
    → In c (elim (if b then some (crashing ∷ []) else none) [ none ↦ [] | some cs ↦ cs ])
    → is_answer (c.run r t) ≡ true
kept-IsAnswering true c r t (inl same) =
    subst (λ k. is_answer (k.run r t) ≡ true) same (crashing-IsAnswering r (t.id == "d"))
kept-IsAnswering true c r t (inr bad) = absurd bad
kept-IsAnswering false c r t bad = absurd bad

engine-IsAnswering : IsAnswering engine
unfolding get_or lookup
engine-IsAnswering ty c r t there = kept-IsAnswering ("code" == ty) c r t there

-- An event that names a task has the id of the task as a text, another is no task event.
text_id :
    (e : Event) (topic : String) (rest : Dict Value) (task_id : String)
    → event topic (("task_id", str task_id) ∷ rest) ≡ e
    → (id : String) × (lookup "task_id" e.payload ≡ some (str id))
unfolding lookup
text_id e topic rest task_id same =
    (task_id, subst (λ k. lookup "task_id" k.payload ≡ some (str task_id)) same refl)

-- An event of a run is no task event.
no_task_topic :
    (topic : String)
    → elem topic (start_topics ++ settled_topics) ≡ false
    → (e : Event) → event topic [] ≡ e
    → ¬ In e.topic (start_topics ++ settled_topics)
no_task_topic topic off e same on =
    let clash : true ≡ false =
      sym ((elem_iff e.topic (start_topics ++ settled_topics)).1 on)
      ∙ ap (λ k. elem k.topic (start_topics ++ settled_topics)) (sym same)
      ∙ off in
    absurd cc

log-HasTextIds : HasTextIds run engine.bus
unfolding elem
log-HasTextIds e (inl same) ours on = absurd (no_task_topic "run.started" refl e same on)
log-HasTextIds e (inr (inl same)) ours on = text_id e "task.started" [] "b" same
log-HasTextIds e (inr (inr (inl same))) ours on = text_id e "task.completed" [] "b" same
log-HasTextIds e (inr (inr (inr (inl same)))) ours on =
    absurd (no_task_topic "run.completed" refl e same on)
log-HasTextIds e (inr (inr (inr (inr bad)))) ours on = absurd bad

abbrev checks : List CheckEntry
checks =
    completed_entry run
    ∷ entry "crashing" "b" true ""
    ∷ entry "crashing" "d" false "ValueError()"
    ∷ []

abbrev evidence : Evidence
evidence = evidence_of foreign run (some failing_plan) [] [] checks engine.bus

abbrev after : VerificationEngine
after = (conclude_evidence foreign run [] evidence engine).1

verifier : Unit {0}
unfolding verify check_trace trace_error trace_error_of distinct_ids reasons_of trace_problems
    problems_of is_of_run orphans task_event_ids run_checks check_tasks check_task apply_all elem
    apply_check answer_entry lookup get_or has_key sort_by
verifier = tt

-- The check that raises on `d` fails; the run is verified nevertheless.
ran : verify foreign run (some failing_plan) [] engine ≡ ok (evidence, after)
unfolding verifier
ran = refl

verify_lem_example :
    ((evidence.verified ≡ true) ↔ IsVerifiable foreign run (some failing_plan) engine.bus)
    × (evidence.verified ≡ false → evidence.confidence ≡ float_zero)
verify_lem_example = verify_lem foreign run (some failing_plan) [] engine ran

verify_returns_example :
    (r : Evidence × VerificationEngine) × (verify foreign run (some failing_plan) [] engine ≡ ok r)
verify_returns_example =
    verify_returns foreign run (some failing_plan) [] engine engine-IsAnswering log-HasTextIds

verify-raises_example :
    (cs : List CheckEntry) × (lookup "checks" evidence.test_results ≡ some (list (check_value cs)))
    × In (entry "crashing" "d" false "ValueError()") cs
    × (lookup "success" evidence.test_results ≡ some (flag false))
unfolding lookup get_or
verify-raises_example =
    verify-raises foreign run failing_plan [] engine ran (task "d" ("b" ∷ []) 0) (done "d") crashing
      "ValueError()" (inr (inl refl)) refl (inl refl) refl

trace_problems_iff_example :
    (is_empty (trace_problems foreign.number_le "run-1" log) ≡ true)
    ↔ IsTraced foreign.number_le "run-1" log
trace_problems_iff_example = trace_problems_iff foreign.number_le "run-1" log
