-- ===== src/Verify/Returns.antt =====
-- What `verify` of nexus/verify/engine.py can make evidence of.
use pharae.Base.{
  not, if◌then◌else◌, ◌||◌, Bool-cases, any_of, is_some, select, All, All-of_In, In-select,
  elem_iff, String, Bool, true, false, Option, none, some, List, [], ◌∷◌, ◌++◌, all_of, Result, ok,
  err, ◌>>=◌, In, In-append, ◌≡◌, refl, sym, ap, ◌∙◌, inl, inr,
}
use pharae.Base.Dict.{get_or, lookup}
use pharae.Schemas.{Artifact, Evidence, Plan, Run, Task, TaskResult, Value, str}
use pharae.Kernel.Events.{Event, EventBus}
use pharae.Verify.Traces.{
  TaskId, TraceError, distinct_ids, has_topic, id_of, is_hashable, is_named, is_of_run, is_sortable,
  named, orphans, same_id, settled_topics, start_topics, task_event_ids, mixed_ids, unhashable,
  trace_error, trace_error_of,
}
use pharae.Verify.Consistency.{TaskOccurs-iff, is_of_run_iff}
use pharae.Verify.{check_trace, trace_result, plan_of, verify}
use pharae.Verify.Checks.{
  Answer, Check, VerificationEngine, VerifyError, answer_entry, apply_all, apply_check, check_task,
  check_tasks, completed_entry, judges, explains, malformed, raises, run_checks, unjudged,
}
use pharae.Verify.Scores.{Foreign}

abbrev Returns : {A : Type 0} → Result VerifyError A → Type 0
Returns {A} m = (a : A) × (m ≡ ok a)

bind-Returns :
    {A B : Type 0} (m : Result VerifyError A) (f : A → Result VerifyError B)
    → Returns m
    → ((a : A) → Returns (f a))
    → Returns (m >>= f)
bind-Returns (ok a) f h k = k a
bind-Returns (err e) f h k = absurd (let (a, bad) = h in cc)

-- What the engine can make an entry of: no tuple of another length than two, and no value whose
-- truth raises.
abbrev pub is_answer : Answer → Bool
is_answer malformed = false
is_answer (unjudged exception) = false
is_answer _ = true

abbrev pub IsAnswering : VerificationEngine → Type 0
IsAnswering v =
    (capability_type : String) (c : Check) (r : TaskResult) (t : Task)
    → In c (get_or capability_type [] v.checks)
    → is_answer (c.run r t) ≡ true

-- The task events of the run in the bus's log, if there is a bus, carry their tasks' ids as texts.
abbrev pub HasTextIds : Run → Option EventBus → Type 0
HasTextIds run none = Unit
HasTextIds run (some bus) =
    (e : Event)
    → In e bus.log
    → lookup "run_id" e.payload ≡ some (str run.id)
    → In e.topic (start_topics ++ settled_topics)
    → (id : String) × (lookup "task_id" e.payload ≡ some (str id))

answer_entry-Returns :
    (c : Check) (t : Task) (a : Answer) → is_answer a ≡ true → Returns (answer_entry c t a)
unfolding answer_entry
answer_entry-Returns c t (judges b) h = (_, refl)
answer_entry-Returns c t (explains b s) h = (_, refl)
answer_entry-Returns c t malformed h = absurd cc
answer_entry-Returns c t (unjudged s) h = absurd cc
answer_entry-Returns c t (raises s) h = (_, refl)

apply_all-Returns :
    (cs : List Check) (r : TaskResult) (t : Task)
    → ((c : Check) → In c cs → is_answer (c.run r t) ≡ true)
    → Returns (apply_all cs r t)
unfolding apply_all apply_check
apply_all-Returns [] r t h = ([], refl)
apply_all-Returns (c ∷ cs) r t h =
    bind-Returns (apply_check c r t) _ (answer_entry-Returns c t (c.run r t) (h c (inl refl)))
      (λ first.
        bind-Returns (apply_all cs r t) (λ rest. ok (first ∷ rest))
          (apply_all-Returns cs r t (λ d there. h d (inr there))) (λ rest. (first ∷ rest, refl)))

check_task-Returns :
    (o : Option TaskResult) (t : Task) (v : VerificationEngine)
    → IsAnswering v
    → Returns (check_task o t v)
unfolding check_task
check_task-Returns none t v h = ([], refl)
check_task-Returns (some r) t v h =
    apply_all-Returns (get_or t.capability_type [] v.checks) r t
      (λ c there. h t.capability_type c r t there)

check_tasks-Returns :
    (run : Run) (ts : List Task) (v : VerificationEngine)
    → IsAnswering v
    → Returns (check_tasks run ts v)
unfolding check_tasks
check_tasks-Returns run [] v h = ([], refl)
check_tasks-Returns run (t ∷ ts) v h =
    bind-Returns (check_task (lookup t.id run.task_results) t v) _
      (check_task-Returns (lookup t.id run.task_results) t v h)
      (λ first.
        bind-Returns (check_tasks run ts v) (λ rest. ok (first ++ rest))
          (check_tasks-Returns run ts v h) (λ rest. (first ++ rest, refl)))

sortable_names : (ids : List TaskId) → All (λ i. is_named i ≡ true) ids → is_sortable ids ≡ true
sortable_names [] h = refl
sortable_names (i ∷ []) h = refl
sortable_names (i ∷ j ∷ ids) h = rw (named_ids (i ∷ j ∷ ids) h) refl
  where
    named_ids : (ks : List TaskId) → All (λ i. is_named i ≡ true) ks → all_of is_named ks ≡ true
    named_ids [] k = refl
    named_ids (i ∷ ks) k = rw k.0 (named_ids ks k.1)

distinct_ids-All :
    (P : TaskId → Type 0) (le : Value → Value → Bool) (ids : List TaskId)
    → All P ids
    → All P (distinct_ids le ids)
unfolding distinct_ids
distinct_ids-All P le [] h = tt
distinct_ids-All P le (i ∷ ids) h = elim (Bool-cases (any_of (same_id le i) ids)) [
  | inl again ↦ rw (again, All) (distinct_ids-All P le ids h.1)
  | inr new ↦ rw (new, All) (h.0, distinct_ids-All P le ids h.1)
]

hashable :
    (b : Bool) (e : Event)
    → (b ≡ true → (s : String) × (lookup "task_id" e.payload ≡ some (str s)))
    → (not b || is_some (id_of (lookup "task_id" e.payload))) ≡ true
hashable false e h = refl
hashable true e h = let (s, found) = h refl in ap (λ o. is_some (id_of o)) found

all_of-In :
    {A : Type 0} (p : A → Bool) (xs : List A)
    → ((x : A) → In x xs → p x ≡ true)
    → all_of p xs ≡ true
all_of-In p [] h = refl
all_of-In p (x ∷ xs) h = rw (h x (inl refl)) (all_of-In p xs (λ y m. h y (inr m)))

check_trace-Returns :
    (f : Foreign) (run : Run) (bus : Option EventBus)
    → HasTextIds run bus
    → Returns (check_trace f run bus)
unfolding check_trace trace_error trace_error_of orphans
check_trace-Returns f run none h = (_, refl)
check_trace-Returns f run (some bus) h =
    let events = select (is_of_run run.id) bus.log in
    let le = f.number_le in
    let topics : (e : Event)
        → (has_topic start_topics e || has_topic settled_topics e) ≡ true
        → In e.topic (start_topics ++ settled_topics) =
      λ e on.
        (In-append e.topic start_topics settled_topics).1
          (elim (Bool-cases (has_topic start_topics e)) [
            | inl begun ↦ inl ((elem_iff e.topic start_topics).0 begun)
            | inr other ↦ inr ((elem_iff e.topic settled_topics).0 (rw other at on))
          ]) in
    let fine : all_of is_hashable events ≡ true = all_of-In is_hashable events (λ e there.
      let (at, ours) = (In-select e (is_of_run run.id) bus.log).0 there in
      hashable (has_topic start_topics e || has_topic settled_topics e) e
        (λ on. h e at ((is_of_run_iff run.id e).0 ours) (topics e on))) in
    let texts_only : All (λ i. is_named i ≡ true) (orphans le events) =
      All-of_In (λ i. is_named i ≡ true) (orphans le events)
        (λ i there.
          let (started, _) =
            (In-select i (λ id. not (any_of (same_id le id) (task_event_ids settled_topics events)))
                (task_event_ids start_topics events)).0
              there in
          let (e, at, ours, topic, found) =
            (TaskOccurs-iff run.id bus.log start_topics i).0 started in
          let (s, text) =
            h e at ours ((In-append e.topic start_topics settled_topics).1 (inl topic)) in
          let same : named s ≡ i = some_eq (sym (ap id_of text) ∙ found) in
          ap is_named (sym same)) in
    let sorts =
      sortable_names (distinct_ids le (orphans le events))
        (distinct_ids-All (λ i. is_named i ≡ true) le (orphans le events) texts_only) in
    (
      tt,
      ap trace_result
          (gates (some mixed_ids) (some unhashable) (all_of is_hashable events) _ fine sorts),
    )
  where
    gates :
        (x y : Option TraceError) (a b : Bool)
        → a ≡ true
        → b ≡ true
        → (if a then (if b then none else x) else y) ≡ none
    gates x y a b one two = rw (one, two) refl

    some_eq : {A : Type 0} {a b : A} → some a ≡ some b → a ≡ b
    some_eq e = cc

-- Verification never raises as long as every check answers with a pair of a Boolean and a text or
-- with a value that has a truth, or raises, and the log's task events of the run carry texts as
-- their tasks' ids: it makes evidence of every run, with or without a plan, also where checks
-- raise.
pub verify_returns :
    (f : Foreign) (run : Run) (plan : Option Plan) (artifacts : List Artifact)
    (v : VerificationEngine)
    → IsAnswering v
    → HasTextIds run v.bus
    → (r : Evidence × VerificationEngine) × (verify f run plan artifacts v ≡ ok r)
unfolding verify run_checks
verify_returns f run plan artifacts v h texts =
    bind-Returns (check_trace f run v.bus) _ (check_trace-Returns f run v.bus texts) (λ traced.
      bind-Returns (run_checks run (plan_of plan) v) _
        (bind-Returns (check_tasks run (plan_of plan) v)
          (λ checks. ok (completed_entry run ∷ checks)) (check_tasks-Returns run (plan_of plan) v h)
          (λ checks. (_, refl)))
        (λ checks. (_, refl)))
