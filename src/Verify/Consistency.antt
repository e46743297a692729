-- ===== src/Verify/Consistency.antt =====
-- What a consistent event trace is in nexus/verify/engine.py.
use pharae.Base.{
  String, Bool, true, false, not, Option, none, some, List, [], ◌∷◌, ◌++◌, select, any_of, is_empty,
  sort_by, if◌then◌else◌, elem_iff, In, In-append, In-select, ◌≡◌, refl, sym, ap, ◌↔◌, inl, inr,
  Bool-cases, eq_iff,
}
use mathlib.Core.Path.{subst}
use pharae.Base.Dict.{lookup}
use pharae.Schemas.{Value, dict, error_if, flag, float, int, list, null, str}
use pharae.Kernel.Events.{Event}
use pharae.Verify.Traces.{
  TaskId, distinct_ids, id_le, id_of, same_id, start_topics, end_topics, has_topic, is_of_run,
  is_text, no_end, no_start, opt_list, orphans, problems_of, settled_topics, task_event_ids,
  text_of, trace_problems, unsettled,
}

-- An event of the run with one of these topics.
abbrev pub Occurs : String → List Event → List String → Type 0
Occurs run_id log topics =
    (e : Event) × In e log × (lookup "run_id" e.payload ≡ some (str run_id)) × In e.topic topics

-- An event of the run about this task, with one of these topics.
abbrev pub TaskOccurs : String → List Event → List String → TaskId → Type 0
TaskOccurs run_id log topics id =
    (e : Event) × In e log
    × (lookup "run_id" e.payload ≡ some (str run_id))
    × In e.topic topics
    × (id_of (lookup "task_id" e.payload) ≡ some id)

-- The run was started and came to an end, and every task that was started was settled.
abbrev pub IsTraced : (Value → Value → Bool) → String → List Event → Type 0
IsTraced le run_id log =
    Occurs run_id log ("run.started" ∷ [])
    × Occurs run_id log end_topics
    × ((id : TaskId)
        → TaskOccurs run_id log start_topics id
        → (j : TaskId) × (same_id le id j ≡ true) × TaskOccurs run_id log settled_topics j)

text_of-some : (o : Option Value) (s : String) → (is_text s (text_of o) ≡ true) ↔ (o ≡ some (str s))
text_of-some none s = (λ h. cc, λ h. cc)
text_of-some (some null) s = (λ h. cc, λ h. cc)
text_of-some (some (flag b)) s = (λ h. cc, λ h. cc)
text_of-some (some (int n)) s = (λ h. cc, λ h. cc)
text_of-some (some (float x)) s = (λ h. cc, λ h. cc)
text_of-some (some (list vs)) s = (λ h. cc, λ h. cc)
text_of-some (some (dict fs)) s = (λ h. cc, λ h. cc)
text_of-some (some (str t)) s = (
  λ h. ap (λ x. some (str x)) ((eq_iff t s).0 h),
  λ h. let same : t ≡ s = cc in (eq_iff t s).1 same,
)

opt_list-In : {A : Type 0} (o : Option A) (a : A) → In a (opt_list o) ↔ (o ≡ some a)
opt_list-In none a = (λ bad. absurd bad, λ h. cc)
opt_list-In (some b) a = (
  λ h. elim h [ inl same ↦ ap (λ x. some x) same | inr bad ↦ absurd bad ],
  λ h. inl (subst (λ o. elim o [ none ↦ b ≡ b | some x ↦ b ≡ x ]) h refl),
)

any_of-In :
    {A : Type 0} (p : A → Bool) (xs : List A)
    → (any_of p xs ≡ true) ↔ ((x : A) × In x xs × (p x ≡ true))
any_of-In p [] = (λ h. cc, λ (x, bad, _). absurd bad)
any_of-In p (x ∷ xs) = elim (Bool-cases (p x)) [
  | inl holds ↦ (λ h. (x, inl refl, holds), λ h. rw holds refl)
  | inr fails ↦ (
    λ h. let (y, there, good) = (any_of-In p xs).0 (rw fails at h) in (y, inr there, good),
    λ (y, there, good). rw fails (elim there [
      | inl same ↦ let bad : p x ≡ true = subst (λ z. p z ≡ true) (sym same) good in cc
      | inr later ↦ (any_of-In p xs).1 (y, later, good)
    ]),
  )
]

pub is_of_run_iff :
    (run_id : String) (e : Event)
    → (is_of_run run_id e ≡ true) ↔ (lookup "run_id" e.payload ≡ some (str run_id))
unfolding is_of_run
is_of_run_iff run_id e = text_of-some (lookup "run_id" e.payload) run_id

Occurs-iff :
    (run_id : String) (log : List Event) (topics : List String)
    → (any_of (has_topic topics) (select (is_of_run run_id) log) ≡ true) ↔ Occurs run_id log topics
Occurs-iff run_id log topics = (
  λ h.
      let (e, there, good) = (any_of-In (has_topic topics) (select (is_of_run run_id) log)).0 h in
      let (at, ours) = (In-select e (is_of_run run_id) log).0 there in
      (e, at, (is_of_run_iff run_id e).0 ours, (elem_iff e.topic topics).0 good),
  λ (e, at, ours, good). (any_of-In (has_topic topics) (select (is_of_run run_id) log)).1 (
    e,
    (In-select e (is_of_run run_id) log).1 (at, (is_of_run_iff run_id e).1 ours),
    (elem_iff e.topic topics).1 good,
  ),
)

abbrev OfTask : List String → TaskId → Event → Type 0
OfTask topics id e = In e.topic topics × (id_of (lookup "task_id" e.payload) ≡ some id)

abbrev id_in : List String → Event → List TaskId
id_in topics e = if has_topic topics e then opt_list (id_of (lookup "task_id" e.payload)) else []

id_in_iff :
    (id : TaskId) (topics : List String) (e : Event) → In id (id_in topics e) ↔ OfTask topics id e
id_in_iff id topics e = elim (Bool-cases (has_topic topics e)) [
  | inl holds ↦ (
    λ h.
        let there : In id (opt_list (id_of (lookup "task_id" e.payload))) = rw (holds, In) at h in
        (
          (elem_iff e.topic topics).0 holds,
          (opt_list-In (id_of (lookup "task_id" e.payload)) id).0 there,
        ),
    λ (_, found). rw (holds, In) ((opt_list-In (id_of (lookup "task_id" e.payload)) id).1 found),
  )
  | inr fails ↦ (
    λ h. absurd (rw (fails, In) at h),
    λ (there, _). let bad = (elem_iff e.topic topics).1 there in cc,
  )
]

In-task_event_ids :
    (id : TaskId) (topics : List String) (es : List Event)
    → In id (task_event_ids topics es) ↔ ((e : Event) × In e es × OfTask topics id e)
unfolding task_event_ids
In-task_event_ids id topics [] = (λ bad. absurd bad, λ h. absurd h.1)
In-task_event_ids id topics (e ∷ es) = (
  λ h. elim ((In-append id (id_in topics e) (task_event_ids topics es)).0 h) [
    | inl first ↦ (e, inl refl, (id_in_iff id topics e).0 first)
    | inr later ↦
        let (f, there, of) = (In-task_event_ids id topics es).0 later in (f, inr there, of)
  ],
  λ (f, there, of). (In-append id (id_in topics e) (task_event_ids topics es)).1 (elim there [
    | inl same ↦ inl ((id_in_iff id topics e).1 (subst (OfTask topics id) (sym same) of))
    | inr later ↦ inr ((In-task_event_ids id topics es).1 (f, later, of))
  ]),
)

pub TaskOccurs-iff :
    (run_id : String) (log : List Event) (topics : List String) (id : TaskId)
    → In id (task_event_ids topics (select (is_of_run run_id) log))
      ↔ TaskOccurs run_id log topics id
TaskOccurs-iff run_id log topics id = (
  λ h.
      let (e, there, of) = (In-task_event_ids id topics (select (is_of_run run_id) log)).0 h in
      let (at, ours) = (In-select e (is_of_run run_id) log).0 there in
      (e, at, (is_of_run_iff run_id e).0 ours, of.0, of.1),
  λ (e, at, ours, topic, found). (In-task_event_ids id topics (select (is_of_run run_id) log)).1 (
    e,
    (In-select e (is_of_run run_id) log).1 (at, (is_of_run_iff run_id e).1 ours),
    (topic, found),
  ),
)

pub empty-In : {A : Type 0} (x : A) (xs : List A) → is_empty xs ≡ true → In x xs → ⊥
empty-In x [] h there = there
empty-In x (y ∷ ys) h there = cc

pub no_one : {A : Type 0} (xs : List A) → ((x : A) → In x xs → ⊥) → is_empty xs ≡ true
no_one [] h = refl
no_one (x ∷ xs) h = absurd (h x (inl refl))

orphans_iff :
    (le : Value → Value → Bool) (events : List Event)
    → (is_empty (orphans le events) ≡ true) ↔ (
        (id : TaskId)
        → In id (task_event_ids start_topics events)
        → (j : TaskId) × (same_id le id j ≡ true) × In j (task_event_ids settled_topics events))
unfolding orphans
orphans_iff le events =
    let begun = task_event_ids start_topics events in
    let over = task_event_ids settled_topics events in
    let open_ids = select (λ x. not (any_of (same_id le x) over)) begun in
    (
      λ none_left id started. elim (Bool-cases (any_of (same_id le id) over)) [
        | inl there ↦ let (j, at, same) = (any_of-In (same_id le id) over).0 there in (j, same, at)
        | inr missing ↦ absurd (
            empty-In id open_ids none_left (
              (In-select id (λ x. not (any_of (same_id le x) over)) begun).1
                (started, ap not missing)))
      ],
      λ all. no_one open_ids (λ id there.
          let (at, missing) =
            (In-select id (λ x. not (any_of (same_id le x) over)) begun).0 there in
          let (j, same, settled) = all id at in
          let found = (any_of-In (same_id le id) over).1 (j, settled, same) in
          let bad : not true ≡ true = subst (λ b. not b ≡ true) found missing in cc),
    )

false-true : false ≡ true → ⊥
false-true h = cc

pub three_tests :
    {E : Type 0} (a b c : Bool) (p q r : E)
    → (is_empty (error_if (not a) p ++ error_if (not b) q ++ error_if (not c) r) ≡ true)
      ↔ ((a ≡ true) × (b ≡ true) × (c ≡ true))
three_tests true true true p q r = (λ h. (refl, refl, refl), λ h. refl)
three_tests true true false p q r = (λ h. cc, λ h. absurd (false-true h.2))
three_tests true false c p q r = (λ h. cc, λ h. absurd (false-true h.1))
three_tests false b c p q r = (λ h. cc, λ h. absurd (false-true h.0))

-- The trace has no problem exactly if it shows the run's start and its end, and for each task that
-- it shows started also the end, whether a task's id is a text, a number or missing.
pub trace_problems_iff :
    (le : Value → Value → Bool) (run_id : String) (log : List Event)
    → (is_empty (trace_problems le run_id log) ≡ true) ↔ IsTraced le run_id log
unfolding trace_problems problems_of
trace_problems_iff le run_id log =
    let events = select (is_of_run run_id) log in
    let tests =
      three_tests (any_of (has_topic ("run.started" ∷ [])) events)
        (any_of (has_topic end_topics) events) (is_empty (orphans le events)) no_start no_end
        (unsettled (sort_by (id_le le) (distinct_ids le (orphans le events)))) in
    let begun = Occurs-iff run_id log ("run.started" ∷ []) in
    let over = Occurs-iff run_id log end_topics in
    let settled = orphans_iff le events in
    (
      λ h.
          let (one, two, three) = tests.0 h in
          (
            begun.0 one,
            over.0 two,
            λ id started.
                let (j, same, at) =
                  settled.0 three id ((TaskOccurs-iff run_id log start_topics id).1 started) in
                (j, same, (TaskOccurs-iff run_id log settled_topics j).0 at),
          ),
      λ (one, two, three). tests.1 (
        begun.1 one,
        over.1 two,
        settled.1 (λ id started.
            let (j, same, at) = three id ((TaskOccurs-iff run_id log start_topics id).0 started) in
            (j, same, (TaskOccurs-iff run_id log settled_topics j).1 at)),
      ),
    )
