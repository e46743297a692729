-- ===== src/Verify/Traces.antt =====
-- `_trace_consistent` of nexus/verify/engine.py.
use pharae.Base.{
  true, ◌||◌, ◌&&◌, String, Bool, false, not, Option, none, some, List, [], ◌∷◌, ◌++◌, select,
  all_of, any_of, is_some, is_empty, sort_by, if◌then◌else◌, elem, ◌==◌,
}
use pharae.Base.Dict.{lookup}
use pharae.Base.Text.{◌⧺◌, text_le}
use pharae.Schemas.{Value, dict, error_if, flag, float, int, list, null, str}
use pharae.Kernel.Events.{Event}

-- A task's id in an event: a text, nothing or `None`, or a number.
pub data TaskId : Type 0 where
  named : String → TaskId
  unnamed : TaskId
  numbered : Value → TaskId

-- `e.payload.get("task_id")` as a member of a set, or none where it cannot be one.
abbrev pub id_of : Option Value → Option TaskId
id_of none = some unnamed
id_of (some null) = some unnamed
id_of (some (str s)) = some (named s)
id_of (some (flag b)) = some (numbered (flag b))
id_of (some (int n)) = some (numbered (int n))
id_of (some (float x)) = some (numbered (float x))
id_of (some (list vs)) = none
id_of (some (dict fs)) = none

-- The equality of two ids, by the order of numbers.
abbrev pub same_id : (Value → Value → Bool) → TaskId → TaskId → Bool
same_id le (named s) (named t) = s == t
same_id le unnamed unnamed = true
same_id le (numbered x) (numbered y) = le x y && le y x
same_id le _ _ = false

abbrev pub id_le : (Value → Value → Bool) → TaskId → TaskId → Bool
id_le le (named s) (named t) = text_le s t
id_le le (numbered x) (numbered y) = le x y
id_le le _ _ = true

abbrev pub is_named : TaskId → Bool
is_named (named s) = true
is_named _ = false

abbrev pub is_numbered : TaskId → Bool
is_numbered (numbered x) = true
is_numbered _ = false

-- Whether `sorted` can compare the ids: at most one, all texts, or all numbers.
abbrev pub is_sortable : List TaskId → Bool
is_sortable [] = true
is_sortable (i ∷ []) = true
is_sortable (i ∷ j ∷ ids) = all_of is_named (i ∷ j ∷ ids) || all_of is_numbered (i ∷ j ∷ ids)

pub data Problem : Type 0 where
  no_start no_end : Problem
  unsettled : List TaskId → Problem

pub data TraceError : Type 0 where
  unhashable mixed_ids : TraceError

abbrev pub problem_text : (List TaskId → String) → Problem → String
problem_text show no_start = "run.started missing"
problem_text show no_end = "terminal run event missing"
problem_text show (unsettled ids) = "tasks started but never settled: " ⧺ show ids

abbrev pub text_of : Option Value → Option String
text_of (some (str s)) = some s
text_of _ = none

abbrev pub is_text : String → Option String → Bool
is_text s none = false
is_text s (some t) = t == s

-- `e.payload.get("run_id") == run.id`
unfoldable pub is_of_run : String → Event → Bool
is_of_run run_id e = is_text run_id (text_of (lookup "run_id" e.payload))

abbrev pub has_topic : List String → Event → Bool
has_topic topics e = elem e.topic topics

abbrev pub opt_list : {A : Type 0} → Option A → List A
opt_list none = []
opt_list (some s) = s ∷ []

-- The ids in the task events of these topics.
unfoldable pub task_event_ids : List String → List Event → List TaskId
task_event_ids topics [] = []
task_event_ids topics (e ∷ es) =
    (if has_topic topics e then opt_list (id_of (lookup "task_id" e.payload)) else [])
    ++ task_event_ids topics es

abbrev pub start_topics : List String
start_topics = "task.started" ∷ []

abbrev pub end_topics : List String
end_topics = "run.completed" ∷ "run.failed" ∷ "run.cancelled" ∷ []

abbrev pub settled_topics : List String
settled_topics = "task.completed" ∷ "task.failed" ∷ []

-- Whether a task event's id can be put into a set.
abbrev pub is_hashable : Event → Bool
is_hashable e =
    not (has_topic start_topics e || has_topic settled_topics e)
    || is_some (id_of (lookup "task_id" e.payload))

-- `started - settled`, with repetitions.
unfoldable pub orphans : (Value → Value → Bool) → List Event → List TaskId
orphans le events =
    select (λ id. not (any_of (same_id le id) (task_event_ids settled_topics events)))
      (task_event_ids start_topics events)

unfoldable pub distinct_ids : (Value → Value → Bool) → List TaskId → List TaskId
distinct_ids le [] = []
distinct_ids le (id ∷ ids) =
    if any_of (same_id le id) ids then distinct_ids le ids else id ∷ distinct_ids le ids

-- What `_trace_consistent` raises on the events of one run.
unfoldable pub trace_error_of : (Value → Value → Bool) → List Event → Option TraceError
trace_error_of le events =
    if all_of is_hashable events
    then if is_sortable (distinct_ids le (orphans le events)) then none else some mixed_ids
    else some unhashable

-- The problems of the events of one run.
unfoldable pub problems_of : (Value → Value → Bool) → List Event → List Problem
problems_of le events =
    error_if (not (any_of (has_topic ("run.started" ∷ [])) events)) no_start
    ++ error_if (not (any_of (has_topic end_topics) events)) no_end
    ++ error_if (not (is_empty (orphans le events)))
        (unsettled (sort_by (id_le le) (distinct_ids le (orphans le events))))

unfoldable pub trace_error : (Value → Value → Bool) → String → List Event → Option TraceError
trace_error le run_id log = trace_error_of le (select (is_of_run run_id) log)

-- `_trace_consistent` where it does not raise: the trace is consistent if there is no problem.
unfoldable pub trace_problems : (Value → Value → Bool) → String → List Event → List Problem
trace_problems le run_id log = problems_of le (select (is_of_run run_id) log)
