-- ===== src/Planner/Tasks.antt =====
-- The tasks of a plan in nexus/planner/planner.py.
use pharae.Base.{
  ℕ, ◌+◌, String, Bool, true, ◌&&◌, not, Option, none, some, List, [], ◌∷◌, ◌++◌, if◌then◌else◌,
  is_empty, any_of,
}
use pharae.Base.Int.{pos}
use pharae.Base.Text.{◌⧺◌, join, decimal}
use pharae.Schemas.{Float, Value, str, texts, Intent, Task, TaskStatus, task_ids}
use pharae.Kernel.Events.{EventBus}

pub record Tools : Type 0 where
  pub lower : String → String
  pub has_word_start : (keyword : String) (text : String) → Bool
  pub hexdigest : String → String
  pub first_twelve : String → String

abbrev pub type_rules : List (String × List String)
type_rules =
    ("verify", "test" ∷ "verify" ∷ "validate" ∷ "benchmark" ∷ "audit" ∷ "qa" ∷ [])
    ∷ ("browser", "browse" ∷ "scrape" ∷ "visit" ∷ "navigate" ∷ "crawl" ∷ [])
    ∷ (
      "research",
      "research" ∷ "investigate" ∷ "study" ∷ "compare" ∷ "survey" ∷ "explore" ∷ "analyze"
          ∷ "analyse" ∷ "review" ∷ "summarize" ∷ "summarise" ∷ "find" ∷ "gather" ∷ "read" ∷ "search"
          ∷ [],
    )
    ∷ []

unfoldable pub classify_by : Tools → String → List (String × List String) → String
classify_by tools lowered [] = "code"
classify_by tools lowered ((capability_type, keywords) ∷ rules) =
    if any_of (λ k. tools.has_word_start k lowered) keywords
    then capability_type
    else classify_by tools lowered rules

-- `_classify`
unfoldable pub classify : Tools → String → String
classify tools goal = classify_by tools (tools.lower goal) type_rules

-- `_content_id`
unfoldable pub content_id : Tools → String → List String → String
content_id tools prefix parts =
    prefix ⧺ "-" ⧺ tools.first_twelve (tools.hexdigest (join "\0" parts))

pub record Planner : Type 0 where
  pub bus : Option EventBus
  pub clock : ℕ → Float
  pub ticks : ℕ

pub data PlannerError : Type 0 where
  no_goals : (intent_id : String) (open_questions : List String) → PlannerError
  nothing_to_replan : (plan_id : String) → PlannerError

abbrev pub new_task : String → String → List (String × Value) → List String → Task
new_task id capability_type payload depends_on = record {
  id = id;
  capability_type = capability_type;
  payload = payload;
  depends_on = depends_on;
  priority = pos 0;
  status = TaskStatus.pending;
  capability_binding = none;
}

abbrev pub gather_id : String
gather_id = "gather-context"

abbrev pub gather_task : Intent → Task
gather_task intent =
    new_task gather_id "research"
      (("description", str ("Gather context for: " ⧺ join "; " intent.goals))
        ∷ ("context_refs", texts intent.context_refs)
        ∷ ("constraints", texts intent.constraints)
        ∷ [])
      []

unfoldable pub goal_id : ℕ → String
goal_id index = "goal-" ⧺ decimal index

abbrev pub depends_on_previous : Option String → List String
depends_on_previous none = []
depends_on_previous (some previous) = previous ∷ []

abbrev pub goal_task : Tools → Intent → ℕ → Option String → String → Task
goal_task tools intent index previous goal =
    new_task (goal_id index) (classify tools goal)
      (("description", str goal)
        ∷ ("constraints", texts intent.constraints)
        ∷ ("context_refs", texts intent.context_refs)
        ∷ [])
      (depends_on_previous previous)

-- The loop over the goals: the first one follows the task that gathers the context, if there is
-- one, and each other the goal before it.
unfoldable pub goal_tasks : Tools → Intent → ℕ → Option String → List String → List Task
goal_tasks tools intent index previous [] = []
goal_tasks tools intent index previous (goal ∷ goals) =
    goal_task tools intent index previous goal
    ∷ goal_tasks tools intent (index + 1) (some (goal_id index)) goals

abbrev pub verify_task : Intent → List String → Task
verify_task intent goal_ids =
    new_task "verify" "verify"
      (("description", str "Verify results against the objective")
        ∷ ("desired_outcomes", texts intent.desired_outcomes)
        ∷ ("constraints", texts intent.constraints)
        ∷ [])
      goal_ids

-- A budget says whether to gather context; without one the planner does.
abbrev pub want_gather : Option Bool → Bool
want_gather none = true
want_gather (some gather_context) = gather_context

-- What stands before the goals: the gathering task, and its id as what the first goal follows.
abbrev pub gathering : Intent → Bool → List Task × Option String
gathering intent wanted = if wanted then (gather_task intent ∷ [], some gather_id) else ([], none)

unfoldable pub plan_tasks : Tools → Intent → Option Bool → List Task
unfolding goal_tasks
plan_tasks tools intent budget =
    let (before, previous) =
      gathering intent (not (is_empty intent.context_refs) && want_gather budget) in
    let goals = goal_tasks tools intent 1 previous intent.goals in
    before ++ goals ++ verify_task intent (task_ids goals) ∷ []
