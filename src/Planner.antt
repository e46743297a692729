-- ===== src/Planner.antt =====
-- nexus/planner/planner.py. The regular expression `\b` with a keyword, `str.lower` and SHA-256 are
-- fields of the `Tools` that the operations take.
pub mod Tasks
pub mod Order
pub mod Replan
use pharae.Base.{
  ℕ, suc, ◌+◌, String, Bool, true, false, ◌&&◌, not, Option, none, some, List, [], ◌∷◌, ◌++◌,
  if◌then◌else◌, Result, ok, err, ◌>>=◌, ◌>>◌, raise_if, is_empty, select, map, sort_by, elem,
  length, any_of,
}
use pharae.Base.Int.{pos}
use pharae.Base.Text.{◌⧺◌, join, decimal, text_le}
use pharae.Schemas.{
  Float, Value, str, nat, texts, Intent, Evidence, Task, TaskStatus, Plan, task_ids,
}
use pharae.Kernel.Events.{EventBus, announce_to}
use pharae.Kernel.Scheduler.{distinct}
use pharae.Planner.Tasks.{
  Planner, PlannerError, Tools, classify, classify_by, content_id, depends_on_previous, gather_id,
  gather_task, gathering, goal_id, goal_task, goal_tasks, new_task, no_goals, nothing_to_replan,
  plan_tasks, type_rules, verify_task, want_gather,
}

abbrev pub new_plan : Tools → Intent → List Task → Float → Plan
new_plan tools intent tasks time = record {
  id = content_id tools "plan" (
      intent.id
      ∷ join "|" intent.goals
      ∷ join "|" intent.constraints
      ∷ join "|" intent.desired_outcomes
      ∷ join "|" intent.context_refs
      ∷ []);
  tasks = tasks;
  intent_id = some intent.id;
  provenance = none;
  created_at = time;
}

abbrev pub publish_plan : String → List (String × Value) → Planner → Planner
publish_plan topic payload p = record p {
  ticks = p.ticks + 1;
  bus = announce_to p.bus topic payload;
}

abbrev pub planned : Tools → Intent → Option Bool → Planner → Plan
planned tools intent budget p =
    new_plan tools intent (plan_tasks tools intent budget) (p.clock p.ticks)

abbrev pub created : Tools → Intent → Option Bool → Planner → List (String × Value)
created tools intent budget p =
    ("plan_id", str (planned tools intent budget p).id)
    ∷ ("intent_id", str intent.id)
    ∷ ("task_count", nat (length (plan_tasks tools intent budget)))
    ∷ []

-- `Planner.plan`
unfoldable pub make_plan :
    Tools → Intent → Option Bool → Planner → Result PlannerError (Plan × Planner)
make_plan tools intent budget p = do
  raise_if (is_empty intent.goals) (no_goals intent.id intent.open_questions)
  ok (planned tools intent budget p, publish_plan "plan.created" (created tools intent budget p) p)

-- `replan`: a kept task is reset, and its dependencies on dropped tasks are released.
abbrev pub reset_task : List String → Task → Task
reset_task kept_ids t = record t {
  depends_on = select (λ d. elem d kept_ids) t.depends_on;
  status = TaskStatus.pending;
  capability_binding = none;
}

abbrev pub kept_tasks : List String → List Task → List Task
kept_tasks completed tasks = select (λ t. not (elem t.id completed)) tasks

unfoldable pub replan_tasks : List String → List Task → List Task
replan_tasks completed tasks =
    map (reset_task (task_ids (kept_tasks completed tasks))) (kept_tasks completed tasks)

abbrev pub successor_plan : Tools → Plan → Evidence → List String → Float → Plan
successor_plan tools plan evidence completed time = record {
  id =
      content_id tools "plan"
        (plan.id ∷ evidence.id ∷ join "," (sort_by text_le (distinct completed)) ∷ []);
  tasks = replan_tasks completed plan.tasks;
  intent_id = plan.intent_id;
  provenance = some (plan.id ⧺ ":" ⧺ evidence.id);
  created_at = time;
}

abbrev pub revised : Tools → Plan → Evidence → List String → Planner → List (String × Value)
revised tools plan evidence completed p =
    ("plan_id", str (successor_plan tools plan evidence completed (p.clock p.ticks)).id)
    ∷ ("provenance", str (plan.id ⧺ ":" ⧺ evidence.id))
    ∷ (
      "dropped",
      texts (sort_by text_le (select (λ c. elem c (task_ids plan.tasks)) (distinct completed))),
    )
    ∷ []

unfoldable pub replan :
    Tools → Plan → Evidence → List String → Planner → Result PlannerError (Plan × Planner)
replan tools plan evidence completed p = do
  raise_if (is_empty (kept_tasks completed plan.tasks)) (nothing_to_replan plan.id)
  ok (
    successor_plan tools plan evidence completed (p.clock p.ticks),
    publish_plan "plan.revised" (revised tools plan evidence completed p) p,
  )
