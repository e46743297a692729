-- ===== src/Router.antt =====
-- nexus/router/router.py. The arithmetic of floats and Python's `int` of a text are arguments.
-- `sink` is what the router has handed to its decision sink. Where no score is a NaN, the sort is
-- the source's.
pub mod Rules
pub mod Choice
use pharae.Base.{
  ℕ, ◌+◌, String, Bool, true, false, ◌&&◌, ◌||◌, not, Option, none, some, is_some, List, [], ◌∷◌,
  ◌++◌, if◌then◌else◌, Result, ok, err, ◌>>=◌, select, map, sort_by, elem, is_empty, eqb, ◌==◌,
}
use pharae.Base.Dict.{Dict, lookup, insert}
use pharae.Base.Text.{◌⧺◌, hex, text_le}
use pharae.Base.Int.{ℤ}
use pharae.Schemas.{
  Float, Value, str, Task, Plan, CandidateEvaluation, RoutingDecision, Arithmetic, less, at_most,
  float_max, float_zero, float_tenth,
}
use pharae.Kernel.Events.{EventBus, announce_to}
use pharae.Capabilities.Registry.{find}
use pharae.Capabilities.Registry.Entries.{
  CapabilityRegistry, CapabilityRecord, HealthStatus, capability_id, is_healthy, health_value,
}
use pharae.Security.{rpartition}
use pharae.Router.Rules.{
  Exclusion, RoutingPolicy, choice_le, default_policy, denied_by_policy, exceeds, exclusion_reason,
  high_cost, high_latency, is_eligible, is_unhealthy, key_less, largest, low_reliability, low_trust,
  maximum, not_healthy, same_float, score, scores, share, unhealthy_capability, version_of,
  unreadable,
}

pub data RouteReason : Type 0 where
  no_capabilities : String → RouteReason
  all_excluded highest_score : RouteReason

abbrev pub reason_text : RouteReason → String
reason_text (no_capabilities type) = "no registered capabilities of type '" ⧺ type ⧺ "'"
reason_text all_excluded = "all candidates excluded by policy"
reason_text highest_score = "highest score under policy"

abbrev pub first_id : List (CapabilityRecord × Float) → Option String
first_id [] = none
first_id (best ∷ rest) = some (capability_id best.0)

-- A version that `int` raises on, by the capability's id, or the ids of the tasks that could not
-- be routed.
pub data RouteError : Type 0 where
  bad_version : String → RouteError
  unroutable_tasks : List String → RouteError

-- `_choose`: the sort takes the key of every eligible record.
unfoldable pub choose :
    (String → Option ℤ)
    → Task
    → (records eligible : List CapabilityRecord) → List (CapabilityRecord × Float)
    → Result RouteError (Option String × RouteReason)
choose int_of task records eligible scored =
    if is_empty records
    then ok (none, no_capabilities task.capability_type)
    else if is_empty eligible
    then ok (none, all_excluded)
    else elim (unreadable int_of eligible) [
      | some id ↦ err (bad_version id)
      | none ↦ ok (first_id (sort_by (choice_le int_of) scored), highest_score)
    ]

pub record Router : Type 0 where
  pub policy : RoutingPolicy
  pub bus : Option EventBus
  pub sink : Option (List RoutingDecision)
  pub decisions : List RoutingDecision
  pub counter : ℕ
  pub clock : ℕ → Float

-- `evaluations`, of the excluded records and then of the scored ones.
abbrev pub exclude_all :
    (Exclusion → String)
    → RoutingPolicy
    → List CapabilityRecord
    → Dict CandidateEvaluation
    → Dict CandidateEvaluation
exclude_all show policy [] out = out
exclude_all show policy (r ∷ rs) out =
    exclude_all show policy rs (elim (exclusion_reason r policy) [
      | none ↦ out
      | some reason ↦
          insert (capability_id r)
            (record {
              capability_id = capability_id r;
              score = none;
              excluded = some (show reason);
            })
            out
    ])

abbrev pub score_all :
    List (CapabilityRecord × Float) → Dict CandidateEvaluation → Dict CandidateEvaluation
score_all [] out = out
score_all ((r, s) ∷ rest) out = score_all rest (
    insert (capability_id r)
      (record { capability_id = capability_id r; score = some s; excluded = none }) out)

-- `[evaluations[r.capability_id] for r in records]`: each record was evaluated above.
abbrev pub evaluations_of :
    Dict CandidateEvaluation → List CapabilityRecord → List CandidateEvaluation
evaluations_of out [] = []
evaluations_of out (r ∷ rs) = elim (lookup (capability_id r) out) [
  | none ↦ evaluations_of out rs
  | some e ↦ e ∷ evaluations_of out rs
]

abbrev pub hand_decision :
    Option (List RoutingDecision) → RoutingDecision → Option (List RoutingDecision)
hand_decision none d = none
hand_decision (some taken) d = some (taken ++ d ∷ [])

abbrev pub announce_decision : RoutingDecision → Option EventBus → Option EventBus
announce_decision d bus = elim d.chosen [
  | some chosen ↦
      announce_to bus "route.decided"
        (("decision_id", str d.id) ∷ ("task_id", str d.task_id) ∷ ("capability", str chosen) ∷ [])
  | none ↦
      announce_to bus "route.unroutable"
        (("decision_id", str d.id) ∷ ("task_id", str d.task_id) ∷ ("reason", str d.reason) ∷ [])
]

abbrev pub decision_of :
    Task
    → RoutingPolicy
    → List CandidateEvaluation
    → Router
    → Option String × RouteReason
    → RoutingDecision
decision_of task policy candidates router (chosen, reason) = record {
  id = "rd-" ⧺ hex 6 (router.counter + 1);
  task_id = task.id;
  capability_type = task.capability_type;
  policy_id = policy.id;
  candidates = candidates;
  chosen = chosen;
  reason = reason_text reason;
  created_at = router.clock router.counter;
}

abbrev pub with_decision : RoutingDecision → Router → Router
with_decision decision router = record router {
  counter = router.counter + 1;
  decisions = router.decisions ++ decision ∷ [];
  sink = hand_decision router.sink decision;
  bus = announce_decision decision router.bus;
}

-- `route`, with what `int` gives of a text, and how an exclusion's text is written.
unfoldable pub route :
    Arithmetic
    → (String → Option ℤ)
    → (Exclusion → String)
    → Task
    → RoutingPolicy
    → CapabilityRegistry
    → Router
    → Result RouteError (RoutingDecision × Router)
route ar int_of show task policy registry router =
    let records = find task.capability_type false false registry in
    let eligible = select (is_eligible policy) records in
    let scored = scores ar policy eligible in
    let out = score_all scored (exclude_all show policy records []) in
    choose int_of task records eligible scored >>= λ choice.
    let decision = decision_of task policy (evaluations_of out records) router choice in
    ok (decision, with_decision decision router)

abbrev pub bind_task : Option String → Task → Task
bind_task none t = t
bind_task (some chosen) t = record t { capability_binding = some chosen }

-- The loop of `route_plan`: the decisions by the tasks' ids, and the tasks as they are bound. Where
-- a task raises, it and those behind it are as they were.
unfoldable pub route_tasks :
    Arithmetic
    → (String → Option ℤ)
    → (Exclusion → String)
    → RoutingPolicy
    → CapabilityRegistry
    → List Task
    → Dict RoutingDecision
    → Router
    → Result RouteError (Dict RoutingDecision) × List Task × Router
unfolding route
route_tasks ar int_of show policy registry [] out router = (ok out, [], router)
route_tasks ar int_of show policy registry (t ∷ ts) out router =
    elim (route ar int_of show t policy registry router) [
      | err e ↦ (err e, t ∷ ts, router)
      | ok (decision, routed) ↦
          let (all, bound, last) =
            route_tasks ar int_of show policy registry ts (insert t.id decision out) routed in
          (all, bind_task decision.chosen t ∷ bound, last)
    ]

abbrev pub unroutable : Dict RoutingDecision → List String
unroutable out = map (λ e. e.0) (select (λ e. not (is_some e.1.chosen)) out)

abbrev pub check_routed : Dict RoutingDecision → Result RouteError (Dict RoutingDecision)
check_routed out =
    if is_empty (unroutable out) then ok out else err (unroutable_tasks (unroutable out))

-- `route_plan`: the tasks are bound, and the decisions recorded, also where it raises in the end.
unfoldable pub route_plan :
    Arithmetic
    → (String → Option ℤ)
    → (Exclusion → String)
    → Plan
    → RoutingPolicy
    → CapabilityRegistry
    → Router
    → Result RouteError (Dict RoutingDecision) × List Task × Router
unfolding route_tasks
route_plan ar int_of show plan policy registry router =
    let (all, bound, last) = route_tasks ar int_of show policy registry plan.tasks [] router in
    (all >>= check_routed, bound, last)
