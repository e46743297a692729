-- ===== src/Verify/Scores.antt =====
-- The scores and the bookkeeping of nexus/verify/engine.py.
use pharae.Base.{
  ℕ, ◌+◌, ◌-◌, String, Bool, true, not, Option, none, some, List, [], ◌∷◌, select, length, map,
  if◌then◌else◌, eqb, ◌==◌,
}
use pharae.Base.Dict.{Dict, values}
use pharae.Base.Text.{◌⧺◌}
use pharae.Schemas.{
  Arithmetic, Fields, Float, Run, TaskResult, Value, at_most, field, float, float_half, float_max,
  float_one, float_tenth, float_zero, is_completed, nat, no_field, run_status_value, status_value,
}
use pharae.Verify.Checks.{CheckEntry}
use pharae.Verify.Traces.{TaskId}

-- The foreign functions: the quotient of two counts, the difference, product and quotient of
-- floats, `sum` of a list of floats, `round(x, 6)`, the first 12 digits of SHA-256 of the joined
-- parts, `repr` of the sorted results, of a list of texts and of one of task ids, the order of
-- numbers, and the problems' texts joined by "; ".
pub record Foreign : Type 0 where
  pub ratio : ℕ → ℕ → Float
  pub arithmetic : Arithmetic
  pub sum : List Float → Float
  pub round_six : Float → Float
  pub fingerprint : List String → String
  pub show_results : List (String × String × ℕ) → String
  pub show_list : List String → String
  pub show_ids : List TaskId → String
  pub number_le : Value → Value → Bool
  pub join_problems : List String → String

abbrev pub ratio_or_one : Foreign → ℕ → ℕ → Float
ratio_or_one f part whole = if eqb whole 0 then float_one else f.ratio part whole

abbrev pub completed_results : Run → List TaskResult
completed_results run = select (λ r. is_completed r.status) (values run.task_results)

abbrev pub trace_input : Option Bool → List (String × Float)
trace_input none = []
trace_input (some trace_ok) = ("trace_consistent", if trace_ok then float_one else float_zero) ∷ []

-- `_scoring_inputs`
unfoldable pub scoring_inputs :
    Foreign → Run → List CheckEntry → Option Bool → List (String × Float)
scoring_inputs f run checks trace_ok =
    let completed = completed_results run in
    ("task_completion", ratio_or_one f (length completed) (length (values run.task_results)))
    ∷ ("check_pass_rate", ratio_or_one f (length (select (λ c. c.passed) checks)) (length checks))
    ∷ (
      "first_attempt_rate",
      ratio_or_one f (length (select (λ r. eqb r.attempts 1) completed)) (length completed),
    )
    ∷ trace_input trace_ok

abbrev pub float_three_tenths : Float
float_three_tenths = record { bits = 4599075939470750515 }

-- `_WEIGHTS`
abbrev pub weight_of : String → Float
weight_of name =
    if name == "task_completion"
    then float_half
    else if name == "check_pass_rate"
    then float_three_tenths
    else float_tenth

-- `_confidence`
unfoldable pub confidence_of : Foreign → List (String × Float) → Float
confidence_of f scoring =
    let total = f.sum (map (λ s. weight_of s.0) scoring) in
    let weighted = f.sum (map (λ s. f.arithmetic.times (weight_of s.0) s.1) scoring) in
    f.round_six (f.arithmetic.divide weighted total)

abbrev pub scoring_value : List (String × Float) → Fields
scoring_value [] = no_field
scoring_value ((name, value) ∷ rest) = field name (float value) (scoring_value rest)

-- `_evidence_id`
unfoldable pub evidence_id : Foreign → Run → String → Bool → String
evidence_id f run plan_id verified =
    "ev-"
    ⧺ f.fingerprint (
        run.id
        ∷ run_status_value run.status
        ∷ (if verified then "True" else "False")
        ∷ plan_id
        ∷ f.show_results
            (map (λ r. (r.task_id, status_value r.status, r.attempts)) (values run.task_results))
        ∷ [])

unfoldable pub total_attempts : List TaskResult → ℕ
total_attempts [] = 0
total_attempts (r ∷ rs) = r.attempts + total_attempts rs

unfoldable pub total_retries : List TaskResult → ℕ
total_retries [] = 0
total_retries (r ∷ rs) = r.attempts - 1 + total_retries rs

-- The truth of a float: not zero.
abbrev pub is_nonzero : Float → Bool
is_nonzero x = if at_most x float_zero then not (at_most float_zero x) else true

-- `run.finished_at or run.started_at`
abbrev pub finish_time : Run → Float
finish_time run = elim run.finished_at [
  | none ↦ run.started_at
  | some time ↦ if is_nonzero time then time else run.started_at
]

-- `_cost_report`
unfoldable pub cost_report : Foreign → Run → Dict Value
cost_report f run =
    let results = values run.task_results in
    (
      "duration_s",
      float (float_max float_zero (f.arithmetic.minus (finish_time run) run.started_at)),
    )
    ∷ ("tasks", nat (length results))
    ∷ ("attempts", nat (total_attempts results))
    ∷ ("retries", nat (total_retries results))
    ∷ []
