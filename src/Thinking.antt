-- ===== src/Thinking.antt =====
-- nexus/thinking/budget.py. The two hint patterns are arguments.
pub mod Plans
use pharae.Base.{
  ℕ, suc, ◌+◌, String, Bool, true, false, ◌&&◌, ◌||◌, Option, List, [], ◌∷◌, length, any_of,
  if◌then◌else◌, ltb, leb, eqb, max,
}
use pharae.Base.Text.{is_space}
use pharae.Schemas.{Float, Intent, str}
use pharae.Kernel.Events.{EventBus, announce_to}
use Prim.Native.Char.{code}
use Prim.Native.String

pub data ThinkingMode : Type 0 where
  reflex deliberative research : ThinkingMode

abbrev pub mode_value : ThinkingMode → String
mode_value reflex = "reflex"
mode_value deliberative = "deliberative"
mode_value research = "research"

-- What the rationale's text shows.
pub data Rationale : Type 0 where
  refs_to_gather open_questions : ℕ → Rationale
  research_shaped single_simple_goal : Rationale
  goals_and_constraints : ℕ → ℕ → Rationale

pub record ThinkingBudget : Type 0 where
  pub mode : ThinkingMode
  pub max_plan_depth : ℕ
  pub gather_context : Bool
  pub max_parallelism : ℕ
  pub stopping_confidence : Float
  pub max_retries : ℕ
  pub rationale : Rationale

pub record Hints : Type 0 where
  pub is_research : String → Bool
  pub is_trivial : String → Bool

-- 0.85, 0.6 and 0.75
abbrev research_confidence : Float
research_confidence = record { bits = 4605831338911806259 }

abbrev reflex_confidence : Float
reflex_confidence = record { bits = 4603579539098121011 }

abbrev deliberative_confidence : Float
deliberative_confidence = record { bits = 4604930618986332160 }

-- `len(text.split())`
unfoldable pub word_count : (inside : Bool) → String → ℕ
word_count inside String.[] = 0
word_count inside (String.◌∷◌ c s) =
    let skipped = word_count false s in
    let entered = word_count true s in
    if is_space (code c) then skipped else if inside then entered else suc entered

abbrev pub has_research_hint : Hints → Intent → Bool
has_research_hint hints intent = any_of hints.is_research intent.goals

abbrev pub research_signal : Hints → Intent → Bool
research_signal hints intent =
    ltb 0 (length intent.context_refs)
    || (leb 2 (length intent.open_questions) || has_research_hint hints intent)

-- `_why_research`
abbrev pub why_research : Hints → Intent → Rationale
why_research hints intent =
    if ltb 0 (length intent.context_refs)
    then refs_to_gather (length intent.context_refs)
    else if has_research_hint hints intent
    then research_shaped
    else open_questions (length intent.open_questions)

abbrev pub is_simple : Hints → List String → Bool
is_simple hints [] = false
is_simple hints (goal ∷ goals) = hints.is_trivial goal || leb (word_count false goal) 4

-- `_is_reflex`
abbrev pub is_reflex : Hints → Intent → Bool
is_reflex hints intent =
    (eqb (length intent.goals) 1
      && (eqb (length intent.constraints) 0
          && (eqb (length intent.open_questions) 0 && eqb (length intent.context_refs) 0)))
    && is_simple hints intent.goals

-- The budget of `assess`.
unfoldable pub budget_of : Hints → Intent → ThinkingBudget
budget_of hints intent =
    if research_signal hints intent
    then record {
      mode = research;
      max_plan_depth = length intent.goals + 1;
      gather_context = ltb 0 (length intent.context_refs);
      max_parallelism = 4;
      stopping_confidence = research_confidence;
      max_retries = 2;
      rationale = why_research hints intent;
    }
    else if is_reflex hints intent
    then record {
      mode = reflex;
      max_plan_depth = 1;
      gather_context = false;
      max_parallelism = 1;
      stopping_confidence = reflex_confidence;
      max_retries = 0;
      rationale = single_simple_goal;
    }
    else record {
      mode = deliberative;
      max_plan_depth = max (length intent.goals) 2;
      gather_context = ltb 0 (length intent.context_refs);
      max_parallelism = 2;
      stopping_confidence = deliberative_confidence;
      max_retries = 1;
      rationale = goals_and_constraints (length intent.goals) (length intent.constraints);
    }

-- `assess`, on the bus that the budgeter may have.
unfoldable pub assess : Hints → Intent → Option EventBus → ThinkingBudget × Option EventBus
unfolding budget_of
assess hints intent bus =
    let budget = budget_of hints intent in
    (
      budget,
      announce_to bus "thinking.assessed"
          (("intent_id", str intent.id) ∷ ("mode", str (mode_value budget.mode)) ∷ []),
    )
