-- ===== src/Tests/Planner.antt =====
-- The planner, the thinking budget and the theory ledger on small inputs.
use pharae.Base.{
  select, not, eq_iff, ℕ, ◌≤◌, String, ◌≡◌, refl, true, false, none, some, [], ◌∷◌, ok, err, All,
  In, length, is_empty, inl, inr, ◌==◌, elem,
}
use pharae.Base.Dict.{lookup, insert}
use pharae.Base.Text.{is_blank}
use mathlib.Core.Path.{subst}
use pharae.Schemas.{Float, Intent, Evidence, Plan, MemoryItem, MemoryLayer, task_ids, float_half}
use pharae.Planner.{make_plan, replan}
use pharae.Planner.Tasks.{Tools, Planner, no_goals, nothing_to_replan}
use pharae.Planner.Order.{Ordered, make_plan-Ordered}
use pharae.Planner.Replan.{IsReset, replan-Ordered}
use pharae.Memory
use pharae.Memory.Tables.{MemorySystem, layer_named, reject_secrets}
use pharae.Memory.Secrets.{Scanner, scan_fields, scan_value, is_credential, is_truthy}
use pharae.Science.Theory.{
  Theory, TheoryLedger, TheoryStatus, new_theory, observe, require_theory, observed, promote,
  require_evidence, promotion_content, settle_promoted, is_settled, propose,
}
use pharae.Science.Theory.Soundness.{AllSound, propose-AllSound, observe-AllSound}
use pharae.Science.Theory.Promotion.{promote-AllSound}
use pharae.Thinking.{Hints, assess}
use pharae.Thinking.Plans.{make_plan-assess}
use pharae.Tests.Samples.{clock, task}

abbrev tools : Tools
tools = record {
  lower = λ s. s;
  has_word_start = λ k s. k == s;
  hexdigest = λ s. s;
  first_twelve = λ s. s;
}

abbrev intent : Intent
intent = record {
  id = "int-1";
  objective_id = "obj-1";
  goals = "test" ∷ "build" ∷ [];
  constraints = [];
  desired_outcomes = [];
  open_questions = [];
  context_refs = "README" ∷ [];
}

abbrev planner : Planner
planner = record { bus = none; clock = clock; ticks = 0 }

abbrev proof : Evidence
proof = record {
  id = "ev-1";
  run_id = "run-1";
  verified = true;
  confidence = float_half;
  logs = [];
  artifact_ids = [];
  test_results = [];
  reproducible = none;
  cost_report = [];
}

make_plan-Ordered_example :
    (is_empty intent.goals ≡ true → make_plan tools intent none planner ≡ err (no_goals "int-1" []))
    × (is_empty intent.goals ≡ false
        → (plan : Plan) × (p' : Planner) × (make_plan tools intent none planner ≡ ok (plan, p'))
          × Ordered [] plan.tasks)
make_plan-Ordered_example = make_plan-Ordered tools intent none planner

abbrev old_plan : Plan
old_plan = record {
  id = "plan-1";
  tasks = task "a" [] 0 ∷ task "b" ("a" ∷ []) 0 ∷ [];
  intent_id = none;
  provenance = none;
  created_at = clock 0;
}

not_both : false ≡ true → ⊥
not_both e = cc

other_id : ◌≡◌ {A = String} "a" "b" → ⊥
other_id e = not_both ((eq_iff "a" "b").1 e)

old_plan-Ordered : Ordered [] old_plan.tasks
old_plan-Ordered =
    (λ m. m, tt, (λ m. elim m [ inl e ↦ other_id e | inr later ↦ later ], (inl refl, tt), tt))

replan-Ordered_example :
    let open_ids = select (λ id. not (elem id ("a" ∷ []))) (task_ids old_plan.tasks) in
    (is_empty open_ids ≡ true
      → replan tools old_plan proof ("a" ∷ []) planner ≡ err (nothing_to_replan "plan-1"))
    × (is_empty open_ids ≡ false
        → (next : Plan) × (p' : Planner) × (replan tools old_plan proof ("a" ∷ []) planner
            ≡ ok (next, p'))
          × Ordered [] next.tasks
          × (task_ids next.tasks ≡ open_ids)
          × All (IsReset old_plan.tasks open_ids) next.tasks)
replan-Ordered_example = replan-Ordered tools old_plan proof ("a" ∷ []) planner old_plan-Ordered

abbrev new_ledger : TheoryLedger
new_ledger = record {
  bus = none;
  replication_threshold = 1;
  refutation_threshold = 2;
  theories = [];
}

new_ledger-AllSound : AllSound new_ledger
unfolding lookup
new_ledger-AllSound id t e = cc

abbrev pending_theory : Theory
pending_theory = new_theory "thy-1" "retries help"

abbrev ledger : TheoryLedger
ledger = record new_ledger { theories = ("thy-1", pending_theory) ∷ [] }

ledger_is : (propose "thy-1" "retries help" new_ledger).1 ≡ ledger
unfolding propose lookup insert
ledger_is = refl

ledger-AllSound : AllSound ledger
ledger-AllSound =
    subst AllSound ledger_is
      (propose-AllSound "thy-1" "retries help" new_ledger new_ledger-AllSound).0

abbrev supported : Theory
supported = record pending_theory {
  status = TheoryStatus.active;
  supporting = "ev-1" ∷ [];
  last_supporting_evidence = some proof;
}

abbrev seen_ledger : TheoryLedger
seen_ledger = record new_ledger { theories = ("thy-1", supported) ∷ [] }

seen : observe "thy-1" proof true ledger ≡ ok (supported, seen_ledger)
unfolding observe require_theory observed lookup insert
seen = refl

observe-AllSound_example :
    (proof.verified ≡ true)
    × AllSound seen_ledger
    × ((old : Theory)
        → lookup "thy-1" ledger.theories ≡ some old
        → is_settled old.status ≡ true
        → (supported ≡ old) × (seen_ledger ≡ ledger))
observe-AllSound_example = observe-AllSound "thy-1" proof true ledger ledger-AllSound seen

seen_ledger-AllSound : AllSound seen_ledger
seen_ledger-AllSound = (observe-AllSound "thy-1" proof true ledger ledger-AllSound seen).1

abbrev ratio : ℕ → ℕ → Float
ratio m n = float_half

abbrev scanner : Scanner
scanner = record { lower = λ s. s; is_secret = λ s. false }

abbrev store : MemorySystem
store = record {
  bus = none;
  items = [];
  last_seq = 0;
  working_rows = [];
  journal = [];
  decisions = [];
  clock = clock;
  ticks = 0;
}

abbrev kept : MemoryItem × MemorySystem
kept =
    Memory.store_item proof MemoryLayer.semantic (promotion_content ratio supported) "cog@v1" store

promotes :
    promote ratio scanner "thy-1" "cog@v1" seen_ledger store
    ≡ ok (kept.0, settle_promoted "thy-1" supported seen_ledger, kept.1)
unfolding promote require_theory require_evidence Memory.promote layer_named is_blank reject_secrets
    scan_fields scan_value is_credential is_truthy elem lookup
promotes = refl

promote-AllSound_example :
    AllSound (settle_promoted "thy-1" supported seen_ledger)
    × ((t : Theory) × (e : Evidence) × (lookup "thy-1" seen_ledger.theories ≡ some t)
        × (t.status ≡ TheoryStatus.active)
        × (1 ≤ length t.supporting)
        × (e.verified ≡ true)
        × In e.id t.supporting
        × (Memory.promote scanner e "semantic" (promotion_content ratio t) "cog@v1" store ≡ ok kept)
        × (lookup "thy-1" (settle_promoted "thy-1" supported seen_ledger).theories
            ≡ some (record t { status = TheoryStatus.promoted })))
promote-AllSound_example =
    promote-AllSound ratio scanner "thy-1" "cog@v1" seen_ledger store seen_ledger-AllSound promotes

abbrev hints : Hints
hints = record { is_research = λ s. s == "study"; is_trivial = λ s. s == "fix" }

make_plan-assess_example :
    make_plan tools intent (some (assess hints intent none).0.gather_context) planner
    ≡ make_plan tools intent none planner
make_plan-assess_example = make_plan-assess tools hints intent none planner
