-- ===== src/Science/Theory.antt =====
-- nexus/science/theory.py. The id of a statement, which is cut from its SHA-256 digest, and the
-- quotient of two counts are arguments. `promote` takes the memory store and returns it.
pub mod Soundness
pub mod Promotion
use pharae.Base.{
  ℕ, ◌+◌, String, Bool, true, false, not, Option, none, some, List, [], ◌∷◌, ◌++◌, if◌then◌else◌,
  Result, ok, err, ◌>>=◌, ◌>>◌, raise_if, length, leb, eqb,
}
use pharae.Base.Dict.{Dict, lookup, insert}
use pharae.Base.Text.{◌⧺◌}
use pharae.Schemas.{
  Float, Value, Fields, field, no_field, float, str, nat, texts, Evidence, MemoryItem, float_zero,
}
use pharae.Kernel.Events.{EventBus, announce_to}
use pharae.Memory.Tables.{MemorySystem, MemoryError}
use pharae.Memory
use pharae.Memory.Secrets.{Scanner}

pub data TheoryStatus : Type 0 where
  pending active rejected promoted : TheoryStatus

abbrev pub status_value : TheoryStatus → String
status_value pending = "pending"
status_value active = "active"
status_value rejected = "rejected"
status_value promoted = "promoted"

abbrev pub is_settled : TheoryStatus → Bool
is_settled rejected = true
is_settled promoted = true
is_settled _ = false

abbrev pub is_active : TheoryStatus → Bool
is_active active = true
is_active _ = false

pub record Theory : Type 0 where
  pub id : String
  pub statement : String
  pub status : TheoryStatus
  pub supporting : List String
  pub refuting : List String
  pub last_supporting_evidence : Option Evidence

abbrev pub replications : Theory → ℕ
replications t = length t.supporting

-- `confidence`, with the quotient of two counts.
abbrev pub confidence : (ℕ → ℕ → Float) → Theory → Float
confidence ratio t =
    let total = length t.supporting + length t.refuting in
    if eqb total 0 then float_zero else ratio (length t.supporting) total

pub record TheoryLedger : Type 0 where
  pub bus : Option EventBus
  pub replication_threshold : ℕ
  pub refutation_threshold : ℕ
  pub theories : Dict Theory

pub data ScienceError : Type 0 where
  unverified_evidence no_evidence : ScienceError
  unknown_theory : String → ScienceError
  not_active : String → TheoryStatus → ScienceError
  memory_error : MemoryError → ScienceError

-- `_publish`
abbrev pub publish_theory : String → Theory → TheoryLedger → TheoryLedger
publish_theory topic t l = record l {
  bus = announce_to l.bus topic (
      ("theory_id", str t.id)
      ∷ ("status", str (status_value t.status))
      ∷ ("replications", nat (replications t))
      ∷ []);
}

abbrev pub put_theory : String → Theory → TheoryLedger → TheoryLedger
put_theory id t l = record l { theories = insert id t l.theories }

abbrev pub new_theory : String → String → Theory
new_theory id statement = record {
  id = id;
  statement = statement;
  status = pending;
  supporting = [];
  refuting = [];
  last_supporting_evidence = none;
}

-- `setdefault` and the event, on what is stored under the id.
unfoldable pub proposal :
    (id statement : String) → Option Theory → TheoryLedger → Theory × TheoryLedger
proposal id statement (some t) l = (t, publish_theory "theory.proposed" t l)
proposal id statement none l =
    let t = new_theory id statement in (t, publish_theory "theory.proposed" t (put_theory id t l))

-- `propose` of a statement with its id.
unfoldable pub propose : (id statement : String) → TheoryLedger → Theory × TheoryLedger
unfolding proposal
propose id statement l = proposal id statement (lookup id l.theories) l

-- `_require`
unfoldable pub require_theory : String → TheoryLedger → Result ScienceError Theory
require_theory id l = elim (lookup id l.theories) [ none ↦ err (unknown_theory id) | some t ↦ ok t ]

abbrev pub with_observation : Evidence → Bool → Theory → Theory
with_observation evidence supports t =
    if supports
    then record t {
      supporting = t.supporting ++ evidence.id ∷ [];
      last_supporting_evidence = some evidence;
    }
    else record t { refuting = t.refuting ++ evidence.id ∷ [] }

-- The status that the counts call for.
abbrev pub judged : ℕ → ℕ → Theory → Theory
judged replication refutation t =
    if leb refutation (length t.refuting)
    then record t { status = rejected }
    else if leb replication (replications t)
    then record t { status = active }
    else t

abbrev pub publish_rejection : Theory → TheoryLedger → TheoryLedger
publish_rejection t l =
    if leb l.refutation_threshold (length t.refuting)
    then publish_theory "theory.rejected" (record t { status = rejected }) l
    else l

-- `observe` of a theory that is not settled.
unfoldable pub observed : String → Evidence → Bool → Theory → TheoryLedger → Theory × TheoryLedger
observed id evidence supports t l =
    let seen = with_observation evidence supports t in
    let t' = judged l.replication_threshold l.refutation_threshold seen in
    (t', put_theory id t' (publish_rejection seen (publish_theory "theory.observed" seen l)))

abbrev pub observe_theory : String → Evidence → Bool → Theory → TheoryLedger → Theory × TheoryLedger
observe_theory id evidence supports t l =
    if is_settled t.status then (t, l) else observed id evidence supports t l

unfoldable pub observe :
    (id : String)
    → Evidence
    → (supports : Bool) → TheoryLedger
    → Result ScienceError (Theory × TheoryLedger)
observe id evidence supports l = do
  raise_if (not evidence.verified) unverified_evidence
  t ← require_theory id l
  ok (observe_theory id evidence supports t l)

unfoldable pub require_evidence : Theory → Result ScienceError Evidence
require_evidence t = elim t.last_supporting_evidence [ none ↦ err no_evidence | some e ↦ ok e ]

abbrev pub promotion_content : (ℕ → ℕ → Float) → Theory → Fields
promotion_content ratio t = field "theory" (str t.statement) (
    field "replications" (nat (replications t)) (
      field "confidence" (float (confidence ratio t))
        (field "supporting_evidence" (texts t.supporting) no_field)))

abbrev pub lift_memory : {A : Type 0} → Result MemoryError A → Result ScienceError A
lift_memory (ok a) = ok a
lift_memory (err e) = err (memory_error e)

abbrev pub settle_promoted : String → Theory → TheoryLedger → TheoryLedger
settle_promoted id t l =
    let t' = record t { status = promoted } in
    publish_theory "theory.promoted" t' (put_theory id t' l)

unfoldable pub promote :
    (ratio : ℕ → ℕ → Float)
    → Scanner
    → (id policy_id : String) → TheoryLedger
    → MemorySystem
    → Result ScienceError (MemoryItem × TheoryLedger × MemorySystem)
promote ratio scanner id policy_id l m = do
  t ← require_theory id l
  raise_if (not (is_active t.status)) (not_active id t.status)
  evidence ← require_evidence t
  stored ←
      lift_memory
        (Memory.promote scanner evidence "semantic" (promotion_content ratio t) policy_id m)
  ok (stored.0, settle_promoted id t l, stored.1)
