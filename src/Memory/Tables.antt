-- ===== src/Memory/Tables.antt =====
-- The tables of nexus/memory/store.py, its errors and the checks in front of its writes.
use pharae.Base.{ℕ, String, Bool, Option, none, some, List, if◌then◌else◌, Result, ok, err, ◌==◌}
use pharae.Base.Pairs.{PairDict}
use pharae.Schemas.{
  Float, Value, Fields, MemoryLayer, working, episodic, semantic, procedural, failure, project,
  RoutingDecision,
}
use pharae.Kernel.Events.{EventBus}
use pharae.Memory.Secrets.{Scanner, Finding, scan_fields}

-- A row of `memory_items`.
pub record Row : Type 0 where
  pub seq : ℕ
  pub id : String
  pub layer : MemoryLayer
  pub content : Fields
  pub run_id : String
  pub evidence_id : String
  pub policy_id : String
  pub promoted_at : Float
  pub confidence : Float
  pub deprecated : Bool
  pub deprecated_reason : Option String
  pub deprecated_at : Option Float

-- A row of `policy_events`, without its number.
pub record PolicyEvent : Type 0 where
  pub kind : String
  pub version : ℕ
  pub status : String
  pub payload : Fields
  pub reason : String
  pub created_at : Float

-- `last_seq` is the number that the item inserted last was given.
pub record MemorySystem : Type 0 where
  pub bus : Option EventBus
  pub items : List Row
  pub last_seq : ℕ
  pub working_rows : PairDict (Value × Float)
  pub journal : List PolicyEvent
  pub decisions : List RoutingDecision
  pub clock : ℕ → Float
  pub ticks : ℕ

pub data MemoryError : Type 0 where
  unverified no_policy : MemoryError
  unknown_layer unknown_item : String → MemoryError
  not_promotable : MemoryLayer → MemoryError
  secret : Finding → MemoryError

-- `_layer`
unfoldable pub layer_named : String → Result MemoryError MemoryLayer
layer_named name =
    if name == "working"
    then ok working
    else if name == "episodic"
    then ok episodic
    else if name == "semantic"
    then ok semantic
    else if name == "procedural"
    then ok procedural
    else if name == "failure"
    then ok failure
    else if name == "project"
    then ok project
    else err (unknown_layer name)

-- `_reject_secrets`
unfoldable pub reject_secrets : Scanner → Fields → Result MemoryError (Unit {0})
reject_secrets scanner payload = elim (scan_fields scanner "" payload) [
  | none ↦ ok tt
  | some finding ↦ err (secret finding)
]

abbrev pub memory_now : MemorySystem → Float
memory_now m = m.clock m.ticks
