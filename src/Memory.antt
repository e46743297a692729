-- ===== src/Memory.antt =====
-- nexus/memory/store.py. A table is the list of its rows in the order of `seq`. A payload is JSON
-- already, so it is serialised without an error and is read back as it was.
pub mod Tables
pub mod Secrets
pub mod Promotion
pub mod Deprecation
pub mod Working
pub mod Clean
use pharae.Base.{
  ℕ, suc, ◌+◌, String, Bool, true, false, ◌&&◌, ◌||◌, not, Option, none, some, is_some, List, [],
  ◌∷◌, ◌++◌, if◌then◌else◌, Result, ok, err, ◌>>=◌, ◌>>◌, raise_if, select, map, sort_by, ◌==◌,
}
use pharae.Base.Pairs.{PairDict, Key, find_pair, insert_pair}
use pharae.Base.Text.{◌⧺◌, hex, is_blank, text_le}
use pharae.Base.Dict.{Dict}
use pharae.Schemas.{
  Float, Value, null, Fields, no_field, field, str, Evidence, MemoryLayer, MemoryItem, Provenance,
  layer_value, is_promotable, working, episodic, semantic, procedural, failure, project,
  RoutingDecision,
}
use pharae.Kernel.Events.{EventBus, announce_to}
use pharae.Memory.Secrets.{Scanner, Finding, scan_fields}
use pharae.Memory.Tables.{
  MemoryError, MemorySystem, PolicyEvent, Row, layer_named, memory_now, no_policy, not_promotable,
  reject_secrets, secret, unknown_item, unknown_layer, unverified,
}

unfoldable pub write_working :
    Scanner → (session_id key : String) → Value → MemorySystem → Result MemoryError MemorySystem
write_working scanner session_id key value m = do
  reject_secrets scanner (field key value no_field)
  ok (record m {
    working_rows = insert_pair (session_id, key) (value, memory_now m) m.working_rows;
    ticks = m.ticks + 1;
  })

-- `read_working` with a key.
unfoldable pub read_working : (session_id key : String) → MemorySystem → Value
read_working session_id key m = elim (find_pair (session_id, key) m.working_rows) [
  | none ↦ null
  | some row ↦ row.0
]

-- `read_working` without a key, in the order of the keys.
unfoldable pub read_session : String → MemorySystem → Dict Value
read_session session_id m =
    sort_by (λ a b. text_le a.0 b.0)
      (map (λ e. (e.0.1, e.1.0)) (select (λ e. e.0.0 == session_id) m.working_rows))

unfoldable pub clear_session : String → MemorySystem → MemorySystem
clear_session session_id m = record m {
  working_rows = select (λ e. not (e.0.0 == session_id)) m.working_rows;
}

unfoldable pub item_id : ℕ → String
item_id seq = "mem-" ⧺ hex 8 seq

-- `_row_to_item`
abbrev pub row_item : Row → MemoryItem
row_item row = record {
  id = row.id;
  layer = row.layer;
  content = row.content;
  provenance = some (record {
    run_id = row.run_id;
    evidence_id = row.evidence_id;
    policy_id = row.policy_id;
    promoted_at = row.promoted_at;
  });
  confidence = row.confidence;
  created_at = row.promoted_at;
  deprecated = row.deprecated;
}

-- The row that `promote` inserts.
abbrev pub promoted_row : Evidence → MemoryLayer → Fields → String → ℕ → Float → Row
promoted_row evidence layer content policy_id seq time = record {
  seq = seq;
  id = item_id seq;
  layer = layer;
  content = content;
  run_id = evidence.run_id;
  evidence_id = evidence.id;
  policy_id = policy_id;
  promoted_at = time;
  confidence = evidence.confidence;
  deprecated = false;
  deprecated_reason = none;
  deprecated_at = none;
}

-- `promote` behind its gates.
unfoldable pub store_item :
    Evidence → MemoryLayer → Fields → String → MemorySystem → MemoryItem × MemorySystem
store_item evidence layer content policy_id m =
    let row = promoted_row evidence layer content policy_id (m.last_seq + 1) (memory_now m) in
    (
      row_item row,
      record m {
        items = m.items ++ row ∷ [];
        last_seq = m.last_seq + 1;
        ticks = m.ticks + 1;
        bus = announce_to m.bus "memory.promoted" (
            ("item_id", str row.id)
            ∷ ("layer", str (layer_value layer))
            ∷ ("policy_id", str policy_id)
            ∷ []);
      },
    )

unfoldable pub promote :
    Scanner
    → Evidence
    → (layer : String) → (content : Fields) → (policy_id : String) → MemorySystem
    → Result MemoryError (MemoryItem × MemorySystem)
promote scanner evidence layer content policy_id m = do
  raise_if (not evidence.verified) unverified
  raise_if (is_blank policy_id) no_policy
  resolved ← layer_named layer
  raise_if (not (is_promotable resolved)) (not_promotable resolved)
  reject_secrets scanner content
  ok (store_item evidence resolved content policy_id m)

-- `SELECT ... WHERE id = ?`: the first row with the id.
unfoldable pub find_row : String → List Row → Option Row
find_row id [] = none
find_row id (row ∷ rows) = if row.id == id then some row else find_row id rows

-- `UPDATE ... WHERE id = ?`
unfoldable pub mark_deprecated : String → String → Float → List Row → List Row
mark_deprecated id reason time [] = []
mark_deprecated id reason time (row ∷ rows) =
    (if row.id == id
      then record row {
        deprecated = true;
        deprecated_reason = some reason;
        deprecated_at = some time;
      }
      else row)
    ∷ mark_deprecated id reason time rows

abbrev pub deprecate_row : String → String → MemorySystem → MemorySystem
deprecate_row id reason m = record m {
  items = mark_deprecated id reason (memory_now m) m.items;
  ticks = m.ticks + 1;
  bus = announce_to m.bus "memory.deprecated" (("item_id", str id) ∷ ("reason", str reason) ∷ []);
}

unfoldable pub deprecate : (id reason : String) → MemorySystem → Result MemoryError MemorySystem
deprecate id reason m = elim (find_row id m.items) [
  | none ↦ err (unknown_item id)
  | some row ↦ ok (if row.deprecated then m else deprecate_row id reason m)
]

-- `read`
abbrev pub is_readable : MemoryLayer → Bool → Row → Bool
is_readable layer include_deprecated row =
    (layer_value row.layer == layer_value layer) && (include_deprecated || not row.deprecated)

unfoldable pub read :
    (layer : String) (include_deprecated : Bool)
    → MemorySystem
    → Result MemoryError (List MemoryItem)
read layer include_deprecated m = do
  resolved ← layer_named layer
  ok (map row_item (select (is_readable resolved include_deprecated) m.items))

-- `provenance`
unfoldable pub provenance : String → MemorySystem → Result MemoryError Provenance
provenance id m = elim (find_row id m.items) [
  | none ↦ err (unknown_item id)
  | some row ↦ ok (record {
    run_id = row.run_id;
    evidence_id = row.evidence_id;
    policy_id = row.policy_id;
    promoted_at = row.promoted_at;
  })
]

unfoldable pub record_policy_event : PolicyEvent → MemorySystem → MemorySystem
record_policy_event event m = record m { journal = m.journal ++ event ∷ [] }

unfoldable pub policy_events : Option String → MemorySystem → List PolicyEvent
policy_events none m = m.journal
policy_events (some kind) m = select (λ e. e.kind == kind) m.journal

unfoldable pub record_routing_decision : RoutingDecision → MemorySystem → MemorySystem
record_routing_decision decision m = record m { decisions = m.decisions ++ decision ∷ [] }

abbrev pub routing_decisions : MemorySystem → List RoutingDecision
routing_decisions m = m.decisions
