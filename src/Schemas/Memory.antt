-- ===== src/Schemas/Memory.antt =====
-- nexus/schemas/memory.py and nexus/schemas/routing.py.
use pharae.Base.{String, Bool, true, false, Option, List}
use pharae.Schemas.Json.{Float, Fields}

pub data MemoryLayer : Type 0 where
  working episodic semantic procedural failure project : MemoryLayer

abbrev pub layer_value : MemoryLayer → String
layer_value working = "working"
layer_value episodic = "episodic"
layer_value semantic = "semantic"
layer_value procedural = "procedural"
layer_value failure = "failure"
layer_value project = "project"

-- `PROMOTABLE_LAYERS`
abbrev pub is_promotable : MemoryLayer → Bool
is_promotable working = false
is_promotable _ = true

pub record Provenance : Type 0 where
  pub run_id : String
  pub evidence_id : String
  pub policy_id : String
  pub promoted_at : Float

pub record MemoryItem : Type 0 where
  pub id : String
  pub layer : MemoryLayer
  pub content : Fields
  pub provenance : Option Provenance
  pub confidence : Float
  pub created_at : Float
  pub deprecated : Bool

pub record CandidateEvaluation : Type 0 where
  pub capability_id : String
  pub score : Option Float
  pub excluded : Option String

pub record RoutingDecision : Type 0 where
  pub id : String
  pub task_id : String
  pub capability_type : String
  pub policy_id : String
  pub candidates : List CandidateEvaluation
  pub chosen : Option String
  pub reason : String
  pub created_at : Float
