-- ===== src/Capabilities/Registry/Entries.antt =====
-- The entries of nexus/capabilities/registry.py, and the complaints about a manifest.
use pharae.Base.{
  ℕ, String, Bool, true, false, not, Option, none, some, List, [], ◌∷◌, ◌++◌, Result, elem, map,
  ◌==◌,
}
use pharae.Base.Pairs.{PairDict, insert_pair}
use pharae.Base.Text.{◌⧺◌}
use pharae.Schemas.{Float, CapabilityManifest, ManifestError, validate_manifest, error_if}
use pharae.Kernel.Events.{EventBus}

pub data RegistrationStatus : Type 0 where
  active retired : RegistrationStatus

pub data HealthStatus : Type 0 where
  unknown healthy unhealthy : HealthStatus

abbrev pub is_registered : RegistrationStatus → Bool
is_registered active = true
is_registered retired = false

abbrev pub is_healthy : HealthStatus → Bool
is_healthy healthy = true
is_healthy _ = false

abbrev pub health_value : HealthStatus → String
health_value unknown = "unknown"
health_value healthy = "healthy"
health_value unhealthy = "unhealthy"

abbrev pub same_health : HealthStatus → HealthStatus → Bool
same_health a b = health_value a == health_value b

pub record CapabilityRecord : Type 0 where
  pub manifest : CapabilityManifest
  pub status : RegistrationStatus
  pub health : HealthStatus
  pub registered_at : Float
  pub health_checked_at : Option Float

abbrev pub capability_id : CapabilityRecord → String
capability_id r = r.manifest.name ⧺ "@" ⧺ r.manifest.version

pub record Probe : Type 0 where
  pub answer : Float → Result String Bool

-- `clock` holds the readings of `time.time()`, and `ticks` counts them.
pub record CapabilityRegistry : Type 0 where
  pub bus : Option EventBus
  pub allowed_permissions : Option (List String)
  pub known_types : Option (List String)
  pub records : PairDict CapabilityRecord
  pub probes : PairDict Probe
  pub clock : ℕ → Float
  pub ticks : ℕ

-- What is wrong with a manifest, and the exceptions.
pub data Complaint : Type 0 where
  invalid : ManifestError → Complaint
  unknown_type not_allowed : String → Complaint

pub data RegistryError : Type 0 where
  rejected : List Complaint → RegistryError
  already_registered unknown_capability : String → String → RegistryError
  unverified : RegistryError

abbrev pub is_in_vocabulary : Option (List String) → String → Bool
is_in_vocabulary none word = true
is_in_vocabulary (some words) word = elem word words

abbrev pub permission_complaints : Option (List String) → List String → List Complaint
permission_complaints allowed [] = []
permission_complaints allowed (perm ∷ perms) =
    error_if (not (is_in_vocabulary allowed perm)) (not_allowed perm)
    ++ permission_complaints allowed perms

-- The errors that `register` collects.
unfoldable pub complaints : CapabilityManifest → CapabilityRegistry → List Complaint
complaints m r =
    map invalid (validate_manifest m)
    ++ error_if (not (is_in_vocabulary r.known_types m.capability_type))
        (unknown_type m.capability_type)
    ++ permission_complaints r.allowed_permissions m.permissions

abbrev pub is_taken : Option CapabilityRecord → Bool
is_taken none = false
is_taken (some existing) = is_registered existing.status

abbrev pub new_record : CapabilityManifest → Float → CapabilityRecord
new_record m time = record {
  manifest = m;
  status = active;
  health = unknown;
  registered_at = time;
  health_checked_at = none;
}

abbrev pub add_probe : String × String → Option Probe → PairDict Probe → PairDict Probe
add_probe key none probes = probes
add_probe key (some probe) probes = insert_pair key probe probes
