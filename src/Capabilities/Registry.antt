-- ===== src/Capabilities/Registry.antt =====
-- nexus/capabilities/registry.py. Stored and returned manifests are values, so every deep copy is
-- the value itself. A health probe is foreign code: it answers, or raises, by the time of its call.
pub mod Entries
pub mod Scores
pub mod Records
pub mod Health
use pharae.Base.{
  ℕ, zero, suc, ◌+◌, ◌*◌, ◌-◌, String, Bool, true, false, ◌&&◌, ◌||◌, not, Option, none, some, List,
  [], ◌∷◌, ◌++◌, if◌then◌else◌, Result, ok, err, ◌>>=◌, ◌>>◌, raise_if, is_empty, elem, select,
  sort_by, map, leb, ltb, eqb, ◌==◌,
}
use pharae.Base.Dict.{Dict}
use pharae.Base.Pairs.{PairDict, find_pair, insert_pair}
use pharae.Base.Text.{◌⧺◌, text_le}
use pharae.Schemas.{
  Float, Value, str, float, CapabilityManifest, Evidence, ManifestError, validate_manifest,
  error_if, Arithmetic, clamp, float_zero, float_one, float_fifth, float_tenth,
}
use pharae.Kernel.Events.{EventBus, announce_to}
use Prim.Native.Char.{code}
use Prim.Native.String
use pharae.Capabilities.Registry.Entries.{
  CapabilityRecord, CapabilityRegistry, Complaint, HealthStatus, Probe, RegistrationStatus,
  RegistryError, active, add_probe, already_registered, capability_id, complaints, health_value,
  healthy, invalid, is_healthy, is_in_vocabulary, is_registered, is_taken, new_record, not_allowed,
  permission_complaints, rejected, retired, same_health, unhealthy, unknown, unknown_capability,
  unknown_type, unverified,
}

-- `register` behind its checks.
unfoldable pub enrol : CapabilityManifest → Option Probe → CapabilityRegistry → CapabilityRegistry
enrol m probe r =
    let key : String × String = (m.name, m.version) in
    let added = new_record m (r.clock r.ticks) in
    record r {
      records = insert_pair key added r.records;
      probes = add_probe key probe r.probes;
      ticks = r.ticks + 1;
      bus = announce_to r.bus "capability.registered" (
          ("capability", str (capability_id added))
          ∷ ("capability_type", str m.capability_type)
          ∷ []);
    }

unfoldable pub register :
    CapabilityManifest
    → Option Probe
    → CapabilityRegistry
    → Result RegistryError (String × CapabilityRegistry)
register m probe r = do
  let found = complaints m r
  raise_if (not (is_empty found)) (rejected found)
  raise_if (is_taken (find_pair (m.name, m.version) r.records))
      (already_registered m.name m.version)
  ok (m.name ⧺ "@" ⧺ m.version, enrol m probe r)

-- `_require`
unfoldable pub require_record :
    String → String → CapabilityRegistry → Result RegistryError CapabilityRecord
require_record name version r = elim (find_pair (name, version) r.records) [
  | none ↦ err (unknown_capability name version)
  | some found ↦ ok found
]

-- The change of a stored record object.
abbrev pub put_record : String → String → CapabilityRecord → CapabilityRegistry → CapabilityRegistry
put_record name version changed r = record r {
  records = insert_pair (name, version) changed r.records;
}

abbrev pub publish_from : String → Dict Value → CapabilityRegistry → CapabilityRegistry
publish_from topic payload r = record r { bus = announce_to r.bus topic payload }

abbrev pub retire_record :
    String → String → CapabilityRecord → CapabilityRegistry → CapabilityRegistry
retire_record name version found r =
    publish_from "capability.retired" (("capability", str (capability_id found)) ∷ [])
      (put_record name version (record found { status = retired }) r)

unfoldable pub retire :
    String → String → CapabilityRegistry → Result RegistryError CapabilityRegistry
retire name version r = do
  found ← require_record name version r
  ok (if is_registered found.status then retire_record name version found r else r)

-- `get` with a version.
unfoldable pub get_version : String → String → CapabilityRegistry → Option CapabilityRecord
get_version name version r = find_pair (name, version) r.records

-- `int` on the digits in front of a text, and the rest behind them and one separator.
read_number : ℕ → String → ℕ × String
read_number n String.[] = (n, "")
read_number n (String.◌∷◌ c s) =
    let more = read_number (n * 10 + (code c - 48)) s in
    if leb 48 (code c) && leb (code c) 57 then more else (n, s)

-- `_version_key` of a version that `register` admits: three numbers.
unfoldable pub version_key : String → ℕ × ℕ × ℕ
unfolding read_number
version_key version =
    let (major, rest) = read_number 0 version in
    let (minor, end) = read_number 0 rest in (major, minor, (read_number 0 end).0)

abbrev pub key_le : ℕ × ℕ × ℕ → ℕ × ℕ × ℕ → Bool
key_le a b = ltb a.0 b.0 || (eqb a.0 b.0 && (ltb a.1 b.1 || (eqb a.1 b.1 && leb a.2 b.2)))

-- `max(..., key=...)`: the first of the largest.
unfoldable pub latest_of : CapabilityRecord → List CapabilityRecord → CapabilityRecord
latest_of best [] = best
latest_of best (r ∷ rs) =
    let smaller = key_le (version_key r.manifest.version) (version_key best.manifest.version) in
    latest_of (if smaller then best else r) rs

abbrev pub records_of : PairDict CapabilityRecord → List CapabilityRecord
records_of d = map (λ e. e.1) d

abbrev pub first_latest : List CapabilityRecord → Option CapabilityRecord
first_latest [] = none
first_latest (r ∷ rs) = some (latest_of r rs)

abbrev pub named : String → PairDict CapabilityRecord → List CapabilityRecord
named name d = map (λ e. e.1) (select (λ e. e.0.0 == name && is_registered e.1.status) d)

-- `get` without a version.
unfoldable pub get_latest : String → CapabilityRegistry → Option CapabilityRecord
get_latest name r = first_latest (named name r.records)

abbrev pub listing_le : CapabilityRecord → CapabilityRecord → Bool
listing_le a b =
    if a.manifest.name == b.manifest.name
    then key_le (version_key a.manifest.version) (version_key b.manifest.version)
    else text_le a.manifest.name b.manifest.name

unfoldable pub find :
    (capability_type : String) (healthy_only include_retired : Bool)
    → CapabilityRegistry
    → List CapabilityRecord
find capability_type healthy_only include_retired r = sort_by listing_le (
    select
      (λ c.
        c.manifest.capability_type == capability_type
        && ((include_retired || is_registered c.status)
            && (not healthy_only || is_healthy c.health)))
      (records_of r.records))
