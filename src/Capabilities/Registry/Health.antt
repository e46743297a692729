-- ===== src/Capabilities/Registry/Health.antt =====
-- The health checks of nexus/capabilities/registry.py.
use pharae.Base.{
  ◌+◌, String, Bool, true, false, Option, none, some, List, [], ◌∷◌, if◌then◌else◌, Result, ok, err,
  ◌>>=◌, sort_by, map, ◌==◌, select, ◌≡◌, refl, sym, inl, inr, arith, Bool-cases, Option-cases,
  eq_refl,
}
use pharae.Base.Dict.{Dict, insert}
use pharae.Base.Pairs.{find_pair, Key, same_key, find_pair-insert_pair}
use pharae.Base.Text.{text_le}
use pharae.Schemas.{str}
use pharae.Kernel.Scheduler.{distinct}
use pharae.Capabilities.Registry.{require_record, put_record, publish_from, records_of}
use pharae.Capabilities.Registry.Entries.{
  CapabilityRegistry, CapabilityRecord, RegistryError, HealthStatus, unknown, healthy, unhealthy,
  same_health, health_value, capability_id, Probe, is_registered,
}

-- A probe that raises has found its capability unhealthy.
abbrev pub probe_health : Result String Bool → HealthStatus
probe_health (err raised) = unhealthy
probe_health (ok answer) = if answer then healthy else unhealthy

abbrev pub tick : CapabilityRegistry → CapabilityRegistry
tick r = record r { ticks = r.ticks + 1 }

-- The statements behind the probe's call.
unfoldable pub note_health :
    String → String → CapabilityRecord → HealthStatus → CapabilityRegistry → CapabilityRegistry
note_health name version found new r =
    let checked = record found { health_checked_at = some (r.clock r.ticks) } in
    if same_health new found.health
    then put_record name version checked (tick r)
    else publish_from "capability.health"
        (("capability", str (capability_id found)) ∷ ("health", str (health_value new)) ∷ [])
        (put_record name version (record checked { health = new }) (tick r))

abbrev pub probed :
    String
    → String
    → CapabilityRecord
    → Option Probe
    → CapabilityRegistry
    → HealthStatus × CapabilityRegistry
probed name version found none r = (found.health, r)
probed name version found (some probe) r =
    let new = probe_health (probe.answer (r.clock r.ticks)) in
    (new, note_health name version found new r)

unfoldable pub check_health :
    String → String → CapabilityRegistry → Result RegistryError (HealthStatus × CapabilityRegistry)
check_health name version r = do
  found ← require_record name version r
  ok (probed name version found (find_pair (name, version) r.probes) r)

abbrev pub key_text_le : Key × CapabilityRecord → Key × CapabilityRecord → Bool
key_text_le a b = if a.0.0 == b.0.0 then text_le a.0.1 b.0.1 else text_le a.0.0 b.0.0

unfoldable pub check_each :
    List (Key × CapabilityRecord)
    → Dict HealthStatus
    → CapabilityRegistry
    → Result RegistryError (Dict HealthStatus × CapabilityRegistry)
check_each [] out r = ok (out, r)
check_each ((key, c) ∷ rest) out r =
    check_health key.0 key.1 r >>= λ p. check_each rest (insert (capability_id c) p.0 out) p.1

-- `check_all_health`
unfoldable pub check_all_health :
    CapabilityRegistry → Result RegistryError (Dict HealthStatus × CapabilityRegistry)
check_all_health r = check_each (sort_by key_text_le r.records) [] r

-- `types`
unfoldable pub types : CapabilityRegistry → List String
types r = sort_by text_le (
    distinct (
      map (λ c. c.manifest.capability_type)
        (select (λ c. is_registered c.status) (records_of r.records))))

same_health_eq : (a b : HealthStatus) → same_health a b ≡ true → a ≡ b
same_health_eq unknown unknown h = refl
same_health_eq healthy healthy h = refl
same_health_eq unhealthy unhealthy h = refl
same_health_eq unknown healthy h = absurd (ground arith)
same_health_eq unknown unhealthy h = absurd (ground arith)
same_health_eq healthy unknown h = absurd (ground arith)
same_health_eq healthy unhealthy h = absurd (ground arith)
same_health_eq unhealthy unknown h = absurd (ground arith)
same_health_eq unhealthy healthy h = absurd (ground arith)

-- What a check leaves behind.
abbrev pub IsChecked :
    String
    → String
    → CapabilityRecord
    → HealthStatus
    → CapabilityRegistry
    → CapabilityRegistry
    → Type 0
IsChecked name version c health r r' =
    ((c' : CapabilityRecord) × (find_pair (name, version) r'.records ≡ some c')
      × (c'.health ≡ health)
      × (c'.status ≡ c.status)
      × (c'.manifest ≡ c.manifest))
    × ((key : Key)
        → same_key (name, version) key ≡ false
        → find_pair key r'.records ≡ find_pair key r.records)

note_health-IsChecked :
    (name version : String) (c : CapabilityRecord) (new : HealthStatus) (r : CapabilityRegistry)
    → IsChecked name version c new r (note_health name version c new r)
unfolding note_health
note_health-IsChecked name version c new r =
    let checked : CapabilityRecord = record c { health_checked_at = some (r.clock r.ticks) } in
    let here =
      λ (d : CapabilityRecord). find_pair-insert_pair (name, version) (name, version) d r.records in
    elim (Bool-cases (same_health new c.health)) [
      | inl same ↦ rw same (
        (
          checked,
          ground (arith, here checked, eq_refl name, eq_refl version),
          sym (same_health_eq new c.health same),
          refl,
          refl,
        ),
        λ key other. ground (arith, find_pair-insert_pair (name, version) key checked r.records),
      )
      | inr changed ↦
          let moved : CapabilityRecord = record checked { health = new } in
          rw changed (
            (moved, ground (arith, here moved, eq_refl name, eq_refl version), refl, refl, refl),
            λ key other. ground (arith, find_pair-insert_pair (name, version) key moved r.records),
          )
    ]

-- A health check of a stored capability never raises, whatever its probe does. It returns the
-- health that is stored then, and changes nothing else but the time of the check; without a probe
-- that is the health as it was, and a probe that raises counts as unhealthy.
pub check_health-IsChecked :
    (name version : String) (c : CapabilityRecord) (r : CapabilityRegistry)
    → find_pair (name, version) r.records ≡ some c
    → (health : HealthStatus) × (r' : CapabilityRegistry) × (check_health name version r
        ≡ ok (health, r'))
      × (find_pair (name, version) r.probes ≡ none → health ≡ c.health)
      × ((probe : Probe) (raised : String)
          → find_pair (name, version) r.probes ≡ some probe
          → probe.answer (r.clock r.ticks) ≡ err raised
          → health ≡ unhealthy)
      × IsChecked name version c health r r'
unfolding check_health require_record
check_health-IsChecked name version c r found =
    elim (Option-cases (find_pair (name, version) r.probes)) [
      | inl no_probe ↦ (
        c.health,
        r,
        ground arith,
        λ e. refl,
        λ probe raised e. cc,
        ((c, found, refl, refl, refl), λ key other. refl),
      )
      | inr (probe, has) ↦
          let new = probe_health (probe.answer (r.clock r.ticks)) in
          (
            new,
            note_health name version c new r,
            ground arith,
            λ e. cc,
            λ probe' raised e raises. ground arith,
            note_health-IsChecked name version c new r,
          )
    ]
