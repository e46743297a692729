-- ===== src/Capabilities/Registry/Records.antt =====
-- What `register` and `retire` of nexus/capabilities/registry.py do to the records.
use pharae.Base.{
  String, true, false, Option, some, ok, ◌≡◌, refl, sym, arith, Bool-cases, inl, inr, eq_refl,
  is_empty,
}
use pharae.Base.Pairs.{find_pair, find_pair-insert_pair, same_key}
use pharae.Schemas.{CapabilityManifest}
use pharae.Capabilities.Registry.{register, enrol, get_version}
use pharae.Capabilities.Registry.Entries.{
  CapabilityRegistry, CapabilityRecord, Probe, complaints, is_taken, active, unknown, is_registered,
  new_record,
}

-- The value that `register` returns, on each of its branches.
register-cases :
    (m : CapabilityManifest) (probe : Option Probe) (r : CapabilityRegistry) {id : String}
    {r' : CapabilityRegistry}
    → register m probe r ≡ ok (id, r')
    → (is_empty (complaints m r) ≡ true)
      × (is_taken (find_pair (m.name, m.version) r.records) ≡ false)
      × (enrol m probe r ≡ r')
unfolding register
register-cases m probe r h = elim (Bool-cases (is_empty (complaints m r))) [
  | inr bad ↦ absurd (ground arith)
  | inl fine ↦ elim (Bool-cases (is_taken (find_pair (m.name, m.version) r.records))) [
    | inl taken ↦ absurd (ground arith)
    | inr free ↦ (fine, free, ground arith)
  ]
]

-- A manifest is registered only if nothing is wrong with it and its version is not active already.
-- It is stored then as active and of unknown health, also where a retired version was, and every
-- other record is as it was.
pub get_version-register :
    (m : CapabilityManifest) (probe : Option Probe) (r : CapabilityRegistry) {id : String}
    {r' : CapabilityRegistry}
    → register m probe r ≡ ok (id, r')
    → (is_empty (complaints m r) ≡ true)
      × ((c : CapabilityRecord) × (get_version m.name m.version r' ≡ some c)
          × (c.manifest ≡ m)
          × (c.status ≡ active)
          × (c.health ≡ unknown))
      × ((name version : String)
          → same_key (m.name, m.version) (name, version) ≡ false
          → get_version name version r' ≡ get_version name version r)
      × ((c : CapabilityRecord)
          → get_version m.name m.version r ≡ some c
          → is_registered c.status ≡ false)
unfolding get_version enrol
get_version-register m probe r h =
    let (fine, free, stored) = register-cases m probe r h in
    let added = new_record m (r.clock r.ticks) in
    (
      fine,
      (
        added,
        rw (sym stored) (
            ground (
              arith,
              find_pair-insert_pair (m.name, m.version) (m.name, m.version) added r.records,
              eq_refl m.name,
              eq_refl m.version,
            )),
        refl,
        refl,
        refl,
      ),
      λ name version other. rw (sym stored) (
          ground
            (arith, find_pair-insert_pair (m.name, m.version) (name, version) added r.records)),
      λ c found. ground arith,
    )
