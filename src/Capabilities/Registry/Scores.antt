-- ===== src/Capabilities/Registry/Scores.antt =====
-- `record_outcome` of nexus/capabilities/registry.py.
use pharae.Base.{
  String, Bool, true, false, not, Option, none, some, List, [], ◌∷◌, if◌then◌else◌, Result, ok,
  ◌>>=◌, raise_if, ◌>>◌, sym, eq_refl, ◌≡◌, refl, arith, Bool-cases, Option-cases, inl, inr,
}
use pharae.Base.Pairs.{find_pair, find_pair-insert_pair, same_key, Key}
use pharae.Schemas.{
  Float, Value, str, float, Evidence, Arithmetic, clamp, clamp-in_unit, in_unit, float_zero,
  float_one, float_fifth, float_tenth,
}
use pharae.Capabilities.Registry.{require_record, put_record, publish_from}
use pharae.Capabilities.Registry.Entries.{
  CapabilityRegistry, CapabilityRecord, RegistryError, unverified, capability_id,
}

abbrev pub reliability_target : Bool → Float
reliability_target success = if success then float_one else float_zero

abbrev pub reward_or : Option Float → Float → Float
reward_or none confidence = confidence
reward_or (some reward) confidence = clamp reward

abbrev pub trust_target : Bool → Option Float → Evidence → Float
trust_target success reward evidence =
    if success then reward_or reward evidence.confidence else float_zero

-- `_clamp(old + alpha * (target - old))`
unfoldable pub moved : Arithmetic → (alpha target old : Float) → Float
moved ar alpha target old = clamp (ar.plus old (ar.times alpha (ar.minus target old)))

unfoldable pub scored :
    Arithmetic → Evidence → Bool → Option Float → CapabilityRecord → CapabilityRecord
unfolding moved
scored ar evidence success reward c = record c {
  manifest = record c.manifest {
    reliability = moved ar float_fifth (reliability_target success) c.manifest.reliability;
    trust_score =
        moved ar float_tenth (trust_target success reward evidence) c.manifest.trust_score;
  };
}

abbrev pub scored_payload : Evidence → CapabilityRecord → List (String × Value)
scored_payload evidence c =
    ("capability", str (capability_id c))
    ∷ ("reliability", float c.manifest.reliability)
    ∷ ("trust_score", float c.manifest.trust_score)
    ∷ ("evidence_id", str evidence.id)
    ∷ []

abbrev pub store_score :
    String → String → Evidence → CapabilityRecord → CapabilityRegistry → CapabilityRegistry
store_score name version evidence c r =
    publish_from "capability.scored" (scored_payload evidence c) (put_record name version c r)

unfoldable pub record_outcome :
    Arithmetic
    → (name version : String) → Evidence
    → (success : Bool) → (reward : Option Float) → CapabilityRegistry
    → Result RegistryError CapabilityRegistry
record_outcome ar name version evidence success reward r = do
  raise_if (not evidence.verified) unverified
  found ← require_record name version r
  ok (store_score name version evidence (scored ar evidence success reward found) r)

-- What it takes for an outcome to be recorded, and what is then stored.
record_outcome-ok :
    (ar : Arithmetic) (name version : String) (evidence : Evidence) (success : Bool)
    (reward : Option Float) (r : CapabilityRegistry) {r' : CapabilityRegistry}
    → record_outcome ar name version evidence success reward r ≡ ok r'
    → (evidence.verified ≡ true)
      × ((c : CapabilityRecord) × (find_pair (name, version) r.records ≡ some c)
          × (store_score name version evidence (scored ar evidence success reward c) r ≡ r'))
unfolding record_outcome require_record
record_outcome-ok ar name version evidence success reward r h =
    elim (Bool-cases evidence.verified) [
      | inr bad ↦ absurd (ground arith)
      | inl verified ↦ elim (Option-cases (find_pair (name, version) r.records)) [
        | inl missing ↦ absurd (ground arith)
        | inr (c, found) ↦ (verified, (c, found, ground arith))
      ]
    ]

-- Only verified evidence moves a score. Then both scores of the capability lie in the unit
-- interval whatever the arithmetic, the reward and the confidence are, the rest of its record, its
-- manifest's other fields included, is as it was, and so is every other record.
pub record_outcome_lem :
    (ar : Arithmetic) (name version : String) (evidence : Evidence) (success : Bool)
    (reward : Option Float) (r : CapabilityRegistry) {r' : CapabilityRegistry}
    → record_outcome ar name version evidence success reward r ≡ ok r'
    → (evidence.verified ≡ true)
      × ((c c' : CapabilityRecord) × (find_pair (name, version) r.records ≡ some c)
          × (find_pair (name, version) r'.records ≡ some c')
          × (in_unit c'.manifest.reliability ≡ true)
          × (in_unit c'.manifest.trust_score ≡ true)
          × (record c' {
            manifest = record c'.manifest {
              reliability = c.manifest.reliability;
              trust_score = c.manifest.trust_score;
            };
          }
              ≡ c))
      × ((key : Key)
          → same_key (name, version) key ≡ false
          → find_pair key r'.records ≡ find_pair key r.records)
unfolding scored moved
record_outcome_lem ar name version evidence success reward r h =
    let (verified, (c, found, stored)) =
      record_outcome-ok ar name version evidence success reward r h in
    let changed = scored ar evidence success reward c in
    (
      verified,
      (
        c,
        changed,
        found,
        rw (sym stored) (
            ground (
              arith,
              find_pair-insert_pair (name, version) (name, version) changed r.records,
              eq_refl name,
              eq_refl version,
            )),
        clamp-in_unit _,
        clamp-in_unit _,
        refl,
      ),
      λ key other.
          rw (sym stored)
            (ground (arith, find_pair-insert_pair (name, version) key changed r.records)),
    )
