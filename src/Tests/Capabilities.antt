-- ===== src/Tests/Capabilities.antt =====
-- The registry and the security guard on one capability.
use pharae.Base.{◌≡◌, refl, true, false, none, some, [], ◌∷◌, ok, err, ◌⊎◌, ◌↔◌, elem}
use pharae.Base.Pairs.{Key, same_key, find_pair, insert_pair}
use pharae.Base.Text.{is_blank}
use pharae.Schemas.{
  Task, CapabilityManifest, Evidence, Arithmetic, float_zero, float_half, in_unit,
  validate_manifest, is_semver, is_permission, less, at_most,
}
use pharae.Capabilities.Registry.{register, enrol, get_version, require_record}
use pharae.Capabilities.Registry.Entries.{
  CapabilityRegistry, CapabilityRecord, Probe, complaints, new_record,
}
use pharae.Capabilities.Registry.Scores.{record_outcome, scored, store_score, record_outcome_lem}
use pharae.Security.{Decision, SecurityPolicy, SecurityGuard, decide, check, rpartition, split_last}
use pharae.Security.Verdicts.{Overlap, decide_lem, check_lem}
use pharae.Tests.Samples.{clock, task}

abbrev pub manifest : CapabilityManifest
manifest = record {
  name = "calc";
  capability_type = "code";
  version = "1.0.0";
  description = "";
  input_schema = [];
  output_schema = [];
  permissions = "fs.write" ∷ [];
  constraints = [];
  cost = float_zero;
  latency_ms = float_zero;
  reliability = float_half;
  trust_score = float_zero;
  evidence_score = float_zero;
  confidence = float_zero;
  strengths = [];
}

abbrev evidence : Evidence
evidence = record {
  id = "ev-1";
  run_id = "run-1";
  verified = true;
  confidence = float_half;
  logs = [];
  artifact_ids = [];
  test_results = [];
  reproducible = none;
  cost_report = [];
}

-- An arithmetic whose sums leave the unit interval.
abbrev pub crude : Arithmetic
crude = record {
  plus = λ x y. record { bits = 4611686018427387904 };
  minus = λ x y. x;
  times = λ x y. y;
  divide = λ x y. x;
}

abbrev pub empty_registry : CapabilityRegistry
empty_registry = record {
  bus = none;
  allowed_permissions = some ("fs.write" ∷ []);
  known_types = none;
  records = [];
  probes = [];
  clock = clock;
  ticks = 0;
}

abbrev raising : Probe
raising = record { answer = λ t. err "OSError()" }

abbrev pub calc : CapabilityRecord
calc = new_record manifest (clock 0)

abbrev pub with_calc : CapabilityRegistry
with_calc = record empty_registry {
  records = (("calc", "1.0.0"), calc) ∷ [];
  probes = (("calc", "1.0.0"), raising) ∷ [];
  ticks = 1;
}

semver_short : is_semver "1.0" ≡ false
unfolding is_semver
semver_short = refl

semver_suffix : is_semver "10.2.0-rc.1" ≡ true
unfolding is_semver
semver_suffix = refl

permission_flat : is_permission "fs" ≡ false
unfolding is_permission
permission_flat = refl

registered : register manifest (some raising) empty_registry ≡ ok ("calc@1.0.0", with_calc)
unfolding register enrol complaints validate_manifest is_semver is_permission less at_most find_pair
    insert_pair elem is_blank
registered = refl

outcome :
    record_outcome crude "calc" "1.0.0" evidence true none with_calc
    ≡ ok (store_score "calc" "1.0.0" evidence (scored crude evidence true none calc) with_calc)
unfolding record_outcome require_record find_pair
outcome = refl

record_outcome_lem_example :
    let r' = store_score "calc" "1.0.0" evidence (scored crude evidence true none calc) with_calc in
    (evidence.verified ≡ true)
    × ((c c' : CapabilityRecord) × (find_pair ("calc", "1.0.0") with_calc.records ≡ some c)
        × (find_pair ("calc", "1.0.0") r'.records ≡ some c')
        × (in_unit c'.manifest.reliability ≡ true)
        × (in_unit c'.manifest.trust_score ≡ true)
        × (record c' {
          manifest = record c'.manifest {
            reliability = c.manifest.reliability;
            trust_score = c.manifest.trust_score;
          };
        }
            ≡ c))
    × ((key : Key)
        → same_key ("calc", "1.0.0") key ≡ false
        → find_pair key r'.records ≡ find_pair key with_calc.records)
record_outcome_lem_example =
    record_outcome_lem crude "calc" "1.0.0" evidence true none with_calc outcome

found_calc : find_pair ("calc", "1.0.0") with_calc.records ≡ some calc
unfolding find_pair
found_calc = refl

abbrev policy : SecurityPolicy
policy = record { denied = []; approval_permissions = "fs.write" ∷ []; approval_types = [] }

abbrev guard : SecurityGuard
guard = record { policy = policy; bus = none; approved = "calc@1.0.0" ∷ [] }

decide_lem_example :
    let verdict = (decide policy manifest).verdict in
    let denied = Overlap ("fs.write" ∷ []) [] in
    let needs = Overlap ("fs.write" ∷ []) ("fs.write" ∷ []) ⊎ (elem "code" [] ≡ true) in
    ((verdict ≡ Decision.deny) ↔ denied)
    × ((verdict ≡ Decision.require_approval) ↔ ((¬ denied) × needs))
    × ((verdict ≡ Decision.allow) ↔ ((¬ denied) × (¬ needs)))
decide_lem_example = decide_lem policy manifest

abbrev bound_task : Task
bound_task = record (task "a" [] 0) { capability_binding = some "calc@1.0.0" }

bound_version :
    get_version (rpartition "calc@1.0.0").0 (rpartition "calc@1.0.0").1 with_calc ≡ some calc
unfolding get_version rpartition split_last find_pair
bound_version = refl

check_lem_example :
    let verdict = (decide policy manifest).verdict in
    ((check bound_task with_calc guard).0 ≡ true) ↔ (
      (verdict ≡ Decision.allow)
      ⊎ ((verdict ≡ Decision.require_approval) × (elem "calc@1.0.0" ("calc@1.0.0" ∷ []) ≡ true)))
check_lem_example = check_lem bound_task "calc@1.0.0" calc with_calc guard refl refl bound_version
