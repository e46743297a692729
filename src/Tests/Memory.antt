-- ===== src/Tests/Memory.antt =====
-- The memory store and the policy engine on small inputs.
use pharae.Base.{
  ℕ, String, ◌≡◌, refl, true, false, none, some, [], ◌∷◌, ok, if◌then◌else◌, elem, ◌==◌,
}
use pharae.Base.Pairs.{same_key, insert_pair}
use pharae.Base.Text.{is_blank, hex, decimal}
use pharae.Base.Dict.{get_or, lookup, insert}
use pharae.Schemas.{
  Value, Fields, field, no_field, str, Evidence, MemoryLayer, is_promotable, float_half,
}
use pharae.Memory.Secrets.{Scanner, Finding, scan_fields, scan_value, is_credential, is_truthy}
use pharae.Memory.Clean.{IsClean}
use pharae.Memory.{
  promote, store_item, write_working, read_working, find_row, deprecate, deprecate_row, item_id,
}
use pharae.Memory.Tables.{MemorySystem, layer_named, reject_secrets}
use pharae.Memory.Promotion.{Grows, promote-Grows}
use pharae.Memory.Working.{read_working-write_working}
use pharae.Cog.Policy.{propose, activate, rollback, line_of, require_policy, activated}
use pharae.Cog.Policy.Versions.{
  PolicyEngine, PolicyVersion, PolicyStatus, extend_line, activate_line, note_policy, find_version,
  active_version, set_version, supersede,
}
use pharae.Cog.Policy.Lines.Engine.{
  IsEngine, Installs, propose-IsEngine, activate-IsEngine, rollback-IsEngine,
}
use pharae.Tests.Samples.{clock}

abbrev scanner : Scanner
scanner = record { lower = λ s. s; is_secret = λ s. s == "ghp_0" }

abbrev proof : Evidence
proof = record {
  id = "ev-1";
  run_id = "run-1";
  verified = true;
  confidence = float_half;
  logs = [];
  artifact_ids = [];
  test_results = [];
  reproducible = none;
  cost_report = [];
}

abbrev empty_store : MemorySystem
empty_store = record {
  bus = none;
  items = [];
  last_seq = 0;
  working_rows = [];
  journal = [];
  decisions = [];
  clock = clock;
  ticks = 0;
}

abbrev lesson : Fields
lesson = field "lesson" (str "retry") no_field

-- A secret two levels down is found.
nested_secret :
    scan_fields scanner "" (field "a" (Value.dict (field "token" (str "x") no_field)) no_field)
    ≡ some (Finding.credential_key "token")
unfolding scan_fields scan_value is_credential is_truthy elem
nested_secret = refl

abbrev stored : MemorySystem
stored = (store_item proof MemoryLayer.semantic lesson "routing@v1" empty_store).1

promoted :
    promote scanner proof "semantic" lesson "routing@v1" empty_store
    ≡ ok (store_item proof MemoryLayer.semantic lesson "routing@v1" empty_store)
unfolding promote layer_named is_blank reject_secrets scan_fields scan_value is_credential is_truthy
    elem
promoted = refl

promote-Grows_example :
    (proof.verified ≡ true)
    × (is_blank "routing@v1" ≡ false)
    × ((resolved : MemoryLayer) × (layer_named "semantic" ≡ ok resolved)
        × (is_promotable resolved ≡ true))
    × IsClean scanner lesson
    × Grows proof "routing@v1" empty_store
        (store_item proof MemoryLayer.semantic lesson "routing@v1" empty_store)
promote-Grows_example =
    promote-Grows scanner proof "semantic" lesson "routing@v1" empty_store tt promoted

removed : deprecate "mem-00000001" "stale" stored ≡ ok (deprecate_row "mem-00000001" "stale" stored)
unfolding deprecate find_row store_item item_id hex
removed = refl

abbrev noted : MemorySystem
noted = record empty_store { working_rows = (("ses-1", "k"), (str "v", clock 0)) ∷ []; ticks = 1 }

written : write_working scanner "ses-1" "k" (str "v") empty_store ≡ ok noted
unfolding write_working reject_secrets scan_fields scan_value is_credential is_truthy elem
    insert_pair
written = refl

read_working-write_working_example :
    IsClean scanner (field "k" (str "v") no_field)
    × ((t j : String)
        → read_working t j noted
          ≡ (if same_key ("ses-1", "k") (t, j) then str "v" else read_working t j empty_store))
read_working-write_working_example =
    read_working-write_working scanner "ses-1" "k" (str "v") empty_store written

abbrev engine : PolicyEngine
engine = record { bus = none; sink = none; lines = []; clock = clock; ticks = 0 }

engine-IsEngine : IsEngine engine
unfolding get_or lookup
engine-IsEngine kind = record { numbered = tt; known = tt; alternates = tt; current = tt }

abbrev first : PolicyEngine
first = (propose "routing" [] "initial" engine).1

abbrev second : PolicyEngine
second = (propose "routing" [] "tuned" first).1

second-IsEngine : IsEngine second
second-IsEngine =
    propose-IsEngine "routing" [] "tuned" first
      (propose-IsEngine "routing" [] "initial" engine engine-IsEngine)

abbrev version : ℕ → PolicyEngine → PolicyVersion
version n e = elim (find_version n (line_of "routing" e).versions) [
  | some p ↦ p
  | none ↦ record {
    kind = "";
    version = 0;
    payload = [];
    status = PolicyStatus.proposed;
    reason = "";
    created_at = clock 0;
  }
]

abbrev one_active : PolicyVersion × PolicyEngine
one_active = activated "routing" (version 1 second) second

abbrev two_active : PolicyVersion × PolicyEngine
two_active = activated "routing" (version 2 one_active.1) one_active.1

to_one : activate "routing" 1 second ≡ ok one_active
unfolding activate require_policy find_version propose extend_line note_policy get_or lookup insert
to_one = refl

to_two : activate "routing" 2 one_active.1 ≡ ok two_active
unfolding to_one activate_line set_version supersede active_version decimal
to_two = refl

activate-IsEngine_example : Installs "routing" 1 one_active
activate-IsEngine_example = activate-IsEngine "routing" 1 second second-IsEngine to_one

two-IsEngine : IsEngine two_active.1
two-IsEngine =
    (activate-IsEngine "routing" 2 one_active.1
      (activate-IsEngine "routing" 1 second second-IsEngine to_one).0 to_two).0

two_on_stack : (line_of "routing" two_active.1).stack ≡ 2 ∷ 1 ∷ []
unfolding to_two
two_on_stack = refl

rollback-IsEngine_example :
    (r : PolicyVersion × PolicyEngine) × (rollback "routing" "worse" two_active.1 ≡ ok r)
    × Installs "routing" 1 r
    × ((line_of "routing" r.1).stack ≡ 1 ∷ [])
rollback-IsEngine_example =
    rollback-IsEngine "routing" "worse" 2 1 [] two_active.1 two-IsEngine two_on_stack
