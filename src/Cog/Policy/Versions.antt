-- ===== src/Cog/Policy/Versions.antt =====
-- The versions of nexus/cog/policy.py, and what its operations do to those of one kind.
use pharae.Base.{
  ℕ, ◌+◌, String, Bool, true, false, Option, none, some, List, [], ◌∷◌, ◌++◌, if◌then◌else◌, length,
  eqb,
}
use pharae.Base.Dict.{Dict}
use pharae.Base.Text.{◌⧺◌, decimal}
use pharae.Schemas.{Float, Value, str}
use pharae.Kernel.Events.{EventBus, announce_to}

pub data PolicyStatus : Type 0 where
  proposed active deprecated : PolicyStatus

abbrev pub status_value : PolicyStatus → String
status_value proposed = "proposed"
status_value active = "active"
status_value deprecated = "deprecated"

abbrev pub is_active : PolicyStatus → Bool
is_active active = true
is_active _ = false

pub record PolicyVersion : Type 0 where
  pub kind : String
  pub version : ℕ
  pub payload : Dict Value
  pub status : PolicyStatus
  pub reason : String
  pub created_at : Float

abbrev pub policy_id : PolicyVersion → String
policy_id p = p.kind ⧺ "@v" ⧺ decimal p.version

pub record Line : Type 0 where
  pub versions : List PolicyVersion
  pub stack : List ℕ

abbrev pub no_versions : Line
no_versions = record { versions = []; stack = [] }

pub record PolicyEngine : Type 0 where
  pub bus : Option EventBus
  pub sink : Option (List PolicyVersion)
  pub lines : Dict Line
  pub clock : ℕ → Float
  pub ticks : ℕ

pub data CogError : Type 0 where
  nothing_to_roll_back : String → CogError
  unknown_policy : String → ℕ → CogError

-- `_record`: the snapshot for the sink, and the event.
abbrev pub hand_over : Option (List PolicyVersion) → PolicyVersion → Option (List PolicyVersion)
hand_over none p = none
hand_over (some taken) p = some (taken ++ p ∷ [])

unfoldable pub note_policy : PolicyVersion → String → PolicyEngine → PolicyEngine
note_policy p topic e = record e {
  sink = hand_over e.sink p;
  bus = announce_to e.bus topic (
      ("policy_id", str (policy_id p))
      ∷ ("status", str (status_value p.status))
      ∷ ("reason", str p.reason)
      ∷ []);
}

-- `_require`: the first version of that number.
unfoldable pub find_version : ℕ → List PolicyVersion → Option PolicyVersion
find_version v [] = none
find_version v (p ∷ ps) = if eqb p.version v then some p else find_version v ps

-- `_active_version`
unfoldable pub active_version : List PolicyVersion → Option PolicyVersion
active_version [] = none
active_version (p ∷ ps) = if is_active p.status then some p else active_version ps

-- A change of the stored object with that number.
unfoldable pub set_version : PolicyVersion → List PolicyVersion → List PolicyVersion
set_version changed [] = []
set_version changed (p ∷ ps) =
    if eqb p.version changed.version then changed ∷ ps else p ∷ set_version changed ps

abbrev pub deprecate : String → PolicyVersion → PolicyVersion
deprecate reason p = record p { status = deprecated; reason = reason }

abbrev pub make_active : PolicyVersion → PolicyVersion
make_active p = record p { status = active }

-- `propose` on a line.
unfoldable pub extend_line : String → Dict Value → String → Float → Line → PolicyVersion × Line
extend_line kind payload reason time line =
    let policy : PolicyVersion = record {
      kind = kind;
      version = length line.versions + 1;
      payload = payload;
      status = proposed;
      reason = reason;
      created_at = time;
    } in
    (policy, record line { versions = line.versions ++ policy ∷ [] })

-- The current version is superseded, if there is one.
unfoldable pub supersede : ℕ → Option PolicyVersion → Line → Line
unfolding set_version
supersede version none line = line
supersede version (some current) line = record line {
  versions = set_version (deprecate ("superseded by v" ⧺ decimal version) current) line.versions;
}

-- `activate` on a line, for a version that is not active.
unfoldable pub activate_line : PolicyVersion → Line → Line
unfolding supersede active_version
activate_line policy line =
    let cleared = supersede policy.version (active_version line.versions) line in
    record {
      versions = set_version (make_active policy) cleared.versions;
      stack = policy.version ∷ line.stack;
    }

-- `rollback` on a line whose stack has the top `current` and `restored` under it.
unfoldable pub rollback_line : String → PolicyVersion → PolicyVersion → List ℕ → Line → Line
unfolding set_version
rollback_line reason current restored stack line = record {
  versions =
      set_version (make_active restored)
        (set_version (deprecate ("rolled back: " ⧺ reason) current) line.versions);
  stack = stack;
}
