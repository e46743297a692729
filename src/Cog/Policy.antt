-- ===== src/Cog/Policy.antt =====
-- nexus/cog/policy.py. The versions of one kind and its activation stack, its top first, form a
-- `Line`; a returned copy is the stored value. `sink` is what the engine has handed to its sink.
pub mod Versions
pub mod Lines
use pharae.Base.{
  ℕ, suc, ◌+◌, String, Bool, true, false, Option, none, some, List, [], ◌∷◌, ◌++◌, if◌then◌else◌,
  Result, ok, err, ◌>>=◌, length, eqb,
}
use pharae.Base.Dict.{Dict, get_or, insert}
use pharae.Base.Text.{◌⧺◌, decimal}
use pharae.Schemas.{Float, Value, str}
use pharae.Kernel.Events.{EventBus, announce_to}
use pharae.Cog.Policy.Versions.{
  CogError, Line, PolicyEngine, PolicyStatus, PolicyVersion, activate_line, active, active_version,
  deprecate, deprecated, extend_line, find_version, hand_over, is_active, make_active, no_versions,
  note_policy, nothing_to_roll_back, policy_id, proposed, rollback_line, set_version, status_value,
  supersede, unknown_policy,
}

abbrev pub line_of : String → PolicyEngine → Line
line_of kind e = get_or kind no_versions e.lines

abbrev pub put_line : String → Line → PolicyEngine → PolicyEngine
put_line kind line e = record e { lines = insert kind line e.lines }

unfoldable pub propose : String → Dict Value → String → PolicyEngine → PolicyVersion × PolicyEngine
unfolding extend_line note_policy
propose kind payload reason e =
    let (policy, line) = extend_line kind payload reason (e.clock e.ticks) (line_of kind e) in
    (
      policy,
      note_policy policy "policy.proposed" (put_line kind line (record e { ticks = e.ticks + 1 })),
    )

unfoldable pub require_policy : String → ℕ → List PolicyVersion → Result CogError PolicyVersion
require_policy kind version versions = elim (find_version version versions) [
  | none ↦ err (unknown_policy kind version)
  | some policy ↦ ok policy
]

-- The record of the version that is superseded.
abbrev pub note_superseded : ℕ → Option PolicyVersion → PolicyEngine → PolicyEngine
note_superseded version none e = e
note_superseded version (some current) e =
    note_policy (deprecate ("superseded by v" ⧺ decimal version) current) "policy.deprecated" e

abbrev pub activated : String → PolicyVersion → PolicyEngine → PolicyVersion × PolicyEngine
activated kind policy e =
    let line = line_of kind e in
    if is_active policy.status then (policy, e) else (
      make_active policy,
      note_policy (make_active policy) "policy.activated" (
          note_superseded policy.version (active_version line.versions)
            (put_line kind (activate_line policy line) e)),
    )

unfoldable pub activate : String → ℕ → PolicyEngine → Result CogError (PolicyVersion × PolicyEngine)
activate kind version e = do
  policy ← require_policy kind version (line_of kind e).versions
  ok (activated kind policy e)

-- The outcome of a rollback from `current` to `restored`, which leaves `stack`.
abbrev pub rolled_back :
    String
    → String
    → PolicyVersion
    → PolicyVersion
    → List ℕ
    → PolicyEngine
    → PolicyVersion × PolicyEngine
rolled_back kind reason current restored stack e = (
  make_active restored,
  note_policy (make_active restored) "policy.rolled_back" (
      note_policy (deprecate ("rolled back: " ⧺ reason) current) "policy.deprecated"
        (put_line kind (rollback_line reason current restored stack (line_of kind e)) e)),
)

-- The statements of `rollback` behind the test of the stack. `current` is looked up before its
-- object is changed, and `restored` after it.
unfoldable pub roll_back_to :
    String
    → String
    → (top below : ℕ) → List ℕ
    → PolicyEngine
    → Result CogError (PolicyVersion × PolicyEngine)
roll_back_to kind reason top below rest e = do
  let versions = (line_of kind e).versions
  current ← require_policy kind top versions
  let gone = deprecate ("rolled back: " ⧺ reason) current
  restored ← require_policy kind below (set_version gone versions)
  ok (rolled_back kind reason current restored (below ∷ rest) e)

unfoldable pub roll_back_stack :
    String → String → List ℕ → PolicyEngine → Result CogError (PolicyVersion × PolicyEngine)
roll_back_stack kind reason (top ∷ below ∷ rest) e = roll_back_to kind reason top below rest e
roll_back_stack kind reason (top ∷ []) e = err (nothing_to_roll_back kind)
roll_back_stack kind reason [] e = err (nothing_to_roll_back kind)

unfoldable pub rollback :
    String → String → PolicyEngine → Result CogError (PolicyVersion × PolicyEngine)
rollback kind reason e = roll_back_stack kind reason (line_of kind e).stack e

-- `activate_if_improved`: what an experiment says is whether it improved, and why.
pub record Experiment : Type 0 where
  pub improved : Bool
  pub rationale : String

abbrev pub reject_trial : String → String → PolicyVersion → PolicyEngine → Bool × PolicyEngine
reject_trial kind rationale policy e =
    let line = line_of kind e in
    let noted = record policy { reason = "trial rejected: " ⧺ rationale } in
    (
      false,
      note_policy noted "policy.trial_rejected"
          (put_line kind (record line { versions = set_version noted line.versions }) e),
    )

unfoldable pub activate_if_improved :
    String → ℕ → Experiment → PolicyEngine → Result CogError (Bool × PolicyEngine)
activate_if_improved kind version x e =
    let accepted = activate kind version e >>= λ p. ok (true, p.1) in
    let refused = require_policy kind version (line_of kind e).versions >>= λ policy.
    ok (reject_trial kind x.rationale policy e) in
    if x.improved then accepted else refused

-- `active` and `history`
unfoldable pub active_policy : String → PolicyEngine → Option PolicyVersion
active_policy kind e = active_version (line_of kind e).versions

unfoldable pub history : String → PolicyEngine → List PolicyVersion
history kind e = (line_of kind e).versions
