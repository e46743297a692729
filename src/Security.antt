-- ===== src/Security.antt =====
-- nexus/security/policy.py. The sets of a policy are lists without an order that matters.
pub mod Verdicts
use pharae.Base.{
  String, Bool, true, false, ◌&&◌, ◌||◌, not, Option, none, some, List, [], ◌∷◌, if◌then◌else◌,
  is_empty, select, elem, sort_by, ◌==◌,
}
use pharae.Base.Text.{◌⧺◌, text_le}
use pharae.Schemas.{Task, CapabilityManifest, str}
use pharae.Kernel.Scheduler.{distinct}
use pharae.Kernel.Events.{EventBus, announce_to}
use pharae.Kernel.Runtime.Context.{is_empty_text}
use pharae.Capabilities.Registry.{get_version}
use pharae.Capabilities.Registry.Entries.{CapabilityRegistry, CapabilityRecord}
use Prim.Native.Char.{code}
use Prim.Native.String

pub data Decision : Type 0 where
  allow require_approval deny : Decision

-- What the reason's text shows.
pub data Reason : Type 0 where
  denied_permissions : List String → Reason
  needs_permissions : List String → Reason
  needs_type : String → Reason
  allowed_by_policy no_binding not_found approved_override : Reason

pub record Judgment : Type 0 where
  pub verdict : Decision
  pub reason : Reason

pub record SecurityPolicy : Type 0 where
  pub denied : List String
  pub approval_permissions : List String
  pub approval_types : List String

-- `set(a) & b`
abbrev pub common : List String → List String → List String
common perms set = select (λ p. elem p set) (distinct perms)

abbrev pub judge : Decision → Reason → Judgment
judge verdict reason = record { verdict = verdict; reason = reason }

unfoldable pub decide : SecurityPolicy → CapabilityManifest → Judgment
decide policy m =
    let denied = common m.permissions policy.denied in
    let needs = common m.permissions policy.approval_permissions in
    if not (is_empty denied)
    then judge Decision.deny (denied_permissions (sort_by text_le denied))
    else if not (is_empty needs) || elem m.capability_type policy.approval_types
    then judge Decision.require_approval (
        if not (is_empty needs)
        then needs_permissions (sort_by text_le needs)
        else needs_type m.capability_type)
    else judge Decision.allow allowed_by_policy

pub record SecurityGuard : Type 0 where
  pub policy : SecurityPolicy
  pub bus : Option EventBus
  pub approved : List String

-- `SecurityGuard.approve`
unfoldable pub approve : String → SecurityGuard → SecurityGuard
approve capability_id g = record g {
  approved = if elem capability_id g.approved then g.approved else capability_id ∷ g.approved;
  bus = announce_to g.bus "security.approved" (("capability", str capability_id) ∷ []);
}

-- `rpartition("@")`: the text before the last `@` and the text behind it, or none and all of it.
unfoldable pub split_last : String → Option (String × String)
split_last String.[] = none
split_last (String.◌∷◌ c s) = elim (split_last s) [
  | some parts ↦ some (String.◌∷◌ c parts.0, parts.1)
  | none ↦ if String.◌∷◌ c "" == "@" then some ("", s) else none
]

unfoldable pub rpartition : String → String × String
unfolding split_last
rpartition s = elim (split_last s) [ none ↦ ("", s) | some parts ↦ parts ]

-- The verdict's use in `check`.
unfoldable pub verdict_allows : String → SecurityGuard → Judgment → Bool × Reason
verdict_allows binding g j = elim j.verdict [
  | Decision.allow ↦ (true, j.reason)
  | Decision.require_approval ↦
      if elem binding g.approved then (true, approved_override) else (false, j.reason)
  | Decision.deny ↦ (false, j.reason)
]

unfoldable pub check_record : String → Option CapabilityRecord → SecurityGuard → Bool × Reason
check_record binding none g = (true, not_found)
check_record binding (some c) g = verdict_allows binding g (decide g.policy c.manifest)

unfoldable pub check_bound : String → CapabilityRegistry → SecurityGuard → Bool × Reason
unfolding rpartition
check_bound binding registry g =
    let (name, version) = rpartition binding in
    if is_empty_text binding
    then (true, no_binding)
    else check_record binding (get_version name version registry) g

-- `SecurityGuard.check`
unfoldable pub check : Task → CapabilityRegistry → SecurityGuard → Bool × Reason
check task registry g = elim task.capability_binding [
  | none ↦ (true, no_binding)
  | some binding ↦ check_bound binding registry g
]
