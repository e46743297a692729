-- ===== src/Tests/Router.antt =====
-- The router on one capability.
use pharae.Base.{
  Option, if◌then◌else◌, ◌==◌, In, all_of, ok, err, refl, String, ◌≡◌, true, false, none, some, [],
  select,
}
use pharae.Base.Int.{ℤ, pos}
use pharae.Schemas.{RoutingDecision}
use pharae.Security.{rpartition}
use pharae.Capabilities.Registry.{find}
use pharae.Capabilities.Registry.Entries.{CapabilityRecord, capability_id}
use pharae.Router.{Router, bad_version, route}
use pharae.Router.Rules.{default_policy, is_eligible, is_versioned, version_of}
use pharae.Router.Choice.{IsRouted, route-IsAdmitted}
use pharae.Tests.Capabilities.{calc, crude, with_calc}
use pharae.Tests.Samples.{clock, task}

abbrev router : Router
router = record {
  policy = default_policy;
  bus = none;
  sink = some [];
  decisions = [];
  counter = 0;
  clock = clock;
}

-- `int` of the digits.
abbrev digit_of : String → Option ℤ
digit_of text = if text == "1" then some (pos 1) else if text == "0" then some (pos 0) else none

route-IsAdmitted_example :
    let eligible = select (is_eligible default_policy) (find "code" false false with_calc) in
    let routed =
      route crude digit_of (λ x. "excluded") (task "a" [] 0) default_policy with_calc router in
    (all_of (is_versioned digit_of) eligible ≡ false
      → (r : CapabilityRecord) × In r eligible
        × (version_of digit_of r ≡ none)
        × (routed ≡ err (bad_version (capability_id r))))
    × (all_of (is_versioned digit_of) eligible ≡ true
        → (result : RoutingDecision × Router) × (routed ≡ ok result)
          × IsRouted (task "a" [] 0) default_policy with_calc router result)
route-IsAdmitted_example =
    route-IsAdmitted crude digit_of (λ x. "excluded") (task "a" [] 0) default_policy with_calc
      router

-- An `@` in the version hides what stands before it.
hidden_version :
    version_of digit_of (record calc { manifest = record calc.manifest { version = "1.0.0-a@b" } })
    ≡ none
unfolding version_of rpartition
hidden_version = refl
