-- ===== src/Router/Rules.antt =====
-- The rules of nexus/router/router.py: what excludes a capability, its score, and the order of the
-- candidates.
use pharae.Base.{
  ℕ, String, Bool, true, false, ◌&&◌, ◌||◌, not, Option, none, some, is_some, List, [], ◌∷◌,
  if◌then◌else◌, map, elem, ◌==◌,
}
use pharae.Base.Text.{text_le}
use pharae.Schemas.{Float, Arithmetic, less, at_most, float_max, float_zero, float_tenth}
use pharae.Capabilities.Registry.Entries.{CapabilityRecord, HealthStatus, capability_id, is_healthy}
use pharae.Security.{rpartition}
use Prim.Native.Char.{Char, code}
use pharae.Base.Int.{ℤ, eqb_ℤ, leb_ℤ}
use pharae.Base.{eqb}

pub record RoutingPolicy : Type 0 where
  pub id : String
  pub require_healthy : Bool
  pub min_reliability : Float
  pub min_trust : Float
  pub max_cost : Option Float
  pub max_latency_ms : Option Float
  pub preferred : List String
  pub denied : List String
  pub w_reliability : Float
  pub w_trust : Float
  pub w_cost : Float
  pub w_latency : Float
  pub preference_bonus : Float

-- 0.4 and 0.25
abbrev float_two_fifths : Float
float_two_fifths = record { bits = 4600877379321698714 }

abbrev float_quarter : Float
float_quarter = record { bits = 4598175219545276416 }

-- `RoutingPolicy()`
abbrev pub default_policy : RoutingPolicy
default_policy = record {
  id = "default@1.0.0";
  require_healthy = false;
  min_reliability = float_zero;
  min_trust = float_zero;
  max_cost = none;
  max_latency_ms = none;
  preferred = [];
  denied = [];
  w_reliability = float_two_fifths;
  w_trust = float_two_fifths;
  w_cost = float_tenth;
  w_latency = float_tenth;
  preference_bonus = float_quarter;
}

-- What an exclusion's text shows.
pub data Exclusion : Type 0 where
  denied_by_policy unhealthy_capability : Exclusion
  not_healthy : HealthStatus → Exclusion
  low_reliability low_trust high_cost high_latency : Float → Float → Exclusion

abbrev pub is_unhealthy : HealthStatus → Bool
is_unhealthy HealthStatus.unhealthy = true
is_unhealthy _ = false

-- `limit is not None and value > limit`
abbrev pub exceeds : Option Float → Float → Bool
exceeds none value = false
exceeds (some limit) value = less limit value

abbrev limit_of : Option Float → Float
limit_of none = float_zero
limit_of (some limit) = limit

-- `_exclusion_reason`
unfoldable pub exclusion_reason : CapabilityRecord → RoutingPolicy → Option Exclusion
exclusion_reason r policy =
    let m = r.manifest in
    if elem m.name policy.denied
    then some denied_by_policy
    else if is_unhealthy r.health
    then some unhealthy_capability
    else if policy.require_healthy && not (is_healthy r.health)
    then some (not_healthy r.health)
    else if less m.reliability policy.min_reliability
    then some (low_reliability m.reliability policy.min_reliability)
    else if less m.trust_score policy.min_trust
    then some (low_trust m.trust_score policy.min_trust)
    else if exceeds policy.max_cost m.cost
    then some (high_cost m.cost (limit_of policy.max_cost))
    else if exceeds policy.max_latency_ms m.latency_ms
    then some (high_latency m.latency_ms (limit_of policy.max_latency_ms))
    else none

abbrev pub is_eligible : RoutingPolicy → CapabilityRecord → Bool
is_eligible policy r = not (is_some (exclusion_reason r policy))

-- `max` over the eligible records.
unfoldable pub largest : (CapabilityRecord → Float) → Float → List CapabilityRecord → Float
largest f best [] = best
largest f best (r ∷ rs) = largest f (float_max best (f r)) rs

abbrev pub maximum : (CapabilityRecord → Float) → List CapabilityRecord → Float
maximum f [] = float_zero
maximum f (r ∷ rs) = largest f (f r) rs

-- `value / most if most > 0 else 0.0`
abbrev pub share : Arithmetic → Float → Float → Float
share ar value most = if less float_zero most then ar.divide value most else float_zero

unfoldable pub score :
    Arithmetic → RoutingPolicy → (max_cost max_latency : Float) → CapabilityRecord → Float
score ar policy max_cost max_latency r =
    let m = r.manifest in
    let gain =
      ar.plus (ar.times policy.w_reliability m.reliability)
        (ar.times policy.w_trust m.trust_score) in
    let priced = ar.minus gain (ar.times policy.w_cost (share ar m.cost max_cost)) in
    let timed = ar.minus priced (ar.times policy.w_latency (share ar m.latency_ms max_latency)) in
    if elem m.name policy.preferred then ar.plus timed policy.preference_bonus else timed

-- `_score`
unfoldable pub scores :
    Arithmetic → RoutingPolicy → List CapabilityRecord → List (CapabilityRecord × Float)
unfolding score largest
scores ar policy eligible =
    let most = maximum (λ r. r.manifest.cost) eligible in
    let slowest = maximum (λ r. r.manifest.latency_ms) eligible in
    map (λ r. (r, score ar policy most slowest r)) eligible

-- The key `(-score, name, negated version)`.
abbrev pub same_float : Float → Float → Bool
same_float x y = at_most x y && at_most y x

-- `text.split(c)[0]`, by the code of the character.
unfoldable pub before : ℕ → String → String
before c String.[] = ""
before c (String.◌∷◌ x s) = if eqb (code x) c then "" else String.◌∷◌ x (before c s)

abbrev pub onto_first : Char → List String → List String
onto_first x [] = String.◌∷◌ x "" ∷ []
onto_first x (part ∷ parts) = String.◌∷◌ x part ∷ parts

-- `text.split(c)`
unfoldable pub split_on : ℕ → String → List String
split_on c String.[] = "" ∷ []
split_on c (String.◌∷◌ x s) =
    let rest = split_on c s in if eqb (code x) c then "" ∷ rest else onto_first x rest

abbrev pub with_part : Option ℤ → Option (List ℤ) → Option (List ℤ)
with_part (some n) (some ns) = some (n ∷ ns)
with_part _ _ = none

-- The numbers of the parts, by what `int` gives of a text, or none if it raises on one of them.
unfoldable pub int_parts : (String → Option ℤ) → List String → Option (List ℤ)
int_parts int_of [] = some []
int_parts int_of (part ∷ parts) = with_part (int_of part) (int_parts int_of parts)

-- `_version_key` of the text behind the last `@` of the id, which starts in the version if that
-- has an `@` of its own: up to the first `-` and the first `+`, by its dots.
unfoldable pub version_of : (String → Option ℤ) → CapabilityRecord → Option (List ℤ)
unfolding before split_on int_parts
version_of int_of r =
    int_parts int_of (split_on 46 (before 43 (before 45 (rpartition (capability_id r)).1)))

abbrev pub is_versioned : (String → Option ℤ) → CapabilityRecord → Bool
is_versioned int_of r = is_some (version_of int_of r)

-- The first record whose version raises.
unfoldable pub unreadable : (String → Option ℤ) → List CapabilityRecord → Option String
unreadable int_of [] = none
unreadable int_of (r ∷ rs) =
    if is_versioned int_of r then unreadable int_of rs else some (capability_id r)

abbrev pub parts_or_none : Option (List ℤ) → List ℤ
parts_or_none none = []
parts_or_none (some parts) = parts

-- The order of the negated tuples.
unfoldable pub negated_less : List ℤ → List ℤ → Bool
negated_less xs [] = false
negated_less [] (y ∷ ys) = true
negated_less (x ∷ xs) (y ∷ ys) =
    let later = negated_less xs ys in if eqb_ℤ x y then later else leb_ℤ y x

unfoldable pub key_less :
    (String → Option ℤ) → CapabilityRecord × Float → CapabilityRecord × Float → Bool
unfolding negated_less
key_less int_of a b =
    if same_float a.1 b.1
    then not (text_le b.0.manifest.name a.0.manifest.name)
      || (a.0.manifest.name == b.0.manifest.name
          && negated_less (parts_or_none (version_of int_of a.0))
              (parts_or_none (version_of int_of b.0)))
    else less b.1 a.1

abbrev pub choice_le :
    (String → Option ℤ) → CapabilityRecord × Float → CapabilityRecord × Float → Bool
choice_le int_of a b = not (key_less int_of b a)
