-- ===== src/Schemas/Capability.antt =====
-- nexus/schemas/capability.py. The regular expressions are written as the automata that they
-- denote; `\d` is read as the ASCII digits. A validation error is a constructor that holds what its
-- message shows.
use pharae.Base.{
  ℕ, zero, suc, String, Bool, true, false, ◌&&◌, ◌||◌, not, List, [], ◌∷◌, ◌++◌, if◌then◌else◌, eqb,
  leb, ◌==◌,
}
use pharae.Base.Dict.{Dict}
use pharae.Base.Text.{is_blank}
use pharae.Schemas.Json.{Float, Value}
use pharae.Schemas.Floats.{less, in_unit, float_zero}
use Prim.Native.Char.{code}

pub record CapabilityManifest : Type 0 where
  pub name : String
  pub capability_type : String
  pub version : String
  pub description : String
  pub input_schema : Dict Value
  pub output_schema : Dict Value
  pub permissions : List String
  pub constraints : Dict Value
  pub cost : Float
  pub latency_ms : Float
  pub reliability : Float
  pub trust_score : Float
  pub evidence_score : Float
  pub confidence : Float
  pub strengths : List String

abbrev is_digit : ℕ → Bool
is_digit c = leb 48 c && leb c 57

abbrev is_lower : ℕ → Bool
is_lower c = leb 97 c && leb c 122

abbrev is_word : ℕ → Bool
is_word c = is_lower c || (is_digit c || eqb c 95)

-- `.+$`: at least one character that is not a line feed, and a line feed at most at the end.
is_rest : (seen : Bool) → String → Bool
is_rest seen String.[] = seen
is_rest seen (String.◌∷◌ c String.[]) = seen || not (eqb (code c) 10)
is_rest seen (String.◌∷◌ c (String.◌∷◌ d s)) =
    not (eqb (code c) 10) && is_rest true (String.◌∷◌ d s)

-- `([-+].+)?$`
is_suffix : String → Bool
is_suffix String.[] = true
is_suffix (String.◌∷◌ c s) =
    (eqb (code c) 10 && is_end s) || ((eqb (code c) 45 || eqb (code c) 43) && is_rest false s)
  where
    is_end : String → Bool
    is_end String.[] = true
    is_end (String.◌∷◌ d t) = false

-- `\d+` followed by `(\.\d+)` as often as `dots` says, and the suffix.
is_numbers : (dots : ℕ) (seen : Bool) → String → Bool
is_numbers dots seen String.[] = eqb dots 0 && seen
is_numbers zero seen (String.◌∷◌ c s) =
    if is_digit (code c) then is_numbers zero true s else seen && is_suffix (String.◌∷◌ c s)
is_numbers (suc dots) seen (String.◌∷◌ c s) =
    let inside = is_numbers (suc dots) true s in
    let after = is_numbers dots false s in
    if is_digit (code c) then inside else seen && (eqb (code c) 46 && after)

-- `_SEMVER.match`
unfoldable pub is_semver : String → Bool
unfolding is_numbers is_suffix is_rest
is_semver version = is_numbers 2 false version

-- `^[a-z][a-z0-9_]*(\.[a-z][a-z0-9_]*)+$`: whether a segment has begun, and whether a dot was seen.
is_dotted : (begun dot : Bool) → String → Bool
is_dotted begun dot String.[] = begun && dot
is_dotted false dot (String.◌∷◌ c s) = is_lower (code c) && is_dotted true dot s
is_dotted true dot (String.◌∷◌ c s) =
    let inside = is_dotted true dot s in
    let after = is_dotted false true s in
    if is_word (code c)
    then inside
    else if eqb (code c) 46
    then after
    else dot && (eqb (code c) 10 && (s == ""))

unfoldable pub is_permission : String → Bool
unfolding is_dotted
is_permission perm = is_dotted false false perm

pub data ManifestError : Type 0 where
  empty_name empty_type negative_cost negative_latency : ManifestError
  bad_version bad_permission : String → ManifestError
  out_of_unit : String → Float → ManifestError

-- `if test: errors.append(error)`
abbrev pub error_if : {E : Type 0} → Bool → E → List E
error_if true e = e ∷ []
error_if false e = []

abbrev permission_errors : List String → List ManifestError
permission_errors [] = []
permission_errors (perm ∷ perms) =
    error_if (not (is_permission perm)) (bad_permission perm) ++ permission_errors perms

abbrev unit_error : String → Float → List ManifestError
unit_error field value = error_if (not (in_unit value)) (out_of_unit field value)

-- `CapabilityManifest.validate`
unfoldable pub validate_manifest : CapabilityManifest → List ManifestError
unfolding is_semver is_permission
validate_manifest m =
    error_if (is_blank m.name) empty_name
    ++ error_if (is_blank m.capability_type) empty_type
    ++ error_if (not (is_semver m.version)) (bad_version m.version)
    ++ error_if (less m.cost float_zero) negative_cost
    ++ error_if (less m.latency_ms float_zero) negative_latency
    ++ unit_error "reliability" m.reliability
    ++ unit_error "trust_score" m.trust_score
    ++ unit_error "evidence_score" m.evidence_score
    ++ unit_error "confidence" m.confidence
    ++ permission_errors m.permissions
