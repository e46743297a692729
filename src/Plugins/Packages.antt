-- ===== src/Plugins/Packages.antt =====
-- nexus/schemas/plugin.py.
use pharae.Base.{
  String, Bool, false, ◌||◌, not, Option, List, [], ◌∷◌, ◌++◌, is_empty, select, sort_by, map, elem,
  length, eqb,
}
use pharae.Base.Text.{is_blank, text_le}
use pharae.Schemas.{CapabilityManifest, ManifestError, error_if, is_semver, validate_manifest}
use pharae.Kernel.Scheduler.{distinct}
use Prim.Native.Char.{code}

pub record PluginPackage : Type 0 where
  pub name : String
  pub version : String
  pub capabilities : List CapabilityManifest
  pub requested_permissions : List String
  pub entrypoint : String
  pub signature : Option String

-- The errors of `validate`, and those that `_validate_and_load` adds.
pub data PackageError : Type 0 where
  empty_name no_capability duplicate_names : PackageError
  bad_version bad_entrypoint : String → PackageError
  in_capability : String → ManifestError → PackageError
  hidden_permissions : String → List String → PackageError
  not_allowed : List String → PackageError
  provided_by : (capability plugin : String) → PackageError

-- `set(a) - b`
abbrev pub beyond : List String → List String → List String
beyond xs ys = select (λ x. not (elem x ys)) (distinct xs)

-- `":" in s`
unfoldable pub has_colon : String → Bool
has_colon String.[] = false
has_colon (String.◌∷◌ c s) = eqb (code c) 58 || has_colon s

abbrev pub capability_names : PluginPackage → List String
capability_names p = map (λ c. c.name) p.capabilities

-- The loop over the manifests.
unfoldable pub capability_errors : List String → List CapabilityManifest → List PackageError
capability_errors requested [] = []
capability_errors requested (c ∷ cs) =
    let hidden = beyond c.permissions requested in
    map (in_capability c.name) (validate_manifest c)
    ++ error_if (not (is_empty hidden)) (hidden_permissions c.name (sort_by text_le hidden))
    ++ capability_errors requested cs

-- `PluginPackage.validate`
unfoldable pub validate_package : PluginPackage → List PackageError
unfolding capability_errors has_colon
validate_package p =
    error_if (is_blank p.name) empty_name
    ++ error_if (not (is_semver p.version)) (bad_version p.version)
    ++ error_if (is_empty p.capabilities) no_capability
    ++ error_if (not (has_colon p.entrypoint)) (bad_entrypoint p.entrypoint)
    ++ capability_errors p.requested_permissions p.capabilities
    ++ error_if (not (eqb (length (capability_names p)) (length (distinct (capability_names p)))))
        duplicate_names
