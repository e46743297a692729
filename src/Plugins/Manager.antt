-- ===== src/Plugins/Manager.antt =====
-- The records of nexus/plugins/manager.py, the validation of a package, and its entrypoint.
use pharae.Base.{
  ℕ, String, Bool, true, false, ◌&&◌, not, Option, none, some, List, [], ◌∷◌, ◌++◌, all_of, any_of,
  if◌then◌else◌, is_empty, sort_by, elem, Result, ok, err, ◌==◌,
}
use pharae.Base.Dict.{Dict, insert, keys}
use pharae.Base.Text.{text_le}
use pharae.Schemas.{CapabilityManifest, Float, error_if, str, texts}
use pharae.Kernel.Events.{EventBus, announce_to}
use pharae.Kernel.Runtime.{Runtime}
use pharae.Kernel.Runtime.Context.{Handler}
use pharae.Kernel.Runtime.Execution.{RuntimeError}
use pharae.Capabilities.Registry.Entries.{CapabilityRegistry, RegistryError}
use pharae.Plugins.Packages.{
  PackageError, PluginPackage, beyond, capability_names, not_allowed, provided_by, validate_package,
}

pub data PluginStatus : Type 0 where
  installed disabled removed : PluginStatus

abbrev pub plugin_status_value : PluginStatus → String
plugin_status_value PluginStatus.installed = "installed"
plugin_status_value PluginStatus.disabled = "disabled"
plugin_status_value PluginStatus.removed = "removed"

abbrev pub is_removed : PluginStatus → Bool
is_removed PluginStatus.removed = true
is_removed _ = false

abbrev pub is_installed : PluginStatus → Bool
is_installed PluginStatus.installed = true
is_installed _ = false

pub record PluginRecord : Type 0 where
  pub plugin_package : PluginPackage
  pub status : PluginStatus
  pub installed_at : Float
  pub capability_ids : List String
  pub previous_versions : List String

-- What the import of an entrypoint and the call of its function give: an exception, a value that
-- is no dict of callables, or one.
pub data Loaded : Type 0 where
  raised : String → Loaded
  no_handlers : Loaded
  handlers_of : Dict Handler → Loaded

-- `clock` holds the readings of `time.time()`, and `ticks` counts them.
pub record PluginManager : Type 0 where
  pub registry : CapabilityRegistry
  pub runtime : Runtime
  pub bus : Option EventBus
  pub allowed : Option (List String)
  pub plugins : Dict PluginRecord
  pub entrypoints : String → Loaded
  pub clock : ℕ → Float
  pub ticks : ℕ

-- The exceptions: the manager's own, and those of the registry and the runtime that pass through.
pub data PluginError : Type 0 where
  already_installed not_installed : String → PluginError
  same_version : String → String → PluginError
  rejected : List PackageError → PluginError
  entrypoint_failed : String → PluginError
  bad_handlers : PluginError
  mismatched : List String → List String → PluginError
  wrong_status : String → String → String → PluginError
  registry_error : RegistryError → PluginError
  runtime_error : RuntimeError → PluginError
  missing_handler : String → PluginError

abbrev pub Step : Type 0 → Type 0
Step A = Result (PluginError × PluginManager) A

abbrev pub provides : String → PluginRecord → Bool
provides capability r = any_of (λ c. c.name == capability) r.plugin_package.capabilities

-- The loop of `_capability_owner`.
unfoldable pub owner_in : String → Dict PluginRecord → Option String
owner_in capability [] = none
owner_in capability ((_, r) ∷ rest) =
    if not (is_removed r.status) && provides capability r
    then some r.plugin_package.name
    else owner_in capability rest

-- The owner, unless it is the one to be ignored.
abbrev pub other_owner : Option String → Option String → Option String
other_owner none ignored = none
other_owner (some owner) none = some owner
other_owner (some owner) (some name) = if owner == name then none else some owner

abbrev pub owner_error : String → Option String → List PackageError
owner_error capability none = []
owner_error capability (some owner) = provided_by capability owner ∷ []

unfoldable pub owner_errors :
    List CapabilityManifest → Option String → Dict PluginRecord → List PackageError
owner_errors [] ignored plugins = []
owner_errors (c ∷ cs) ignored plugins =
    owner_error c.name (other_owner (owner_in c.name plugins) ignored)
    ++ owner_errors cs ignored plugins

abbrev pub excess : Option (List String) → PluginPackage → List String
excess none p = []
excess (some allowed) p = beyond p.requested_permissions allowed

-- The errors that `_validate_and_load` collects.
unfoldable pub package_errors : PluginPackage → Option String → PluginManager → List PackageError
package_errors p ignored m =
    validate_package p
    ++ error_if (not (is_empty (excess m.allowed p)))
        (not_allowed (sort_by text_le (excess m.allowed p)))
    ++ owner_errors p.capabilities ignored m.plugins

-- `set(a) != set(b)`, negated
abbrev pub same_set : List String → List String → Bool
same_set xs ys = all_of (λ x. elem x ys) xs && all_of (λ y. elem y xs) ys

unfoldable pub check_loaded : PluginPackage → Loaded → Result PluginError (Dict Handler)
check_loaded p (raised exception) = err (PluginError.entrypoint_failed exception)
check_loaded p no_handlers = err PluginError.bad_handlers
check_loaded p (handlers_of handlers) =
    if same_set (keys handlers) (capability_names p)
    then ok handlers
    else err (
        PluginError.mismatched (sort_by text_le (keys handlers))
          (sort_by text_le (capability_names p)))

-- `_load_handlers`
unfoldable pub load_handlers : PluginPackage → PluginManager → Result PluginError (Dict Handler)
load_handlers p m = check_loaded p (m.entrypoints p.entrypoint)

-- `_validate_and_load`
unfoldable pub validate_and_load :
    PluginPackage → Option String → PluginManager → Result PluginError (Dict Handler)
validate_and_load p ignored m =
    let errors = package_errors p ignored m in
    if is_empty errors then load_handlers p m else err (PluginError.rejected errors)

abbrev pub put_plugin : String → PluginRecord → PluginManager → PluginManager
put_plugin name r m = record m { plugins = insert name r m.plugins }

-- `_publish`
unfoldable pub announce_plugin : String → PluginRecord → PluginManager → PluginManager
announce_plugin topic r m = record m {
  bus = announce_to m.bus topic (
      ("plugin", str r.plugin_package.name)
      ∷ ("version", str r.plugin_package.version)
      ∷ ("capabilities", texts r.capability_ids)
      ∷ []);
}

-- An exception that leaves the manager as it is.
abbrev pub raising : {A : Type 0} → PluginManager → Result PluginError A → Step A
raising m (ok a) = ok a
raising m (err e) = err (e, m)
