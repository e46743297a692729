-- ===== src/Tests/Plugins.antt =====
-- A plugin that is installed and disabled, and one that the registry refuses halfway.
use pharae.Base.{none, [], ◌∷◌, ok, err, ◌≡◌, refl, inl, elem}
use pharae.Base.Dict.{insert, lookup}
use pharae.Base.Pairs.{find_pair, insert_pair}
use pharae.Base.Text.{is_blank}
use pharae.Schemas.{CapabilityManifest, at_most, is_permission, is_semver, less, validate_manifest}
use pharae.Kernel.Runtime.{register_handler}
use pharae.Capabilities.Registry.{enrol, get_version, register, require_record, retire}
use pharae.Capabilities.Registry.Entries.{CapabilityRegistry, complaints}
use pharae.Kernel.Scheduler.{distinct}
use pharae.Plugins.{disable, install, require_plugin, wire_new}
use pharae.Plugins.Packages.{PluginPackage, capability_errors, has_colon, validate_package}
use pharae.Plugins.Manager.{
  Loaded, PluginError, check_loaded, PluginManager, PluginRecord, Step, announce_plugin,
  handlers_of, load_handlers, owner_errors, owner_in, package_errors, validate_and_load,
}
use pharae.Plugins.Wiring.{bind_all, bind_handler, register_all, unwire_all, wire}
use pharae.Plugins.Wired.{IsActive}
use pharae.Plugins.Exclusive.{IsExclusive}
use pharae.Plugins.Lifecycle.{IsStored, install-IsStored}
use pharae.Plugins.Switching.{IsDisabled, disable-IsDisabled}
use pharae.Plugins.Ownership.{PluginReach-IsExclusive, disables, here, installs, next}
use pharae.Plugins.Rejection.{refused_untouched}
use pharae.Tests.Capabilities.{empty_registry, manifest, with_calc}
use pharae.Tests.Samples.{clock, quiet_runtime, worker}

abbrev calculator : PluginPackage
calculator = record {
  name = "calculator";
  version = "1.0.0";
  capabilities = manifest ∷ [];
  requested_permissions = "fs.write" ∷ [];
  entrypoint = "calc:setup";
  signature = none;
}

abbrev manager : PluginManager
manager = record {
  registry = empty_registry;
  runtime = quiet_runtime;
  bus = none;
  allowed = none;
  plugins = [];
  entrypoints = λ e. handlers_of (("calc", worker) ∷ []);
  clock = clock;
  ticks = 0;
}

abbrev step_record : PluginRecord
step_record = record {
  plugin_package = calculator;
  status = pharae.Plugins.Manager.PluginStatus.installed;
  installed_at = clock 0;
  capability_ids = "calc@1.0.0" ∷ [];
  previous_versions = [];
}

abbrev manager_of : {A : Type 0} → (A → PluginManager) → PluginManager → Step A → PluginManager
manager_of f m (ok a) = f a
manager_of f m (err (e, n)) = n

abbrev with_plugin : PluginManager
with_plugin = manager_of (λ r. r.1) manager (install calculator manager)

plugin_calls : Unit {0}
unfolding install disable validate_and_load package_errors validate_package capability_errors
    has_colon owner_errors owner_in load_handlers wire wire_new register_all bind_all bind_handler
    unwire_all register enrol complaints validate_manifest is_semver is_permission less at_most
    find_pair insert_pair elem is_blank register_handler announce_plugin check_loaded require_plugin
    get_version lookup insert distinct
plugin_calls = tt

installed : install calculator manager ≡ ok (step_record, with_plugin)
unfolding plugin_calls
installed = refl

install-IsStored_example : IsStored calculator [] (step_record, with_plugin)
install-IsStored_example = install-IsStored calculator manager installed

abbrev with_disabled : PluginManager
with_disabled = manager_of (λ n. n) with_plugin (disable "calculator" with_plugin)

disabled : disable "calculator" with_plugin ≡ ok with_disabled
unfolding plugin_calls
disabled = refl

disable-IsDisabled_example : IsDisabled "calculator" with_plugin with_disabled
disable-IsDisabled_example = disable-IsDisabled "calculator" with_plugin disabled

no_plugins : IsExclusive manager.plugins
no_plugins = record {
  unique = tt;
  named = λ k r bad. absurd bad;
  exclusive = λ c j k r s bad. absurd bad;
}

PluginReach-IsExclusive_example : IsExclusive with_disabled.plugins
PluginReach-IsExclusive_example =
    PluginReach-IsExclusive
      (next (next here (installs calculator step_record installed))
        (disables "calculator" disabled))
      no_plugins

again :
    install calculator with_plugin ≡ err (PluginError.already_installed "calculator", with_plugin)
unfolding plugin_calls
again = refl

refused_untouched_example : with_plugin ≡ with_plugin
refused_untouched_example = refused_untouched calculator with_plugin (inl again) refl

-- A package of two capabilities, the second of which the registry holds already.
abbrev other : CapabilityManifest
other = record manifest { name = "new" }

abbrev pair : PluginPackage
pair = record calculator { capabilities = other ∷ manifest ∷ [] }

abbrev pair_manager : PluginManager
pair_manager = record manager {
  registry = with_calc;
  entrypoints = λ e. handlers_of (("calc", worker) ∷ ("new", worker) ∷ []);
}

abbrev left_over : PluginManager
left_over = manager_of (λ r. r.1) pair_manager (install pair pair_manager)

-- The installation raises, its first capability stays active, and the plugin is not stored.
raises_halfway :
    (install pair pair_manager
      ≡ err (
        PluginError.registry_error
            (pharae.Capabilities.Registry.Entries.already_registered "calc" "1.0.0"),
        left_over,
      ))
    × IsActive left_over.registry other
    × (left_over.plugins ≡ [])
unfolding plugin_calls
raises_halfway = (refl, (_, refl, refl, refl), refl)
