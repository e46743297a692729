-- ===== src/Plugins/Wiring.antt =====
-- `_wire` and `_unwire` of nexus/plugins/manager.py: the registry's records and the runtime's
-- handlers of a plugin.
use pharae.Base.{
  String, Bool, false, Option, none, some, List, [], ◌∷◌, if◌then◌else◌, Result, ok, err, ◌>>=◌,
}
use pharae.Base.Dict.{Dict, lookup}
use pharae.Base.Text.{◌⧺◌}
use pharae.Schemas.{CapabilityManifest}
use pharae.Kernel.Runtime.{Runtime, register_handler, unregister_handler}
use pharae.Kernel.Runtime.Context.{Handler}
use pharae.Kernel.Runtime.Execution.{RuntimeError}
use pharae.Capabilities.Registry.{get_version, register, retire}
use pharae.Capabilities.Registry.Entries.{
  CapabilityRecord, CapabilityRegistry, RegistryError, is_registered,
}
use pharae.Plugins.Packages.{PluginPackage}
use pharae.Plugins.Manager.{PluginError, PluginManager, PluginRecord, Step}

abbrev pub binding_of : CapabilityManifest → String
binding_of c = c.name ⧺ "@" ⧺ c.version

abbrev pub enrolled :
    PluginManager
    → Result RegistryError (String × CapabilityRegistry)
    → Step (String × PluginManager)
enrolled m (ok (id, registry)) = ok (id, record m { registry = registry })
enrolled m (err e) = err (PluginError.registry_error e, m)

-- The first loop of `_wire`.
unfoldable pub register_all :
    List CapabilityManifest → PluginManager → Step (List String × PluginManager)
register_all [] m = ok ([], m)
register_all (c ∷ cs) m = do
  (id, after) ← enrolled m (register c none m.registry)
  (ids, end) ← register_all cs after
  ok (id ∷ ids, end)

abbrev pub handled : PluginManager → Result RuntimeError Runtime → Step PluginManager
handled m (ok runtime) = ok (record m { runtime = runtime })
handled m (err e) = err (PluginError.runtime_error e, m)

-- `handlers[manifest.name]`, and the call of the runtime.
unfoldable pub bind_handler :
    CapabilityManifest → Option Handler → PluginManager → Step PluginManager
bind_handler c none m = err (PluginError.missing_handler c.name, m)
bind_handler c (some handler) m = handled m (register_handler (binding_of c) handler m.runtime)

-- The second loop of `_wire`.
unfoldable pub bind_all :
    List CapabilityManifest → Dict Handler → PluginManager → Step PluginManager
bind_all [] handlers m = ok m
bind_all (c ∷ cs) handlers m =
    bind_handler c (lookup c.name handlers) m >>= λ after. bind_all cs handlers after

-- `_wire` without the record.
unfoldable pub wire :
    PluginPackage → Dict Handler → PluginManager → Step (List String × PluginManager)
wire p handlers m = do
  (ids, registered) ← register_all p.capabilities m
  bound ← bind_all p.capabilities handlers registered
  ok (ids, bound)

abbrev pub is_active_record : Option CapabilityRecord → Bool
is_active_record none = false
is_active_record (some r) = is_registered r.status

abbrev pub retired_in :
    CapabilityRegistry → Result RegistryError CapabilityRegistry → CapabilityRegistry
retired_in registry (ok after) = after
retired_in registry (err e) = registry

-- `retire` of a record that `get` has found raises nothing.
unfoldable pub retire_active : CapabilityManifest → CapabilityRegistry → CapabilityRegistry
retire_active c registry =
    if is_active_record (get_version c.name c.version registry)
    then retired_in registry (retire c.name c.version registry)
    else registry

unfoldable pub unwire_one : CapabilityManifest → PluginManager → PluginManager
unwire_one c m = record m {
  registry = retire_active c m.registry;
  runtime = (unregister_handler (binding_of c) m.runtime).1;
}

-- `_unwire`
unfoldable pub unwire_all : List CapabilityManifest → PluginManager → PluginManager
unwire_all [] m = m
unwire_all (c ∷ cs) m = unwire_all cs (unwire_one c m)

abbrev pub unwire : PluginRecord → PluginManager → PluginManager
unwire r m = unwire_all r.plugin_package.capabilities m
