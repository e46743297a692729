-- ===== src/Plugins.antt =====
-- nexus/plugins/manager.py. What an entrypoint's import and call give is foreign, and is found by
-- the entrypoint's text. The registry and the runtime that the manager shares are parts of its
-- state; an exception leaves the state as it was reached.
pub mod Packages
pub mod Manager
pub mod Wiring
pub mod Wired
pub mod Unwired
pub mod Rejection
pub mod Exclusive
pub mod Lifecycle
pub mod Switching
pub mod Exceptions
pub mod Ownership
use pharae.Base.{
  ◌+◌, String, Bool, true, false, ◌||◌, not, Option, none, some, List, [], ◌∷◌, ◌++◌, select,
  if◌then◌else◌, Result, ok, err, ◌>>=◌, ◌==◌,
}
use pharae.Base.Dict.{Dict, lookup, values}
use pharae.Kernel.Runtime.Context.{Handler}
use pharae.Plugins.Packages.{PluginPackage}
use pharae.Plugins.Manager.{
  PluginError, PluginManager, PluginRecord, PluginStatus, Step, announce_plugin, is_installed,
  is_removed, load_handlers, put_plugin, raising, plugin_status_value, validate_and_load,
}
use pharae.Plugins.Wiring.{unwire, wire}

abbrev pub is_live : Option PluginRecord → Bool
is_live none = false
is_live (some r) = not (is_removed r.status)

-- The versions that a record of the same name leaves behind.
abbrev pub left_versions : Option PluginRecord → List String
left_versions none = []
left_versions (some r) = r.previous_versions ++ r.plugin_package.version ∷ []

abbrev pub new_plugin : PluginPackage → List String → List String → PluginManager → PluginRecord
new_plugin plugin_package ids previous m = record {
  plugin_package = plugin_package;
  status = PluginStatus.installed;
  installed_at = m.clock m.ticks;
  capability_ids = ids;
  previous_versions = previous;
}

-- `_wire` with the record that it makes, and what follows it in `install` and `update`.
unfoldable pub wire_new :
    String
    → PluginPackage
    → List String
    → Dict Handler
    → PluginManager
    → Step (PluginRecord × PluginManager)
wire_new topic plugin_package previous handlers m = do
  (ids, wired) ← wire plugin_package handlers m
  let added = new_plugin plugin_package ids previous wired
  ok (
    added,
    announce_plugin topic added
        (record (put_plugin plugin_package.name added wired) { ticks = wired.ticks + 1 }),
  )

-- `install`
unfoldable pub install : PluginPackage → PluginManager → Step (PluginRecord × PluginManager)
install plugin_package m =
    let existing = lookup plugin_package.name m.plugins in
    if is_live existing
    then err (PluginError.already_installed plugin_package.name, m)
    else raising m (validate_and_load plugin_package none m) >>= λ handlers.
        wire_new "plugin.installed" plugin_package (left_versions existing) handlers m

unfoldable pub update_current :
    PluginPackage → PluginRecord → PluginManager → Step (PluginRecord × PluginManager)
update_current plugin_package current m =
    if plugin_package.version == current.plugin_package.version
    then err (PluginError.same_version plugin_package.name plugin_package.version, m)
    else raising m (validate_and_load plugin_package (some plugin_package.name) m) >>= λ handlers.
        wire_new "plugin.updated" plugin_package (left_versions (some current)) handlers
          (unwire current m)

-- The record of a plugin that is not removed.
unfoldable pub live_plugin : String → Option PluginRecord → PluginManager → Step PluginRecord
live_plugin name none m = err (PluginError.not_installed name, m)
live_plugin name (some r) m =
    if is_removed r.status then err (PluginError.not_installed name, m) else ok r

-- `update`
unfoldable pub update : PluginPackage → PluginManager → Step (PluginRecord × PluginManager)
update plugin_package m =
    live_plugin plugin_package.name (lookup plugin_package.name m.plugins) m >>= λ current.
    update_current plugin_package current m

-- `record.status = …`, and the event.
abbrev pub set_plugin :
    String → String → PluginStatus → PluginRecord → PluginManager → PluginManager
set_plugin topic name status r m =
    let changed : PluginRecord = record r { status = status } in
    announce_plugin topic changed (put_plugin name changed m)

-- `_require`
unfoldable pub require_plugin :
    String → PluginStatus → Option PluginRecord → PluginManager → Step PluginRecord
require_plugin name status none m =
    err (PluginError.wrong_status name "not installed" (plugin_status_value status), m)
require_plugin name status (some r) m =
    if plugin_status_value r.status == plugin_status_value status
    then ok r
    else err (
      PluginError.wrong_status name (plugin_status_value r.status) (plugin_status_value status),
      m,
    )

-- `disable`
unfoldable pub disable : String → PluginManager → Step PluginManager
disable name m = do
  r ← require_plugin name PluginStatus.installed (lookup name m.plugins) m
  ok (set_plugin "plugin.disabled" name PluginStatus.disabled r (unwire r m))

-- `enable`
unfoldable pub enable : String → PluginManager → Step PluginManager
enable name m = do
  r ← require_plugin name PluginStatus.disabled (lookup name m.plugins) m
  handlers ← raising m (load_handlers r.plugin_package m)
  (ids, wired) ← wire r.plugin_package handlers m
  ok (
      set_plugin "plugin.enabled" name PluginStatus.installed (record r { capability_ids = ids })
        wired)

-- `remove`
unfoldable pub remove : String → PluginManager → Step PluginManager
remove name m = do
  r ← live_plugin name (lookup name m.plugins) m
  ok (
      set_plugin "plugin.removed" name PluginStatus.removed r
        (if is_installed r.status then unwire r m else m))

-- `get` and `list`
abbrev pub get_plugin : String → PluginManager → Option PluginRecord
get_plugin name m = lookup name m.plugins

unfoldable pub list_plugins : Bool → PluginManager → List PluginRecord
list_plugins include_removed m =
    select (λ r. include_removed || not (is_removed r.status)) (values m.plugins)
