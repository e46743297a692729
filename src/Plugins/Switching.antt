-- ===== src/Plugins/Switching.antt =====
-- Disabling, enabling and removal in nexus/plugins/manager.py.
use pharae.Base.{
  String, Bool, true, false, Option, none, some, if◌then◌else◌, ok, After, After-ok, bind-After,
  Bool-cases, inl, inr, ◌≡◌, refl, ◌∙◌, All, ◌==◌,
}
use pharae.Base.Dict.{insert, lookup}
use pharae.Plugins.{disable, enable, live_plugin, remove, require_plugin}
use pharae.Plugins.Manager.{
  PluginManager, PluginRecord, PluginStatus, announce_plugin, is_installed, is_removed,
  load_handlers, raising, plugin_status_value,
}
use pharae.Plugins.Wiring.{unwire, wire}
use pharae.Plugins.Wired.{IsWired, wire-IsWired}
use pharae.Plugins.Unwired.{IsOff, unwire_all-IsOff, unwire_all-plugins}
use pharae.Plugins.Exclusive.{IsLive}
use pharae.Plugins.Lifecycle.{any_value}

same_removed :
    (a b : PluginStatus)
    → (plugin_status_value a == plugin_status_value b) ≡ true
    → is_removed a ≡ is_removed b
same_removed PluginStatus.installed PluginStatus.installed h = refl
same_removed PluginStatus.installed PluginStatus.disabled h = refl
same_removed PluginStatus.installed PluginStatus.removed h = cc
same_removed PluginStatus.disabled PluginStatus.installed h = refl
same_removed PluginStatus.disabled PluginStatus.disabled h = refl
same_removed PluginStatus.disabled PluginStatus.removed h = cc
same_removed PluginStatus.removed PluginStatus.installed h = cc
same_removed PluginStatus.removed PluginStatus.disabled h = cc
same_removed PluginStatus.removed PluginStatus.removed h = refl

-- The record that a call finds under a name.
abbrev pub Found : String → PluginManager → PluginRecord → Type 0
Found name m r = (lookup name m.plugins ≡ some r) × IsLive r

required :
    (name : String) (status : PluginStatus) (m : PluginManager) (o : Option PluginRecord)
    → lookup name m.plugins ≡ o
    → is_removed status ≡ false
    → After (Found name m) (require_plugin name status o m)
unfolding require_plugin
required name status m none at live = tt
required name status m (some r) at live =
    elim (Bool-cases (plugin_status_value r.status == plugin_status_value status)) [
      | inl same ↦ rw (same, After) (at, same_removed r.status status same ∙ live)
      | inr other ↦ rw (other, After) tt
    ]

living :
    (name : String) (m : PluginManager) (o : Option PluginRecord)
    → lookup name m.plugins ≡ o
    → After (Found name m) (live_plugin name o m)
unfolding live_plugin
living name m none at = tt
living name m (some r) at = elim (Bool-cases (is_removed r.status)) [
  | inl gone ↦ rw (gone, After) tt
  | inr live ↦ rw (live, After) (at, live)
]

-- A change of a stored plugin that is not removed, and that keeps its package.
abbrev pub Changes : String → PluginManager → PluginManager → Type 0
Changes name m n =
    (r : PluginRecord) × (s : PluginRecord) × Found name m r
    × (s.plugin_package ≡ r.plugin_package)
    × (n.plugins ≡ insert name s m.plugins)

-- A disabled plugin: none of its capabilities is active or has a handler.
abbrev pub IsDisabled : String → PluginManager → PluginManager → Type 0
IsDisabled name m n =
    (r : PluginRecord) × (lookup name m.plugins ≡ some r)
    × (n.plugins ≡ insert name (record r { status = PluginStatus.disabled }) m.plugins)
    × All (IsOff n) r.plugin_package.capabilities

pub disable-After :
    (name : String) (m : PluginManager)
    → After (λ n. Changes name m n × IsDisabled name m n) (disable name m)
unfolding disable announce_plugin
disable-After name m =
    bind-After (Found name m) (λ n. Changes name m n × IsDisabled name m n)
      (require_plugin name PluginStatus.installed (lookup name m.plugins) m) _
      (required name PluginStatus.installed m (lookup name m.plugins) refl refl)
      (λ r found.
        let off = unwire_all-IsOff r.plugin_package.capabilities m in
        let same = unwire_all-plugins r.plugin_package.capabilities m in
        let changed : PluginRecord = record r { status = PluginStatus.disabled } in
        ((r, changed, found, refl, rw same refl), (r, found.0, rw same refl, off)))

pub remove-After : (name : String) (m : PluginManager) → After (Changes name m) (remove name m)
unfolding remove announce_plugin
remove-After name m =
    bind-After (Found name m) (Changes name m) (live_plugin name (lookup name m.plugins) m) _
      (living name m (lookup name m.plugins) refl)
      (λ r found. (
        r,
        record r { status = PluginStatus.removed },
        found,
        refl,
        removed_from r (is_installed r.status),
      ))
  where
    removed_from :
        (r : PluginRecord) (b : Bool)
        → insert name
            (record r { status = PluginStatus.removed })
            (if b then unwire r m else m).plugins
          ≡ insert name (record r { status = PluginStatus.removed }) m.plugins
    removed_from r true = rw (unwire_all-plugins r.plugin_package.capabilities m) refl
    removed_from r false = refl

-- The capabilities of the plugin that was stored are wired.
abbrev pub IsEnabled : String → PluginManager → PluginManager → Type 0
IsEnabled name m n =
    (r : PluginRecord) × (lookup name m.plugins ≡ some r) × IsWired r.plugin_package n

pub enable-After :
    (name : String) (m : PluginManager)
    → After (λ n. Changes name m n × IsEnabled name m n) (enable name m)
unfolding enable announce_plugin
enable-After name m =
    let Goal : PluginManager → Type 0 = λ n. Changes name m n × IsEnabled name m n in
    bind-After (Found name m) Goal
      (require_plugin name PluginStatus.disabled (lookup name m.plugins) m) _
      (required name PluginStatus.disabled m (lookup name m.plugins) refl refl)
      (λ r found.
        bind-After (λ h. Unit {0}) Goal (raising m (load_handlers r.plugin_package m)) _
          (any_value (raising m (load_handlers r.plugin_package m)))
          (λ handlers _.
            bind-After (λ w. IsWired r.plugin_package w.1 × (w.1.plugins ≡ m.plugins)) Goal
              (wire r.plugin_package handlers m) _ (wire-IsWired r.plugin_package handlers m)
              (λ w (wired, same).
                let changed : PluginRecord = record r {
                  capability_ids = w.0;
                  status = PluginStatus.installed;
                } in
                ((r, changed, found, refl, rw same refl), (r, found.0, wired)))))

-- A plugin that was disabled is stored as disabled, and no capability of its package is active in
-- the registry or has a handler.
pub disable-IsDisabled :
    (name : String) (m : PluginManager) {n : PluginManager}
    → disable name m ≡ ok n
    → IsDisabled name m n
disable-IsDisabled name m e =
    (After-ok (λ n. Changes name m n × IsDisabled name m n) (disable name m) (disable-After name m)
      e).1
