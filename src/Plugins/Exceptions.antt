-- ===== src/Plugins/Exceptions.antt =====
-- The exceptions of nexus/plugins/manager.py and the plugins that are stored.
use pharae.Base.{
  String, Option, none, some, List, [], ◌∷◌, Result, ok, err, ◌>>=◌, After, After-map, After-ok,
  Bool-cases, Result-cases, inl, inr, ◌≡◌, refl, ◌==◌,
}
use mathlib.Core.Path.{subst}
use pharae.Base.Dict.{Dict, lookup}
use pharae.Schemas.{CapabilityManifest}
use pharae.Kernel.Runtime.Context.{Handler}
use pharae.Kernel.Runtime.Execution.{RuntimeError}
use pharae.Kernel.Runtime.{Runtime, register_handler}
use pharae.Capabilities.Registry.{register}
use pharae.Plugins.{
  enable, left_versions, install, is_live, live_plugin, require_plugin, update, update_current,
  wire_new,
}
use pharae.Plugins.Packages.{PluginPackage}
use pharae.Plugins.Manager.{
  PluginError, PluginManager, PluginRecord, PluginStatus, Step, is_removed, load_handlers, raising,
  plugin_status_value, validate_and_load,
}
use pharae.Plugins.Wiring.{bind_all, bind_handler, binding_of, handled, register_all, unwire, wire}
use pharae.Plugins.Wired.{Enrolled, register_all-Enrolled}
use pharae.Plugins.Unwired.{unwire_all-plugins}

-- An exception leaves the plugins that were stored.
abbrev pub Leaves : {A : Type 0} → Dict PluginRecord → Step A → Type 0
Leaves d (ok a) = Unit
Leaves d (err (e, n)) = n.plugins ≡ d

bind-Leaves :
    {A B : Type 0} (d : Dict PluginRecord) (s : Step A) (f : A → Step B)
    → Leaves d s
    → ((a : A) → s ≡ ok a → Leaves d (f a))
    → Leaves d (s >>= f)
bind-Leaves d (ok a) f h k = k a refl
bind-Leaves d (err (e, n)) f h k = h

raising-Leaves :
    {A : Type 0} (m : PluginManager) (r : Result PluginError A) → Leaves m.plugins (raising m r)
raising-Leaves m (ok a) = tt
raising-Leaves m (err e) = refl

register_all-Leaves :
    (cs : List CapabilityManifest) (m : PluginManager) → Leaves m.plugins (register_all cs m)
unfolding register_all
register_all-Leaves [] m = tt
register_all-Leaves (c ∷ cs) m = elim (Result-cases (register c none m.registry)) [
  | inr (raised, e) ↦ rw (e, Leaves) refl
  | inl ((id, r), e) ↦
      rw (e, Leaves)
        (bind-Leaves m.plugins (register_all cs (record m { registry = r }))
          (λ s. ok (id ∷ s.0, s.1)) (register_all-Leaves cs (record m { registry = r }))
          (λ s _. tt))
]

bind_handler-plugins :
    (c : CapabilityManifest) (o : Option Handler) (m : PluginManager)
    → Leaves m.plugins (bind_handler c o m)
      × After (λ n. n.plugins ≡ m.plugins) (bind_handler c o m)
unfolding bind_handler
bind_handler-plugins c none m = (refl, tt)
bind_handler-plugins c (some h) m = bound (register_handler (binding_of c) h m.runtime)
  where
    bound :
        (r : Result RuntimeError Runtime)
        → Leaves m.plugins (handled m r) × After (λ n. n.plugins ≡ m.plugins) (handled m r)
    bound (ok runtime) = (tt, refl)
    bound (err e) = (refl, tt)

bind_all-Leaves :
    (cs : List CapabilityManifest) (handlers : Dict Handler) (m : PluginManager)
    → Leaves m.plugins (bind_all cs handlers m)
unfolding bind_all
bind_all-Leaves [] handlers m = tt
bind_all-Leaves (c ∷ cs) handlers m =
    let (leaves, same) = bind_handler-plugins c (lookup c.name handlers) m in
    bind-Leaves m.plugins (bind_handler c (lookup c.name handlers) m) (bind_all cs handlers) leaves
      (λ n bound.
        subst (λ d. Leaves d (bind_all cs handlers n))
          (After-ok (λ k. k.plugins ≡ m.plugins) (bind_handler c (lookup c.name handlers) m) same
            bound)
          (bind_all-Leaves cs handlers n))

register_all-plugins :
    (cs : List CapabilityManifest) (m : PluginManager)
    → After (λ r. r.1.plugins ≡ m.plugins) (register_all cs m)
register_all-plugins cs m =
    After-map (Enrolled cs m) (λ r. r.1.plugins ≡ m.plugins) (register_all cs m)
      (λ r (_, _, same). same) (register_all-Enrolled cs m)

wire-Leaves :
    (p : PluginPackage) (handlers : Dict Handler) (m : PluginManager)
    → Leaves m.plugins (wire p handlers m)
unfolding wire
wire-Leaves p handlers m =
    bind-Leaves m.plugins (register_all p.capabilities m) _ (register_all-Leaves p.capabilities m)
      (λ r e.
        bind-Leaves m.plugins (bind_all p.capabilities handlers r.1) (λ n. ok (r.0, n))
          (subst (λ d. Leaves d (bind_all p.capabilities handlers r.1))
            (After-ok (λ s. s.1.plugins ≡ m.plugins) (register_all p.capabilities m)
              (register_all-plugins p.capabilities m) e)
            (bind_all-Leaves p.capabilities handlers r.1))
          (λ n _. tt))

wire_new-Leaves :
    (topic : String) (p : PluginPackage) (previous : List String) (handlers : Dict Handler)
    (m : PluginManager)
    → Leaves m.plugins (wire_new topic p previous handlers m)
unfolding wire_new
wire_new-Leaves topic p previous handlers m =
    bind-Leaves m.plugins (wire p handlers m) _ (wire-Leaves p handlers m) (λ r _. tt)

pub install-Leaves : (p : PluginPackage) (m : PluginManager) → Leaves m.plugins (install p m)
unfolding install
install-Leaves p m = elim (Bool-cases (is_live (lookup p.name m.plugins))) [
  | inl live ↦ rw (live, Leaves) refl
  | inr free ↦
      rw (free, Leaves)
        (bind-Leaves m.plugins (raising m (validate_and_load p none m))
          (λ handlers.
            wire_new "plugin.installed" p (left_versions (lookup p.name m.plugins)) handlers m)
          (raising-Leaves m (validate_and_load p none m))
          (λ handlers _. wire_new-Leaves _ p _ handlers m))
]

live_plugin-Leaves :
    (name : String) (o : Option PluginRecord) (m : PluginManager)
    → Leaves m.plugins (live_plugin name o m)
unfolding live_plugin
live_plugin-Leaves name none m = refl
live_plugin-Leaves name (some r) m = elim (Bool-cases (is_removed r.status)) [
  | inl gone ↦ rw (gone, Leaves) refl
  | inr live ↦ rw (live, Leaves) tt
]

require_plugin-Leaves :
    (name : String) (status : PluginStatus) (o : Option PluginRecord) (m : PluginManager)
    → Leaves m.plugins (require_plugin name status o m)
unfolding require_plugin
require_plugin-Leaves name status none m = refl
require_plugin-Leaves name status (some r) m =
    elim (Bool-cases (plugin_status_value r.status == plugin_status_value status)) [
      | inl same ↦ rw (same, Leaves) tt
      | inr other ↦ rw (other, Leaves) refl
    ]

pub update-Leaves : (p : PluginPackage) (m : PluginManager) → Leaves m.plugins (update p m)
unfolding update update_current
update-Leaves p m =
    bind-Leaves m.plugins (live_plugin p.name (lookup p.name m.plugins) m)
      (λ r. update_current p r m) (live_plugin-Leaves p.name (lookup p.name m.plugins) m)
      (λ r _. elim (Bool-cases (p.version == r.plugin_package.version)) [
        | inl same ↦ rw (same, Leaves) refl
        | inr other ↦
            rw (other, Leaves)
              (bind-Leaves m.plugins (raising m (validate_and_load p (some p.name) m)) _
                (raising-Leaves m (validate_and_load p (some p.name) m))
                (λ handlers _.
                  subst
                    (λ d.
                      Leaves d (
                        wire_new "plugin.updated" p (left_versions (some r)) handlers (unwire r m)))
                    (unwire_all-plugins r.plugin_package.capabilities m)
                    (wire_new-Leaves _ p _ handlers (unwire r m))))
      ])

pub enable-Leaves : (name : String) (m : PluginManager) → Leaves m.plugins (enable name m)
unfolding enable
enable-Leaves name m =
    bind-Leaves m.plugins (require_plugin name PluginStatus.disabled (lookup name m.plugins) m) _
      (require_plugin-Leaves name PluginStatus.disabled (lookup name m.plugins) m)
      (λ r _.
        bind-Leaves m.plugins (raising m (load_handlers r.plugin_package m)) _
          (raising-Leaves m (load_handlers r.plugin_package m))
          (λ handlers _.
            bind-Leaves m.plugins (wire r.plugin_package handlers m) _
              (wire-Leaves r.plugin_package handlers m) (λ w _. tt)))
