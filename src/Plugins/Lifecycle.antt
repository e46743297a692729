-- ===== src/Plugins/Lifecycle.antt =====
-- Installation and update in nexus/plugins/manager.py.
use pharae.Base.{
  String, true, not, sort_by, Option, none, some, List, ◌++◌, is_empty, is_empty-append, Result, ok,
  err, After, After-map, After-ok, bind-After, Bool-cases, inl, inr, ◌⊎◌, ◌≡◌, refl, sym, ◌==◌,
}
use mathlib.Core.Path.{subst}
use pharae.Base.Dict.{Dict, insert, lookup}
use pharae.Base.Text.{text_le}
use pharae.Kernel.Runtime.Context.{Handler}
use pharae.Schemas.{error_if}
use pharae.Plugins.{left_versions, install, is_live, live_plugin, update, update_current, wire_new}
use pharae.Plugins.Packages.{PluginPackage, not_allowed, validate_package}
use pharae.Plugins.Manager.{
  PluginError, PluginManager, PluginRecord, PluginStatus, Step, announce_plugin, excess,
  load_handlers, owner_errors, package_errors, raising, validate_and_load,
}
use pharae.Plugins.Wiring.{unwire, wire}
use pharae.Plugins.Wired.{IsWired, wire-IsWired}
use pharae.Plugins.Unwired.{unwire_all-plugins}
use pharae.Plugins.Exclusive.{IsExclusive, IsFree, owner_errors-IsFree}

-- A plugin that was stored with its capabilities wired, over these plugins.
abbrev pub IsStored : PluginPackage → Dict PluginRecord → PluginRecord × PluginManager → Type 0
IsStored p before r =
    (r.0.plugin_package ≡ p)
    × (r.0.status ≡ PluginStatus.installed)
    × (r.1.plugins ≡ insert p.name r.0 before)
    × IsWired p r.1

wire_new-IsStored :
    (topic : String) (p : PluginPackage) (previous : List String) (handlers : Dict Handler)
    (m : PluginManager)
    → After (IsStored p m.plugins) (wire_new topic p previous handlers m)
unfolding wire_new announce_plugin
wire_new-IsStored topic p previous handlers m =
    bind-After (λ r. IsWired p r.1 × (r.1.plugins ≡ m.plugins)) (IsStored p m.plugins)
      (wire p handlers m) _ (wire-IsWired p handlers m)
      (λ r (wired, same). (refl, refl, rw same refl, wired))

-- What `_validate_and_load` lets through.
abbrev Passes : PluginPackage → Option String → PluginManager → Type 0
Passes p ignored m = is_empty (owner_errors p.capabilities ignored m.plugins) ≡ true

validate_and_load-Passes :
    (p : PluginPackage) (ignored : Option String) (m : PluginManager)
    → After (λ h. Passes p ignored m) (validate_and_load p ignored m)
unfolding validate_and_load package_errors
validate_and_load-Passes p ignored m = elim (Bool-cases (is_empty (package_errors p ignored m))) [
  | inr bad ↦ rw (bad, After) tt
  | inl fine ↦
      let owners = owner_errors p.capabilities ignored m.plugins in
      let allowed =
        error_if (not (is_empty (excess m.allowed p)))
          (not_allowed (sort_by text_le (excess m.allowed p))) in
      let (_, none_owns) = is_empty-append (validate_package p ++ allowed) owners fine in
      rw (fine, After) (always (load_handlers p m) none_owns)
]
  where
    always :
        (r : Result PluginError (Dict Handler))
        → Passes p ignored m
        → After (λ h. Passes p ignored m) r
    always (ok h) owners = owners
    always (err e) owners = tt

raising-After :
    {A : Type 0} (P : A → Type 0) (m : PluginManager) (r : Result PluginError A)
    → After P r
    → After P (raising m r)
raising-After P m (ok a) h = h
raising-After P m (err e) h = tt

validated :
    (p : PluginPackage) (ignored : Option String) (m : PluginManager)
    → After (λ h. Passes p ignored m) (raising m (validate_and_load p ignored m))
validated p ignored m =
    raising-After (λ h. Passes p ignored m) m (validate_and_load p ignored m)
      (validate_and_load-Passes p ignored m)

-- A stored plugin that took no capability of another.
abbrev pub IsAdded : PluginPackage → Dict PluginRecord → PluginRecord × PluginManager → Type 0
IsAdded p before r = IsStored p before r × (IsExclusive before → IsFree p.name r.0 before)

added-IsFree :
    (p : PluginPackage) (ignored : Option String) (m : PluginManager)
    (r : PluginRecord × PluginManager)
    → Passes p ignored m
    → (ignored ≡ none) ⊎ (ignored ≡ some p.name)
    → r.0.plugin_package ≡ p
    → IsExclusive m.plugins
    → IsFree p.name r.0 m.plugins
added-IsFree p ignored m r fine given same h =
    let name : r.0.plugin_package.name ≡ p.name = rw same refl in
    owner_errors-IsFree p.name r.0 ignored m.plugins h name given
      (subst (λ q. is_empty (owner_errors q.capabilities ignored m.plugins) ≡ true) (sym same) fine)

pub install-IsAdded :
    (p : PluginPackage) (m : PluginManager) → After (IsAdded p m.plugins) (install p m)
unfolding install
install-IsAdded p m = elim (Bool-cases (is_live (lookup p.name m.plugins))) [
  | inl live ↦ rw (live, After) tt
  | inr free ↦
      rw (free, After)
        (bind-After (λ h. Passes p none m) (IsAdded p m.plugins)
          (raising m (validate_and_load p none m))
          (λ handlers.
            wire_new "plugin.installed" p (left_versions (lookup p.name m.plugins)) handlers m)
          (validated p none m)
          (λ handlers fine.
            After-map (IsStored p m.plugins) (IsAdded p m.plugins) _
              (λ r stored. (stored, added-IsFree p none m r fine (inl refl) stored.0))
              (wire_new-IsStored _ p _ handlers m)))
]

update_current-IsAdded :
    (p : PluginPackage) (r : PluginRecord) (m : PluginManager)
    → After (IsAdded p m.plugins) (update_current p r m)
unfolding update_current
update_current-IsAdded p r m = elim (Bool-cases (p.version == r.plugin_package.version)) [
  | inl same ↦ rw (same, After) tt
  | inr other ↦
      rw (other, After)
        (bind-After (λ h. Passes p (some p.name) m) (IsAdded p m.plugins)
          (raising m (validate_and_load p (some p.name) m))
          (λ handlers. wire_new "plugin.updated" p (left_versions (some r)) handlers (unwire r m))
          (validated p (some p.name) m)
          (λ handlers fine.
            After-map (IsStored p (unwire r m).plugins) (IsAdded p m.plugins) _
              (λ s stored.
                let kept : IsStored p m.plugins s =
                  subst (λ d. IsStored p d s) (unwire_all-plugins r.plugin_package.capabilities m)
                    stored in
                (kept, added-IsFree p (some p.name) m s fine (inr refl) kept.0))
              (wire_new-IsStored _ p _ handlers (unwire r m))))
]

pub any_value : {A : Type 0} (s : Step A) → After (λ a. Unit {0}) s
any_value (ok a) = tt
any_value (err e) = tt

pub update-IsAdded :
    (p : PluginPackage) (m : PluginManager) → After (IsAdded p m.plugins) (update p m)
unfolding update
update-IsAdded p m =
    bind-After (λ r. Unit {0}) (IsAdded p m.plugins)
      (live_plugin p.name (lookup p.name m.plugins) m) (λ r. update_current p r m)
      (any_value (live_plugin p.name (lookup p.name m.plugins) m))
      (λ r _. update_current-IsAdded p r m)

-- A plugin that was installed is stored under its name as installed, and every capability of its
-- package is active in the registry, with its own manifest, and has a handler.
pub install-IsStored :
    (p : PluginPackage) (m : PluginManager) {r : PluginRecord} {n : PluginManager}
    → install p m ≡ ok (r, n)
    → IsStored p m.plugins (r, n)
install-IsStored p m e = (After-ok (IsAdded p m.plugins) (install p m) (install-IsAdded p m) e).0
