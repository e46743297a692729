-- ===== src/Plugins/Ownership.antt =====
-- The calls of nexus/plugins/manager.py in sequence, those that raise included.
use pharae.Base.{String, ok, err, After-ok, ◌≡◌, refl, sym, ap, ◌∙◌}
use mathlib.Core.Path.{subst}
use pharae.Base.Entries.{lookup-In}
use pharae.Plugins.{disable, enable, install, remove, update}
use pharae.Plugins.Packages.{PluginPackage}
use pharae.Plugins.Manager.{PluginError, PluginManager, PluginRecord, Step}
use pharae.Plugins.Exceptions.{Leaves, enable-Leaves, install-Leaves, update-Leaves}
use pharae.Plugins.Exclusive.{IsExclusive, changed-IsFree, insert-IsExclusive}
use pharae.Plugins.Lifecycle.{IsAdded, install-IsAdded, update-IsAdded}
use pharae.Plugins.Switching.{Changes, disable-After, enable-After, remove-After}

-- A call that changes the manager, and one that raises.
pub data PluginStep (m n : PluginManager) : Type 0 where
  installs : (p : PluginPackage) (r : PluginRecord) → install p m ≡ ok (r, n) → PluginStep m n
  updates : (p : PluginPackage) (r : PluginRecord) → update p m ≡ ok (r, n) → PluginStep m n
  disables : (name : String) → disable name m ≡ ok n → PluginStep m n
  enables : (name : String) → enable name m ≡ ok n → PluginStep m n
  removes : (name : String) → remove name m ≡ ok n → PluginStep m n
  install_raises : (p : PluginPackage) (e : PluginError) → install p m ≡ err (e, n) → PluginStep m n
  update_raises : (p : PluginPackage) (e : PluginError) → update p m ≡ err (e, n) → PluginStep m n
  enable_raises : (name : String) (e : PluginError) → enable name m ≡ err (e, n) → PluginStep m n

pub data PluginReach (m : PluginManager) : PluginManager → Type 0 where
  here : PluginReach m m
  next : {n k : PluginManager} → PluginReach m n → PluginStep n k → PluginReach m k

abbrev Owned : PluginManager → Type 0
Owned m = IsExclusive m.plugins

added-Owned :
    (p : PluginPackage) (m n : PluginManager) (r : PluginRecord)
    → IsAdded p m.plugins (r, n)
    → Owned m
    → Owned n
added-Owned p m n r ((same, _, stored, _), free) h =
    subst IsExclusive (sym stored) (insert-IsExclusive p.name r m.plugins h (rw same refl) (free h))

changed-Owned : (name : String) (m n : PluginManager) → Changes name m n → Owned m → Owned n
changed-Owned name m n (r, s, (found, live), same, stored) h = subst IsExclusive (sym stored) (
    insert-IsExclusive name s m.plugins h
      (ap (λ p. p.name) same ∙ h.named name r (lookup-In name r m.plugins found))
      (changed-IsFree name r s m.plugins h found same (λ _. live)))

raised-Owned :
    {A : Type 0} (m : PluginManager) (s : Step A) {e : PluginError} {n : PluginManager}
    → Leaves m.plugins s
    → s ≡ err (e, n)
    → Owned m
    → Owned n
raised-Owned m (ok a) leaves e h = cc
raised-Owned m (err (f, k)) {e} {n} leaves same h =
    let here : k ≡ n = cc in subst IsExclusive (sym leaves ∙ ap (λ x. x.plugins) here) h

PluginStep-Owned : {m n : PluginManager} → PluginStep m n → Owned m → Owned n
PluginStep-Owned {m} {n} (installs p r e) h =
    added-Owned p m n r (After-ok (IsAdded p m.plugins) (install p m) (install-IsAdded p m) e) h
PluginStep-Owned {m} {n} (updates p r e) h =
    added-Owned p m n r (After-ok (IsAdded p m.plugins) (update p m) (update-IsAdded p m) e) h
PluginStep-Owned {m} {n} (disables name e) h =
    changed-Owned name m n (After-ok _ (disable name m) (disable-After name m) e).0 h
PluginStep-Owned {m} {n} (enables name e) h =
    changed-Owned name m n (After-ok _ (enable name m) (enable-After name m) e).0 h
PluginStep-Owned {m} {n} (removes name e) h =
    changed-Owned name m n (After-ok (Changes name m) (remove name m) (remove-After name m) e) h
PluginStep-Owned {m} (install_raises p f e) h =
    raised-Owned m (install p m) (install-Leaves p m) e h
PluginStep-Owned {m} (update_raises p f e) h = raised-Owned m (update p m) (update-Leaves p m) e h
PluginStep-Owned {m} (enable_raises name f e) h =
    raised-Owned m (enable name m) (enable-Leaves name m) e h

-- In every sequence of installations, updates, disablings, enablings and removals, those that
-- raise included, each plugin is stored under its name, and two plugins that are not removed
-- provide no capability of the same name.
pub PluginReach-IsExclusive :
    {m n : PluginManager} → PluginReach m n → IsExclusive m.plugins → IsExclusive n.plugins
PluginReach-IsExclusive here h = h
PluginReach-IsExclusive (next r step) h = PluginStep-Owned step (PluginReach-IsExclusive r h)
