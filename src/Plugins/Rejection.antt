-- ===== src/Plugins/Rejection.antt =====
-- Refused installations and updates in nexus/plugins/manager.py.
use pharae.Base.{
  String, Bool, true, false, Option, none, some, List, [], ◌∷◌, Result, ok, err, ◌>>=◌, Bool-cases,
  inl, inr, ◌⊎◌, ◌≡◌, refl, ◌==◌,
}
use pharae.Base.Dict.{Dict, lookup}
use pharae.Kernel.Runtime.Context.{Handler}
use pharae.Schemas.{CapabilityManifest}
use pharae.Kernel.Runtime.{Runtime, register_handler}
use pharae.Kernel.Runtime.Execution.{RuntimeError}
use pharae.Capabilities.Registry.{register}
use pharae.Capabilities.Registry.Entries.{CapabilityRegistry, RegistryError}
use pharae.Plugins.{left_versions, install, is_live, live_plugin, update, update_current, wire_new}
use pharae.Plugins.Packages.{PluginPackage}
use pharae.Plugins.Manager.{
  PluginError, PluginManager, PluginRecord, Step, is_removed, raising, validate_and_load,
}
use pharae.Plugins.Wiring.{
  bind_all, bind_handler, binding_of, enrolled, handled, register_all, wire,
}

-- The exceptions that the wiring raises: the registry's, the runtime's, and a missing handler.
abbrev pub is_wiring : PluginError → Bool
is_wiring (PluginError.registry_error _) = true
is_wiring (PluginError.runtime_error _) = true
is_wiring (PluginError.missing_handler _) = true
is_wiring _ = false

-- An exception that is not one of the wiring's leaves this manager.
abbrev Untouched : {A : Type 0} → PluginManager → Step A → Type 0
Untouched m (ok a) = Unit
Untouched m (err (e, n)) = (is_wiring e ≡ true) ⊎ (n ≡ m)

abbrev WiringOnly : {A : Type 0} → Step A → Type 0
WiringOnly (ok a) = Unit
WiringOnly (err (e, n)) = is_wiring e ≡ true

bind-WiringOnly :
    {A B : Type 0} (m : Step A) (f : A → Step B)
    → WiringOnly m
    → ((a : A) → WiringOnly (f a))
    → WiringOnly (m >>= f)
bind-WiringOnly (ok a) f h k = k a
bind-WiringOnly (err (e, n)) f h k = h

register_all-WiringOnly :
    (cs : List CapabilityManifest) (m : PluginManager) → WiringOnly (register_all cs m)
unfolding register_all
register_all-WiringOnly [] m = tt
register_all-WiringOnly (c ∷ cs) m =
    bind-WiringOnly (enrolled m (register c none m.registry)) _
      (entered m (register c none m.registry))
      (λ r.
        bind-WiringOnly (register_all cs r.1) (λ s. ok (r.0 ∷ s.0, s.1))
          (register_all-WiringOnly cs r.1) (λ s. tt))
  where
    entered :
        (n : PluginManager) (r : Result RegistryError (String × CapabilityRegistry))
        → WiringOnly (enrolled n r)
    entered n (ok (id, registry)) = tt
    entered n (err e) = refl

bind_handler-WiringOnly :
    (c : CapabilityManifest) (o : Option Handler) (m : PluginManager)
    → WiringOnly (bind_handler c o m)
unfolding bind_handler
bind_handler-WiringOnly c none m = refl
bind_handler-WiringOnly c (some h) m = bound (register_handler (binding_of c) h m.runtime)
  where
    bound : (r : Result RuntimeError Runtime) → WiringOnly (handled m r)
    bound (ok runtime) = tt
    bound (err e) = refl

bind_all-WiringOnly :
    (cs : List CapabilityManifest) (handlers : Dict Handler) (m : PluginManager)
    → WiringOnly (bind_all cs handlers m)
unfolding bind_all
bind_all-WiringOnly [] handlers m = tt
bind_all-WiringOnly (c ∷ cs) handlers m =
    bind-WiringOnly (bind_handler c (lookup c.name handlers) m) (bind_all cs handlers)
      (bind_handler-WiringOnly c (lookup c.name handlers) m) (bind_all-WiringOnly cs handlers)

wire-WiringOnly :
    (p : PluginPackage) (handlers : Dict Handler) (m : PluginManager)
    → WiringOnly (wire p handlers m)
unfolding wire
wire-WiringOnly p handlers m =
    bind-WiringOnly (register_all p.capabilities m) _ (register_all-WiringOnly p.capabilities m)
      (λ r.
        bind-WiringOnly (bind_all p.capabilities handlers r.1) (λ n. ok (r.0, n))
          (bind_all-WiringOnly p.capabilities handlers r.1) (λ n. tt))

wire_new-WiringOnly :
    (topic : String) (p : PluginPackage) (previous : List String) (handlers : Dict Handler)
    (m : PluginManager)
    → WiringOnly (wire_new topic p previous handlers m)
unfolding wire_new
wire_new-WiringOnly topic p previous handlers m =
    bind-WiringOnly (wire p handlers m) _ (wire-WiringOnly p handlers m) (λ r. tt)

raised_then :
    {A B : Type 0} (m : PluginManager) (r : Result PluginError A) (f : A → Step B)
    → ((a : A) → WiringOnly (f a))
    → Untouched m (raising m r >>= f)
raised_then m (err e) f h = inr refl
raised_then m (ok a) f h = only (f a) (h a)
  where
    only : {C : Type 0} (s : Step C) → WiringOnly s → Untouched m s
    only (ok c) k = tt
    only (err (e, n)) k = inl k

install-Untouched : (p : PluginPackage) (m : PluginManager) → Untouched m (install p m)
unfolding install
install-Untouched p m = elim (Bool-cases (is_live (lookup p.name m.plugins))) [
  | inl live ↦ rw (live, Untouched) (inr refl)
  | inr free ↦
      rw (free, Untouched)
        (raised_then m (validate_and_load p none m)
          (λ handlers.
            wire_new "plugin.installed" p (left_versions (lookup p.name m.plugins)) handlers m)
          (λ handlers. wire_new-WiringOnly _ p _ handlers m))
]

update-Untouched : (p : PluginPackage) (m : PluginManager) → Untouched m (update p m)
unfolding update live_plugin update_current
update-Untouched p m = updated (lookup p.name m.plugins)
  where
    current_then : (r : PluginRecord) → Untouched m (update_current p r m)
    current_then r = elim (Bool-cases (p.version == r.plugin_package.version)) [
      | inl same ↦ rw (same, Untouched) (inr refl)
      | inr other ↦
          rw (other, Untouched)
            (raised_then m (validate_and_load p (some p.name) m) _
              (λ handlers. wire_new-WiringOnly _ p _ handlers _))
    ]

    updated :
        (o : Option PluginRecord)
        → Untouched m (live_plugin p.name o m >>= λ current. update_current p current m)
    updated none = inr refl
    updated (some r) = elim (Bool-cases (is_removed r.status)) [
      | inl gone ↦ rw (gone, Untouched) (inr refl)
      | inr live ↦ rw (live, Untouched) (current_then r)
    ]

Untouched-err :
    {A : Type 0} (m : PluginManager) (s : Step A) {e : PluginError} {n : PluginManager}
    → Untouched m s
    → s ≡ err (e, n)
    → is_wiring e ≡ false
    → n ≡ m
Untouched-err m (ok a) h same off = cc
Untouched-err m (err (e, n)) h same off = elim h [ inl bad ↦ absurd (cc) | inr here ↦ cc ]

-- A refused installation or update leaves the manager, its registry and its runtime as they were,
-- unless it is the registry or the runtime that refuses.
pub refused_untouched :
    (p : PluginPackage) (m : PluginManager) {e : PluginError} {n : PluginManager}
    → (install p m ≡ err (e, n)) ⊎ (update p m ≡ err (e, n))
    → is_wiring e ≡ false
    → n ≡ m
refused_untouched p m (inl refused) off =
    Untouched-err m (install p m) (install-Untouched p m) refused off
refused_untouched p m (inr refused) off =
    Untouched-err m (update p m) (update-Untouched p m) refused off
