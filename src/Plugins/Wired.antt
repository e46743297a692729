-- ===== src/Plugins/Wired.antt =====
-- What `_wire` of nexus/plugins/manager.py leaves in the registry and the runtime.
use pharae.Base.{
  String, true, Option, none, some, List, [], ◌∷◌, ok, After, After-map, bind-After, Result-cases,
  Bool-cases, inl, inr, arith, ◌≡◌, refl, sym, ◌∙◌, All, ◌==◌, eq_iff, eq_refl,
}
use mathlib.Core.Path.{subst}
use pharae.Base.Dict.{Dict, has_key, has_key-insert, has_key-insert_of, insert, lookup}
use pharae.Base.Pairs.{same_key}
use pharae.Base.Text.{is_blank}
use pharae.Schemas.{CapabilityManifest}
use pharae.Kernel.Runtime.{Runtime, register_handler}
use pharae.Kernel.Runtime.Context.{Handler}
use pharae.Capabilities.Registry.{get_version, register}
use pharae.Capabilities.Registry.Entries.{
  CapabilityRecord, CapabilityRegistry, active, is_registered,
}
use pharae.Capabilities.Registry.Records.{get_version-register}
use pharae.Plugins.Packages.{PluginPackage}
use pharae.Plugins.Manager.{PluginManager}
use pharae.Plugins.Wiring.{bind_all, bind_handler, binding_of, register_all, wire}

-- The registry holds the manifest as active.
abbrev pub IsActive : CapabilityRegistry → CapabilityManifest → Type 0
IsActive registry c =
    (r : CapabilityRecord) × (get_version c.name c.version registry ≡ some r)
    × (r.manifest ≡ c)
    × (r.status ≡ active)

abbrev pub IsBound : Runtime → CapabilityManifest → Type 0
IsBound runtime c = has_key (binding_of c) runtime.handlers ≡ true

same_names : (a b : String × String) → same_key a b ≡ true → (a.0 ≡ b.0) × (a.1 ≡ b.1)
same_names a b h =
    let first : (a.0 == b.0) ≡ true = ground arith in
    let second : (a.1 == b.1) ≡ true = ground arith in
    ((eq_iff a.0 b.0).0 first, (eq_iff a.1 b.1).0 second)

module _ (c : CapabilityManifest) (r : CapabilityRegistry) {id : String} {r' : CapabilityRegistry}
    (e : register c none r ≡ ok (id, r')) where
  registered : IsActive r' c
  registered =
      let (_, (found, at, same, on, _), _, _) = get_version-register c none r e in
      (found, at, same, on)

  -- An active manifest stays, since its key cannot be taken.
  register-IsActive : (d : CapabilityManifest) → IsActive r d → IsActive r' d
  register-IsActive d (found, at, same, on) =
      let (_, _, others, free) = get_version-register c none r e in
      elim (Bool-cases (same_key (c.name, c.version) (d.name, d.version))) [
        | inr other ↦ (found, others d.name d.version other ∙ at, same, on)
        | inl taken ↦
            let (one, two) = same_names (c.name, c.version) (d.name, d.version) taken in
            let here : get_version c.name c.version r ≡ some found =
              subst (λ n. get_version n c.version r ≡ some found) (sym one)
                (subst (λ v. get_version d.name v r ≡ some found) (sym two) at) in
            let off = free found here in
            let bad : is_registered found.status ≡ true = rw on refl in cc
      ]

-- What the first loop leaves, and what it does not touch.
abbrev pub Enrolled : List CapabilityManifest → PluginManager → List String × PluginManager → Type 0
Enrolled cs m r =
    ((d : CapabilityManifest) → IsActive m.registry d → IsActive r.1.registry d)
    × All (IsActive r.1.registry) cs
    × (r.1.plugins ≡ m.plugins)

pub register_all-Enrolled :
    (cs : List CapabilityManifest) (m : PluginManager) → After (Enrolled cs m) (register_all cs m)
unfolding register_all
register_all-Enrolled [] m = (λ d h. h, tt, refl)
register_all-Enrolled (c ∷ cs) m = elim (Result-cases (register c none m.registry)) [
  | inr (raised, e) ↦ rw (e, After) tt
  | inl ((id, r), e) ↦
      rw (e, After)
        (bind-After (Enrolled cs (record m { registry = r })) (Enrolled (c ∷ cs) m)
          (register_all cs (record m { registry = r })) (λ s. ok (id ∷ s.0, s.1))
          (register_all-Enrolled cs (record m { registry = r }))
          (λ s (keeps, all, same). (
            λ d h. keeps d (register-IsActive c m.registry e d h),
            (keeps c (registered c m.registry e), all),
            same,
          )))
]

-- What the second loop leaves.
abbrev Bound : List CapabilityManifest → PluginManager → PluginManager → Type 0
Bound cs m n =
    ((d : CapabilityManifest) → IsBound m.runtime d → IsBound n.runtime d)
    × All (IsBound n.runtime) cs
    × (n.registry ≡ m.registry)
    × (n.plugins ≡ m.plugins)

register_handler-IsBound :
    (c : CapabilityManifest) (h : Handler) (r : Runtime) {r' : Runtime}
    → register_handler (binding_of c) h r ≡ ok r'
    → ((d : CapabilityManifest) → IsBound r d → IsBound r' d) × IsBound r' c
unfolding register_handler
register_handler-IsBound c h r {r'} e =
    let stored : r' ≡ record r { handlers = insert (binding_of c) h r.handlers } =
      elim (Bool-cases (is_blank (binding_of c))) [ inl b ↦ ground arith | inr b ↦ ground arith ] in
    rw stored (
      λ d there. has_key-insert_of (binding_of c) (binding_of d) h r.handlers there,
      has_key-insert (binding_of c) (binding_of c) h r.handlers ∙ rw (eq_refl (binding_of c)) refl,
    )

bind_handler-Bound :
    (c : CapabilityManifest) (o : Option Handler) (m : PluginManager)
    → After (Bound (c ∷ []) m) (bind_handler c o m)
unfolding bind_handler
bind_handler-Bound c none m = tt
bind_handler-Bound c (some h) m =
    elim (Result-cases (register_handler (binding_of c) h m.runtime)) [
      | inr (raised, e) ↦ rw (e, After) tt
      | inl (r, e) ↦
          let (keeps, here) = register_handler-IsBound c h m.runtime e in
          rw (e, After) (keeps, (here, tt), refl, refl)
    ]

bind_all-Bound :
    (cs : List CapabilityManifest) (handlers : Dict Handler) (m : PluginManager)
    → After (Bound cs m) (bind_all cs handlers m)
unfolding bind_all
bind_all-Bound [] handlers m = (λ d h. h, tt, refl, refl)
bind_all-Bound (c ∷ cs) handlers m =
    bind-After (Bound (c ∷ []) m) (Bound (c ∷ cs) m) (bind_handler c (lookup c.name handlers) m)
      (bind_all cs handlers) (bind_handler-Bound c (lookup c.name handlers) m)
      (λ n (keeps, (here, _), same, same_plugins).
        After-map (Bound cs n) (Bound (c ∷ cs) m) (bind_all cs handlers n)
          (λ k (keeps', all, same', same_plugins'). (
            λ d h. keeps' d (keeps d h),
            (keeps' c here, all),
            same' ∙ same,
            same_plugins' ∙ same_plugins,
          ))
          (bind_all-Bound cs handlers n))

-- Each capability of the package is active in the registry and has a handler.
abbrev pub IsWired : PluginPackage → PluginManager → Type 0
IsWired p m = All (IsActive m.registry) p.capabilities × All (IsBound m.runtime) p.capabilities

pub wire-IsWired :
    (p : PluginPackage) (handlers : Dict Handler) (m : PluginManager)
    → After (λ r. IsWired p r.1 × (r.1.plugins ≡ m.plugins)) (wire p handlers m)
unfolding wire
wire-IsWired p handlers m =
    bind-After (Enrolled p.capabilities m) (λ r. IsWired p r.1 × (r.1.plugins ≡ m.plugins))
      (register_all p.capabilities m) _ (register_all-Enrolled p.capabilities m)
      (λ r (_, all, same).
        bind-After (Bound p.capabilities r.1) (λ s. IsWired p s.1 × (s.1.plugins ≡ m.plugins))
          (bind_all p.capabilities handlers r.1) (λ n. ok (r.0, n))
          (bind_all-Bound p.capabilities handlers r.1)
          (λ n (_, bound, same_registry, same'). (
            (subst (λ g. All (IsActive g) p.capabilities) (sym same_registry) all, bound),
            same' ∙ same,
          )))
