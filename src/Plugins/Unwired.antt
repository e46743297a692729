-- ===== src/Plugins/Unwired.antt =====
-- What `_unwire` of nexus/plugins/manager.py leaves in the registry and the runtime.
use pharae.Base.{
  String, Bool, true, false, Option, some, List, [], ◌∷◌, ok, Option-cases, Bool-cases, inl, inr,
  ◌⊎◌, arith, ◌≡◌, refl, sym, ap, ◌∙◌, All, ◌==◌, eq_refl, if◌then◌else◌,
}
use mathlib.Core.Path.{subst}
use pharae.Base.Dict.{has_key, lookup-erase}
use pharae.Base.Pairs.{find_pair, find_pair-insert_pair, same_key}
use pharae.Schemas.{CapabilityManifest}
use pharae.Kernel.Runtime.{Runtime, unregister_handler}
use pharae.Capabilities.Registry.{get_version, require_record, retire, retire_record}
use pharae.Capabilities.Registry.Entries.{
  CapabilityRecord, CapabilityRegistry, is_registered, retired,
}
use pharae.Plugins.Manager.{PluginManager}
use pharae.Plugins.Wiring.{binding_of, is_active_record, retire_active, unwire_all, unwire_one}

-- The version is not active in the registry.
abbrev pub IsRetired : CapabilityRegistry → CapabilityManifest → Type 0
IsRetired r c = is_active_record (get_version c.name c.version r) ≡ false

abbrev pub IsUnbound : Runtime → CapabilityManifest → Type 0
IsUnbound runtime c = has_key (binding_of c) runtime.handlers ≡ false

-- `retire` of an active version.
retire-active :
    (name version : String) (r : CapabilityRegistry)
    → is_active_record (get_version name version r) ≡ true
    → (found : CapabilityRecord) × (retire name version r ≡ ok (retire_record name version found r))
unfolding retire require_record get_version
retire-active name version r on = elim (Option-cases (find_pair (name, version) r.records)) [
  | inl absent ↦ absurd (ground arith)
  | inr (found, at) ↦
      let live : is_registered found.status ≡ true = ground arith in
      (found, rw (at, live, require_record) refl)
]

-- Every version after it.
retire_record-get_version :
    (name version n v : String) (found : CapabilityRecord) (r : CapabilityRegistry)
    → get_version n v (retire_record name version found r) ≡ (
        if same_key (name, version) (n, v)
        then some (record found { status = retired })
        else get_version n v r)
unfolding get_version
retire_record-get_version name version n v found r =
    find_pair-insert_pair (name, version) (n, v) (record found { status = retired }) r.records

key_refl : (c : CapabilityManifest) → same_key (c.name, c.version) (c.name, c.version) ≡ true
key_refl c = ground (arith, eq_refl c.name, eq_refl c.version)

retire_record-IsRetired :
    (c d : CapabilityManifest) (found : CapabilityRecord) (r : CapabilityRegistry)
    → (same_key (c.name, c.version) (d.name, d.version) ≡ true) ⊎ IsRetired r d
    → IsRetired (retire_record c.name c.version found r) d
retire_record-IsRetired c d found r h =
    let after = retire_record-get_version c.name c.version d.name d.version found r in
    let version : Bool → Option CapabilityRecord =
      λ b. if b then some (record found { status = retired }) else get_version d.name d.version r in
    elim (Bool-cases (same_key (c.name, c.version) (d.name, d.version))) [
      | inl same ↦ ap is_active_record (after ∙ ap version same)
      | inr other ↦
          ap is_active_record (after ∙ ap version other) ∙ elim h [ inl bad ↦ cc | inr off ↦ off ]
    ]

retire_active-IsRetired :
    (c : CapabilityManifest) (r : CapabilityRegistry)
    → IsRetired (retire_active c r) c
      × ((d : CapabilityManifest) → IsRetired r d → IsRetired (retire_active c r) d)
unfolding retire_active
retire_active-IsRetired c r =
    elim (Bool-cases (is_active_record (get_version c.name c.version r))) [
      | inr off ↦ rw off (off, λ d h. h)
      | inl on ↦
          let (found, done_) = retire-active c.name c.version r on in
          let same : retire_active c r ≡ retire_record c.name c.version found r =
            rw (on, done_) refl in
          subst (λ s. IsRetired s c × ((d : CapabilityManifest) → IsRetired r d → IsRetired s d))
            (sym same)
            (
              retire_record-IsRetired c c found r (inl (key_refl c)),
              λ d h. retire_record-IsRetired c d found r (inr h),
            )
    ]

-- Neither active nor with a handler.
abbrev pub IsOff : PluginManager → CapabilityManifest → Type 0
IsOff m c = IsRetired m.registry c × IsUnbound m.runtime c

unregister-IsUnbound :
    (key : String) (r : Runtime)
    → (has_key key (unregister_handler key r).1.handlers ≡ false)
      × ((k : String)
          → has_key k r.handlers ≡ false
          → has_key k (unregister_handler key r).1.handlers ≡ false)
unfolding unregister_handler has_key
unregister-IsUnbound key r = (
  rw (lookup-erase key key r.handlers, eq_refl key) refl,
  λ k h. elim (Bool-cases (key == k)) [
    | inl same ↦ rw (lookup-erase key k r.handlers, same) refl
    | inr other ↦ rw (lookup-erase key k r.handlers, other) h
  ],
)

unwire_one-IsOff :
    (c : CapabilityManifest) (m : PluginManager)
    → IsOff (unwire_one c m) c × ((d : CapabilityManifest) → IsOff m d → IsOff (unwire_one c m) d)
unfolding unwire_one
unwire_one-IsOff c m =
    let (here, keeps) = retire_active-IsRetired c m.registry in
    let (gone, keeps') = unregister-IsUnbound (binding_of c) m.runtime in
    ((here, gone), λ d (off, unbound). (keeps d off, keeps' (binding_of d) unbound))

unwire_all-keeps :
    (cs : List CapabilityManifest) (m : PluginManager) (d : CapabilityManifest)
    → IsOff m d
    → IsOff (unwire_all cs m) d
unfolding unwire_all
unwire_all-keeps [] m d h = h
unwire_all-keeps (c ∷ cs) m d h =
    unwire_all-keeps cs (unwire_one c m) d ((unwire_one-IsOff c m).1 d h)

-- After `_unwire` no capability of the plugin is active, and none has a handler.
pub unwire_all-IsOff :
    (cs : List CapabilityManifest) (m : PluginManager) → All (IsOff (unwire_all cs m)) cs
unfolding unwire_all
unwire_all-IsOff [] m = tt
unwire_all-IsOff (c ∷ cs) m = (
  unwire_all-keeps cs (unwire_one c m) c (unwire_one-IsOff c m).0,
  unwire_all-IsOff cs (unwire_one c m),
)

pub unwire_all-plugins :
    (cs : List CapabilityManifest) (m : PluginManager) → (unwire_all cs m).plugins ≡ m.plugins
unfolding unwire_all unwire_one
unwire_all-plugins [] m = refl
unwire_all-plugins (c ∷ cs) m = unwire_all-plugins cs (unwire_one c m)
