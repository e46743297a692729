-- ===== src/Plugins/Exclusive.antt =====
-- The owners of the capabilities in nexus/plugins/manager.py.
use pharae.Base.{
  String, true, false, ◌&&◌, not, Option, none, some, List, [], ◌∷◌, any_of, is_empty,
  is_empty-append, Bool-cases, Option-cases, inl, inr, ◌⊎◌, arith, ◌≡◌, refl, sym, ◌∙◌, ap, In,
  ◌==◌, eq_iff,
}
use mathlib.Core.Path.{subst}
use pharae.Base.Dict.{Dict, insert, lookup}
use pharae.Base.Entries.{In-insert, Unique, insert-Unique, lookup-In}
use pharae.Schemas.{CapabilityManifest}
use pharae.Plugins.Manager.{
  PluginRecord, is_removed, other_owner, owner_error, owner_errors, owner_in, provides,
}

abbrev pub IsLive : PluginRecord → Type 0
IsLive r = is_removed r.status ≡ false

abbrev pub Provides : String → PluginRecord → Type 0
Provides capability r = provides capability r ≡ true

-- Each plugin is stored under its name, and no two of them that are not removed provide a
-- capability of the same name.
pub record IsExclusive (d : Dict PluginRecord) : Type 0 where
  pub unique : Unique d
  pub named : (k : String) (r : PluginRecord) → In (k, r) d → r.plugin_package.name ≡ k
  pub exclusive :
      (capability j k : String) (r s : PluginRecord)
      → In (j, r) d
      → In (k, s) d
      → IsLive r
      → IsLive s
      → Provides capability r
      → Provides capability s
      → j ≡ k

-- No other plugin provides what this one does, if it is live.
abbrev pub IsFree : String → PluginRecord → Dict PluginRecord → Type 0
IsFree k r d =
    IsLive r
    → (capability j : String) (s : PluginRecord) → Provides capability r
    → In (j, s) d
    → IsLive s
    → Provides capability s
    → j ≡ k

pub insert-IsExclusive :
    (k : String) (r : PluginRecord) (d : Dict PluginRecord)
    → IsExclusive d
    → r.plugin_package.name ≡ k
    → IsFree k r d
    → IsExclusive (insert k r d)
insert-IsExclusive k r d h name free = record {
  unique = insert-Unique k r d h.unique;
  named = λ j s there. elim (In-insert k j r s d h.unique there) [
    | inl (same, value) ↦ ap (λ t. t.plugin_package.name) (sym value) ∙ name ∙ same
    | inr (other, old) ↦ h.named j s old
  ];
  exclusive = λ c i j s t at_i at_j live_s live_t has_s has_t.
      elim (In-insert k i r s d h.unique at_i) [
        | inl (same, value) ↦ elim (In-insert k j r t d h.unique at_j) [
          | inl (same', value') ↦ sym same ∙ same'
          | inr (other', old') ↦
              let live : IsLive r = rw value live_s in
              let has : Provides c r = rw value has_s in
              sym same ∙ sym (free live c j t has old' live_t has_t)
        ]
        | inr (other, old) ↦ elim (In-insert k j r t d h.unique at_j) [
          | inl (same', value') ↦
              let live : IsLive r = rw value' live_t in
              let has : Provides c r = rw value' has_t in
              free live c i s has old live_s has_s ∙ same'
          | inr (other', old') ↦ h.exclusive c i j s t old old' live_s live_t has_s has_t
        ]
      ];
}

-- A change that leaves the package, and a removed plugin removed.
pub changed-IsFree :
    (k : String) (old new : PluginRecord) (d : Dict PluginRecord)
    → IsExclusive d
    → lookup k d ≡ some old
    → new.plugin_package ≡ old.plugin_package
    → (IsLive new → IsLive old)
    → IsFree k new d
changed-IsFree k old new d h found same live was c j s has there live_s has_s =
    h.exclusive c j k s old there (lookup-In k old d found) live_s (live was) has_s
      (subst (λ p. any_of (λ m. m.name == c) p.capabilities ≡ true) same has)

owner_in-none :
    (c : String) (d : Dict PluginRecord) (k : String) (r : PluginRecord)
    → owner_in c d ≡ none
    → In (k, r) d
    → IsLive r
    → provides c r ≡ false
unfolding owner_in
owner_in-none c [] k r h there live = absurd there
owner_in-none c ((j, s) ∷ d) k r h there live =
    elim (Bool-cases (not (is_removed s.status) && provides c s)) [
      | inl owns ↦ absurd (ground arith)
      | inr free ↦ elim there [
        | inl here ↦
            let value : s ≡ r = ap (λ e. e.1) here in
            subst (λ t. IsLive t → provides c t ≡ false) value (λ l. ground arith) live
        | inr later ↦ owner_in-none c d k r (rw free at h) later live
      ]
    ]

owner_in-some :
    (c : String) (d : Dict PluginRecord) {o : String}
    → owner_in c d ≡ some o
    → (k : String) × (r : PluginRecord) × In (k, r) d
      × IsLive r
      × Provides c r
      × (r.plugin_package.name ≡ o)
unfolding owner_in
owner_in-some c [] h = cc
owner_in-some c ((j, s) ∷ d) {o} h = elim (Bool-cases (not (is_removed s.status) && provides c s)) [
  | inl owns ↦
      let this : some s.plugin_package.name ≡ some o = rw owns at h in
      (j, s, inl refl, ground arith, ground arith, cc)
  | inr free ↦
      let (k, r, there, live, has, name) = owner_in-some c d (rw free at h) in
      (k, r, inr there, live, has, name)
]

owner_errors-free :
    (cs : List CapabilityManifest) (ignored : Option String) (d : Dict PluginRecord) (c : String)
    → is_empty (owner_errors cs ignored d) ≡ true
    → any_of (λ m. m.name == c) cs ≡ true
    → other_owner (owner_in c d) ignored ≡ none
unfolding owner_errors
owner_errors-free [] ignored d c h has = cc
owner_errors-free (m ∷ ms) ignored d c h has =
    let (first, rest) =
      is_empty-append (owner_error m.name (other_owner (owner_in m.name d) ignored))
        (owner_errors ms ignored d) h in
    elim (Bool-cases (m.name == c)) [
      | inl same ↦ elim (Option-cases (other_owner (owner_in m.name d) ignored)) [
        | inl free ↦
            subst (λ n. other_owner (owner_in n d) ignored ≡ none) ((eq_iff m.name c).0 same) free
        | inr (o, owned) ↦
            let bad : is_empty (owner_error m.name (some o)) ≡ true = rw owned at first in cc
      ]
      | inr other ↦ owner_errors-free ms ignored d c rest (rw other at has)
    ]

ignored_owner :
    (o : String) (ignored : Option String) (k : String)
    → (ignored ≡ none) ⊎ (ignored ≡ some k)
    → other_owner (some o) ignored ≡ none
    → o ≡ k
ignored_owner o none k given h = cc
ignored_owner o (some name) k given h = elim (Bool-cases (o == name)) [
  | inl same ↦ elim given [ inl bad ↦ cc | inr e ↦ let here = (eq_iff o name).0 same in cc ]
  | inr other ↦ let bad : some o ≡ none = rw other at h in cc
]

-- A package without an error about an owner.
pub owner_errors-IsFree :
    (k : String) (r : PluginRecord) (ignored : Option String) (d : Dict PluginRecord)
    → IsExclusive d
    → r.plugin_package.name ≡ k
    → (ignored ≡ none) ⊎ (ignored ≡ some k)
    → is_empty (owner_errors r.plugin_package.capabilities ignored d) ≡ true
    → IsFree k r d
owner_errors-IsFree k r ignored d h name given fine live c j s has there live_s has_s =
    let free = owner_errors-free r.plugin_package.capabilities ignored d c fine has in
    elim (Option-cases (owner_in c d)) [
      | inl nobody ↦ absurd (let no = owner_in-none c d j s nobody there live_s in cc)
      | inr (o, owned) ↦
          let (i, t, at_i, live_t, has_t, of) = owner_in-some c d owned in
          let others : other_owner (some o) ignored ≡ none = rw owned at free in
          h.exclusive c j i s t there at_i live_s live_t has_s has_t
          ∙ sym (h.named i t at_i)
          ∙ of
          ∙ ignored_owner o ignored k given others
    ]
