-- ===== src/Cog/Policy/Lines.antt =====
-- The lines of nexus/cog/policy.py: what it is for one to be well formed, and its lookups.
pub mod Steps
pub mod Engine
use pharae.Base.{
  ℕ, zero, suc, ◌+◌, ◌<◌, ◌≤◌, Bool, true, false, Option, none, some, List, [], ◌∷◌, ◌++◌,
  if◌then◌else◌, eqb, length, All, arith, ◌≡◌, ◌≢◌, refl, sym, Bool-cases, Option-cases, inl, inr,
  length-append, String,
}
use pharae.Base.Dict.{Dict}
use pharae.Schemas.{Float, Value}
use pharae.Cog.Policy.Versions.{
  PolicyVersion, PolicyStatus, Line, is_active, active, find_version, active_version, set_version,
  deprecate, make_active, extend_line, supersede, activate_line, rollback_line,
}

-- The versions are `n + 1`, `n + 2`, and so on.
abbrev pub Numbered : ℕ → List PolicyVersion → Type 0
Numbered n [] = Unit
Numbered n (p ∷ ps) = (p.version ≡ suc n) × Numbered (suc n) ps

-- The test tells which versions are active.
abbrev pub Marked : (ℕ → Bool) → List PolicyVersion → Type 0
Marked f [] = Unit
Marked f (p ∷ ps) = (is_active p.status ≡ f p.version) × Marked f ps

abbrev pub top_of : List ℕ → ℕ
top_of [] = 0
top_of (v ∷ stack) = v

-- No version stands on the stack twice in a row.
abbrev pub Alternates : List ℕ → Type 0
Alternates [] = Unit
Alternates (v ∷ []) = Unit
Alternates (v ∷ w ∷ stack) = (v ≢ w) × Alternates (w ∷ stack)

abbrev pub Known : List PolicyVersion → List ℕ → Type 0
Known ps stack = All (λ v. (0 < v) × (v ≤ length ps)) stack

pub record IsLine (line : Line) : Type 0 where
  pub numbered : Numbered 0 line.versions
  pub known : Known line.versions line.stack
  pub alternates : Alternates line.stack
  pub current : Marked (λ v. eqb v (top_of line.stack)) line.versions

pub Marked-ext :
    (f g : ℕ → Bool) (ps : List PolicyVersion) → ((v : ℕ) → f v ≡ g v) → Marked f ps → Marked g ps
Marked-ext f g [] same h = tt
Marked-ext f g (p ∷ ps) same h = (rw (sym (same p.version)) h.0, Marked-ext f g ps same h.1)

pub set_version-length :
    (c : PolicyVersion) (ps : List PolicyVersion) → length (set_version c ps) ≡ length ps
unfolding set_version
set_version-length c [] = refl
set_version-length c (p ∷ ps) = ground (arith, set_version-length c ps)

pub set_version-Numbered :
    (n : ℕ) (c : PolicyVersion) (ps : List PolicyVersion)
    → Numbered n ps
    → Numbered n (set_version c ps)
unfolding set_version
set_version-Numbered n c [] h = tt
set_version-Numbered n c (p ∷ ps) h = elim (Bool-cases (eqb p.version c.version)) [
  | inl same ↦ rw same (let e = h.0 in ground arith, h.1)
  | inr other ↦ rw other (h.0, set_version-Numbered (suc n) c ps h.1)
]

-- The test after the version `v` got the mark `b`.
abbrev pub mark : ℕ → Bool → (ℕ → Bool) → ℕ → Bool
mark v b f w = if eqb w v then b else f w

Marked-later :
    (n v : ℕ) (b : Bool) (f : ℕ → Bool) (ps : List PolicyVersion)
    → v ≤ n
    → Numbered n ps
    → Marked f ps
    → Marked (mark v b f) ps
Marked-later n v b f [] small h m = tt
Marked-later n v b f (p ∷ ps) small h m = (
  let e = h.0 in let k = m.0 in ground arith,
  Marked-later (suc n) v b f ps (omega arith) h.1 m.1,
)

pub set_version-Marked :
    (n : ℕ) (f : ℕ → Bool) (c : PolicyVersion) (ps : List PolicyVersion)
    → Numbered n ps
    → Marked f ps
    → Marked (mark c.version (is_active c.status) f) (set_version c ps)
unfolding set_version
set_version-Marked n f c [] h m = tt
set_version-Marked n f c (p ∷ ps) h m =
    let at = h.0 in
    let k = m.0 in
    elim (Bool-cases (eqb p.version c.version)) [
      | inl same ↦ rw same (
        ground arith,
        Marked-later (suc n) c.version (is_active c.status) f ps (ground arith) h.1 m.1,
      )
      | inr other ↦ rw other (rw other k, set_version-Marked (suc n) f c ps h.1 m.1)
    ]

pub find_version-some :
    (v : ℕ) (ps : List PolicyVersion) {p : PolicyVersion}
    → find_version v ps ≡ some p
    → p.version ≡ v
unfolding find_version
find_version-some v [] h = cc
find_version-some v (p ∷ ps) h = elim (Bool-cases (eqb p.version v)) [
  | inl same ↦ ground arith
  | inr other ↦ find_version-some v ps (rw other at h)
]

-- A version that is found has its number in the range, and its mark.
pub find_version-Marked :
    (n v : ℕ) (f : ℕ → Bool) (ps : List PolicyVersion) {p : PolicyVersion}
    → Numbered n ps
    → Marked f ps
    → find_version v ps ≡ some p
    → (n < v) × (v ≤ n + length ps) × (is_active p.status ≡ f v)
unfolding find_version
find_version-Marked n v f [] h m e = cc
find_version-Marked n v f (p ∷ ps) {p = q} h m e =
    let at = h.0 in
    let k = m.0 in
    elim (Bool-cases (eqb p.version v)) [
      | inl same ↦
          let is : p ≡ q = ground arith in
          let here : p.version ≡ v = ground arith in
          (omega arith, omega arith, rw (sym is) (rw (sym here) k))
      | inr other ↦
          let (low, high, marked) = find_version-Marked (suc n) v f ps h.1 m.1 (rw other at e) in
          (omega arith, omega arith, marked)
    ]

-- A number in the range is found.
pub find_version-known :
    (n v : ℕ) (ps : List PolicyVersion)
    → Numbered n ps
    → n < v
    → v ≤ n + length ps
    → (p : PolicyVersion) × (find_version v ps ≡ some p)
unfolding find_version
find_version-known n v [] h low high = absurd (omega arith)
find_version-known n v (p ∷ ps) h low high = elim (Bool-cases (eqb p.version v)) [
  | inl same ↦ (p, rw same refl)
  | inr other ↦
      let at = h.0 in
      let (q, e) = find_version-known (suc n) v ps h.1 (ground arith) (omega arith) in
      (q, rw other e)
]

pub active_version-some :
    (f : ℕ → Bool) (ps : List PolicyVersion) {p : PolicyVersion}
    → Marked f ps
    → active_version ps ≡ some p
    → f p.version ≡ true
unfolding active_version
active_version-some f [] m h = cc
active_version-some f (p ∷ ps) {p = q} m h =
    let k = m.0 in
    elim (Bool-cases (is_active p.status)) [
      | inl yes_ ↦ let is : p ≡ q = ground arith in rw (sym is) (ground arith)
      | inr no_ ↦ active_version-some f ps m.1 (rw no_ at h)
    ]

pub active_version-none :
    (f : ℕ → Bool) (ps : List PolicyVersion)
    → Marked f ps
    → active_version ps ≡ none
    → Marked (λ v. false) ps
unfolding active_version
active_version-none f [] m h = tt
active_version-none f (p ∷ ps) m h = elim (Bool-cases (is_active p.status)) [
  | inl yes_ ↦ absurd (ground arith)
  | inr no_ ↦ (no_, active_version-none f ps m.1 (rw no_ at h))
]
