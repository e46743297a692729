-- ===== src/Security/Verdicts.antt =====
-- What the guard of nexus/security/policy.py lets through.
use pharae.Base.{
  String, true, false, some, List, [], ◌∷◌, is_empty, elem, ◌≡◌, refl, ◌↔◌, ◌⊎◌, inl, inr, In,
  Bool-cases, arith, elem_iff, In-select,
}
use pharae.Schemas.{Task, CapabilityManifest}
use pharae.Kernel.Scheduler.{distinct}
use pharae.Kernel.Runtime.Context.{is_empty_text}
use pharae.Capabilities.Registry.{get_version}
use pharae.Capabilities.Registry.Entries.{CapabilityRegistry, CapabilityRecord}
use pharae.Security.{
  Decision, Judgment, SecurityPolicy, SecurityGuard, decide, common, check, check_bound,
  check_record, verdict_allows, rpartition,
}

pub In-distinct : (k : String) (xs : List String) → In k (distinct xs) ↔ In k xs
unfolding distinct
In-distinct k [] = (λ m. m, λ m. m)
In-distinct k (x ∷ xs) = elim (Bool-cases (elem x xs)) [
  | inl again ↦ rw again (
    λ m. inr ((In-distinct k xs).0 m),
    λ m. elim m [
      | inl e ↦ (In-distinct k xs).1 (rw e at ((elem_iff x xs).0 again))
      | inr l ↦ (In-distinct k xs).1 l
    ],
  )
  | inr fresh ↦ rw fresh (
    λ m. elim m [ inl e ↦ inl e | inr l ↦ inr ((In-distinct k xs).0 l) ],
    λ m. elim m [ inl e ↦ inl e | inr l ↦ inr ((In-distinct k xs).1 l) ],
  )
]

In-nonempty : (k : String) (xs : List String) → In k xs → is_empty xs ≡ false
In-nonempty k [] m = absurd m
In-nonempty k (x ∷ xs) m = refl

nonempty-In : (xs : List String) → is_empty xs ≡ false → (k : String) × In k xs
nonempty-In [] h = absurd (ground arith)
nonempty-In (x ∷ xs) h = (x, inl refl)

-- Some permission of the list is in the set.
abbrev pub Overlap : List String → List String → Type 0
Overlap perms set = (p : String) × In p perms × (elem p set ≡ true)

common_iff : (perms set : List String) → (is_empty (common perms set) ≡ false) ↔ Overlap perms set
common_iff perms set = (
  λ h.
      let (p, m) = nonempty-In (common perms set) h in
      let (at, good) = (In-select p (λ q. elem q set) (distinct perms)).0 m in
      (p, (In-distinct p perms).0 at, good),
  λ (p, m, good).
      In-nonempty p (common perms set)
        ((In-select p (λ q. elem q set) (distinct perms)).1 ((In-distinct p perms).1 m, good)),
)

-- A manifest is denied exactly if it asks for a denied permission. Otherwise it needs approval
-- exactly if it asks for a permission, or is of a type, that the policy wants approved; and what is
-- neither denied nor to be approved is allowed.
pub decide_lem :
    (policy : SecurityPolicy) (m : CapabilityManifest)
    → let verdict = (decide policy m).verdict in
      let denied = Overlap m.permissions policy.denied in
      let needs =
        Overlap m.permissions policy.approval_permissions
        ⊎ (elem m.capability_type policy.approval_types ≡ true) in
      ((verdict ≡ Decision.deny) ↔ denied)
      × ((verdict ≡ Decision.require_approval) ↔ ((¬ denied) × needs))
      × ((verdict ≡ Decision.allow) ↔ ((¬ denied) × (¬ needs)))
unfolding decide
decide_lem policy m =
    let hits = common_iff m.permissions policy.denied in
    let wants = common_iff m.permissions policy.approval_permissions in
    elim (Bool-cases (is_empty (common m.permissions policy.denied))) [
      | inr some_denied ↦ rw some_denied (
        (λ e. hits.0 some_denied, λ h. refl),
        (λ e. cc, λ h. absurd (h.0 (hits.0 some_denied))),
        (λ e. cc, λ h. absurd (h.0 (hits.0 some_denied))),
      )
      | inl clear ↦
          let never : ¬ Overlap m.permissions policy.denied = λ h. let bad = hits.1 h in cc in
          elim (Bool-cases (is_empty (common m.permissions policy.approval_permissions))) [
            | inr some_needed ↦
                rw (clear, some_needed)
                  (
                    (λ e. cc, λ h. absurd (never h)),
                    (λ e. (never, inl (wants.0 some_needed)), λ h. refl),
                    (λ e. cc, λ h. absurd (h.1 (inl (wants.0 some_needed)))),
                  )
            | inl free ↦
                let no_want : ¬ Overlap m.permissions policy.approval_permissions =
                  λ h. let bad = wants.1 h in cc in
                elim (Bool-cases (elem m.capability_type policy.approval_types)) [
                  | inl of_type ↦
                      rw (clear, free, of_type)
                        (
                          (λ e. cc, λ h. absurd (never h)),
                          (λ e. (never, inr refl), λ h. refl),
                          (λ e. cc, λ h. absurd (h.1 (inr refl))),
                        )
                  | inr other ↦
                      rw (clear, free, other)
                        (
                          (λ e. cc, λ h. absurd (never h)),
                          (λ e. cc, λ h. elim h.1 [ inl w ↦ absurd (no_want w) | inr t ↦ cc ]),
                          (λ e. (never, λ w. elim w [ inl v ↦ no_want v | inr t ↦ cc ]), λ h. refl),
                        )
                ]
          ]
    ]

Decision-cases :
    (d : Decision) → (d ≡ Decision.allow) ⊎ ((d ≡ Decision.require_approval) ⊎ (d ≡ Decision.deny))
Decision-cases Decision.allow = inl refl
Decision-cases Decision.require_approval = inr (inl refl)
Decision-cases Decision.deny = inr (inr refl)

verdict_allows_iff :
    (binding : String) (g : SecurityGuard) (j : Judgment)
    → ((verdict_allows binding g j).0 ≡ true) ↔ (
        (j.verdict ≡ Decision.allow)
        ⊎ ((j.verdict ≡ Decision.require_approval) × (elem binding g.approved ≡ true)))
unfolding verdict_allows
verdict_allows_iff binding g j = elim (Decision-cases j.verdict) [
  | inl e ↦ rw e (λ h. inl refl, λ h. refl)
  | inr later ↦ elim later [
    | inr e ↦ rw e (λ h. cc, λ h. elim h [ inl bad ↦ cc | inr bad ↦ cc ])
    | inl e ↦ rw e (elim (Bool-cases (elem binding g.approved)) [
      | inl yes_ ↦ rw yes_ (λ h. inr (refl, refl), λ h. refl)
      | inr no_ ↦ rw no_ (λ h. cc, λ h. elim h [ inl bad ↦ cc | inr bad ↦ cc ])
    ])
  ]
]

-- A task that is bound to a registered capability passes exactly if the policy allows the
-- capability, or asks for an approval that its binding has. A denial is never overridden.
pub check_lem :
    (task : Task) (binding : String) (c : CapabilityRecord) (registry : CapabilityRegistry)
    (g : SecurityGuard)
    → task.capability_binding ≡ some binding
    → is_empty_text binding ≡ false
    → get_version (rpartition binding).0 (rpartition binding).1 registry ≡ some c
    → let verdict = (decide g.policy c.manifest).verdict in
      ((check task registry g).0 ≡ true) ↔ (
        (verdict ≡ Decision.allow)
        ⊎ ((verdict ≡ Decision.require_approval) × (elem binding g.approved ≡ true)))
unfolding check check_bound check_record
check_lem task binding c registry g bound nonempty found =
    rw (bound, nonempty, found) (verdict_allows_iff binding g (decide g.policy c.manifest))
