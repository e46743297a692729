-- ===== src/Router/Choice.antt =====
-- What nexus/router/router.py chooses.
use pharae.Base.{
  String, Bool, true, false, ◌&&◌, ◌||◌, not, Option, none, some, is_some, List, [], ◌∷◌, ◌++◌,
  select, map, sort_by, insort, elem, is_empty, ◌≡◌, refl, sym, ap, ◌∙◌, ◌↔◌, arith, Bool-cases,
  inl, inr, In, In-select, In-sort_by, ◌==◌, eq_iff,
}
use pharae.Schemas.{Float, Task, Arithmetic}
use pharae.Capabilities.Registry.{find, listing_le, records_of}
use pharae.Capabilities.Registry.Entries.{
  CapabilityRegistry, CapabilityRecord, capability_id, is_registered, is_healthy,
}
use pharae.Base.{all_of, ok, err}
use pharae.Base.Int.{ℤ}
use pharae.Schemas.{RoutingDecision}
use pharae.Router.{
  RouteReason, Router, all_excluded, bad_version, choose, decision_of, evaluations_of, exclude_all,
  first_id, highest_score, no_capabilities, route, score_all, with_decision,
}
use pharae.Router.Rules.{
  RoutingPolicy, Exclusion, exclusion_reason, is_eligible, is_unhealthy, score, scores, choice_le,
  is_versioned, unreadable, version_of,
}

-- A registered capability of the type that the policy does not exclude.
pub record IsAdmitted (type : String) (policy : RoutingPolicy) (registry : CapabilityRegistry)
    (r : CapabilityRecord) : Type 0 where
  pub listed : In r (records_of registry.records)
  pub of_type : r.manifest.capability_type ≡ type
  pub in_service : is_registered r.status ≡ true
  pub not_denied : elem r.manifest.name policy.denied ≡ false
  pub not_unhealthy : is_unhealthy r.health ≡ false
  pub not_excluded : exclusion_reason r policy ≡ none

find-facts :
    (type : String) (registry : CapabilityRegistry) (r : CapabilityRecord)
    → In r (find type false false registry)
    → In r (records_of registry.records)
      × (r.manifest.capability_type ≡ type)
      × (is_registered r.status ≡ true)
unfolding find
find-facts type registry r m =
    let (at, good) =
      (In-select r
          (λ c.
            c.manifest.capability_type == type
            && ((false || is_registered c.status) && (not false || is_healthy c.health)))
          (records_of registry.records)).0
        ((In-sort_by r listing_le _).0 m) in
    let named : (r.manifest.capability_type == type) ≡ true = ground arith in
    (at, (eq_iff r.manifest.capability_type type).0 named, ground arith)

exclusion_reason-none :
    (r : CapabilityRecord) (policy : RoutingPolicy)
    → exclusion_reason r policy ≡ none
    → (elem r.manifest.name policy.denied ≡ false) × (is_unhealthy r.health ≡ false)
unfolding exclusion_reason
exclusion_reason-none r policy h = elim (Bool-cases (elem r.manifest.name policy.denied)) [
  | inl denied ↦ absurd (ground arith)
  | inr fine ↦ elim (Bool-cases (is_unhealthy r.health)) [
    | inl ill ↦ absurd (ground arith)
    | inr well ↦ (fine, well)
  ]
]

is_some-false : {A : Type 0} (o : Option A) → not (is_some o) ≡ true → o ≡ none
is_some-false none h = refl
is_some-false (some a) h = absurd (ground arith)

eligible-IsAdmitted :
    (type : String) (policy : RoutingPolicy) (registry : CapabilityRegistry) (r : CapabilityRecord)
    → In r (select (is_eligible policy) (find type false false registry))
    → IsAdmitted type policy registry r
eligible-IsAdmitted type policy registry r m =
    let (at, good) = (In-select r (is_eligible policy) (find type false false registry)).0 m in
    let (listed, of_type, in_service) = find-facts type registry r at in
    let out = is_some-false (exclusion_reason r policy) good in
    let (fine, well) = exclusion_reason-none r policy out in
    record {
      listed = listed;
      of_type = of_type;
      in_service = in_service;
      not_denied = fine;
      not_unhealthy = well;
      not_excluded = out;
    }

In-paired :
    (f : CapabilityRecord → Float) (p : CapabilityRecord × Float) (rs : List CapabilityRecord)
    → In p (map (λ r. (r, f r)) rs)
    → In p.0 rs
In-paired f p [] m = absurd m
In-paired f p (r ∷ rs) m = elim m [
  | inl e ↦ inl (ap (λ q. q.0) e)
  | inr later ↦ inr (In-paired f p rs later)
]

is_empty-map :
    (f : CapabilityRecord → Float) (rs : List CapabilityRecord)
    → is_empty {A = CapabilityRecord × Float} (map (λ r. (r, f r)) rs) ≡ is_empty rs
is_empty-map f [] = refl
is_empty-map f (r ∷ rs) = refl

scores-In :
    (ar : Arithmetic) (policy : RoutingPolicy) (eligible : List CapabilityRecord)
    (p : CapabilityRecord × Float)
    → In p (scores ar policy eligible)
    → In p.0 eligible
unfolding scores
scores-In ar policy eligible p m = In-paired (score ar policy _ _) p eligible m

scores-is_empty :
    (ar : Arithmetic) (policy : RoutingPolicy) (eligible : List CapabilityRecord)
    → is_empty (scores ar policy eligible) ≡ is_empty eligible
unfolding scores
scores-is_empty ar policy eligible = is_empty-map (score ar policy _ _) eligible

first_id-some :
    (scored : List (CapabilityRecord × Float)) {id : String}
    → first_id scored ≡ some id
    → (p : CapabilityRecord × Float) × In p scored × (capability_id p.0 ≡ id)
first_id-some [] h = cc
first_id-some (p ∷ rest) h = (p, inl refl, ground arith)

first_id-insort :
    (le : CapabilityRecord × Float → CapabilityRecord × Float → Bool) (p : CapabilityRecord × Float)
    (scored : List (CapabilityRecord × Float))
    → is_some (first_id (insort le p scored)) ≡ true
unfolding insort
first_id-insort le p [] = refl
first_id-insort le p (q ∷ scored) = elim (Bool-cases (le p q)) [
  | inl before ↦ rw before refl
  | inr after ↦ rw after refl
]

first_id-sorted :
    (le : CapabilityRecord × Float → CapabilityRecord × Float → Bool)
    (scored : List (CapabilityRecord × Float))
    → is_empty scored ≡ false
    → is_some (first_id (sort_by le scored)) ≡ true
unfolding sort_by
first_id-sorted le [] h = absurd (ground arith)
first_id-sorted le (p ∷ scored) h = first_id-insort le p (sort_by le scored)

unreadable-none :
    (int_of : String → Option ℤ) (rs : List CapabilityRecord)
    → all_of (is_versioned int_of) rs ≡ true
    → unreadable int_of rs ≡ none
unfolding unreadable
unreadable-none int_of [] h = refl
unreadable-none int_of (r ∷ rs) h =
    let first : is_versioned int_of r ≡ true = ground arith in
    let rest : all_of (is_versioned int_of) rs ≡ true = ground arith in
    rw first (unreadable-none int_of rs rest)

unreadable-some :
    (int_of : String → Option ℤ) (rs : List CapabilityRecord)
    → all_of (is_versioned int_of) rs ≡ false
    → (r : CapabilityRecord) × In r rs
      × (version_of int_of r ≡ none)
      × (unreadable int_of rs ≡ some (capability_id r))
unfolding unreadable
unreadable-some int_of [] h = cc
unreadable-some int_of (r ∷ rs) h = elim (Bool-cases (is_versioned int_of r)) [
  | inr bad ↦ (r, inl refl, nothing (version_of int_of r) bad, rw bad refl)
  | inl good ↦
      let (q, at, none_of, found) = unreadable-some int_of rs (rw good at h) in
      (q, inr at, none_of, rw good found)
]
  where
    nothing : {A : Type 0} (o : Option A) → is_some o ≡ false → o ≡ none
    nothing none bad = refl
    nothing (some a) bad = cc

select-is_empty :
    (p : CapabilityRecord → Bool) (rs : List CapabilityRecord)
    → is_empty rs ≡ true
    → is_empty (select p rs) ≡ true
select-is_empty p [] h = refl
select-is_empty p (r ∷ rs) h = absurd (ground arith)

-- What `route` decides: it routes exactly if some capability is eligible, to an admitted one.
abbrev pub IsRouted :
    Task → RoutingPolicy → CapabilityRegistry → Router → RoutingDecision × Router → Type 0
IsRouted task policy registry router (decision, after) =
    ((id : String)
      → decision.chosen ≡ some id
      → (r : CapabilityRecord) × IsAdmitted task.capability_type policy registry r
        × (capability_id r ≡ id))
    × ((decision.chosen ≡ none) ↔ (
        is_empty (select (is_eligible policy) (find task.capability_type false false registry))
        ≡ true))
    × (after.decisions ≡ router.decisions ++ decision ∷ [])

-- If `int` raises on a part of the version of an eligible capability, as it is read from behind the
-- last `@` of its id, `route` raises for such a capability. Otherwise it returns a decision: the
-- task is routed exactly if some capability is eligible, and then to an admitted one, which is
-- registered and active, of the task's type, neither denied nor unhealthy, and not excluded by any
-- rule of the policy; and the decision goes to the end of the record, where nothing else changes.
pub route-IsAdmitted :
    (ar : Arithmetic) (int_of : String → Option ℤ) (show : Exclusion → String) (task : Task)
    (policy : RoutingPolicy) (registry : CapabilityRegistry) (router : Router)
    → let eligible = select (is_eligible policy) (find task.capability_type false false registry) in
      (all_of (is_versioned int_of) eligible ≡ false
        → (r : CapabilityRecord) × In r eligible
          × (version_of int_of r ≡ none)
          × (route ar int_of show task policy registry router
              ≡ err (bad_version (capability_id r))))
      × (all_of (is_versioned int_of) eligible ≡ true
          → (result : RoutingDecision × Router) × (route ar int_of show task policy registry router
              ≡ ok result)
            × IsRouted task policy registry router result)
unfolding route choose
route-IsAdmitted ar int_of show task policy registry router =
    let records = find task.capability_type false false registry in
    let eligible = select (is_eligible policy) records in
    let scored = scores ar policy eligible in
    let sizes = scores-is_empty ar policy eligible in
    let fewer = select-is_empty (is_eligible policy) records in
    let out = score_all scored (exclude_all show policy records []) in
    let made : Option String × RouteReason → RoutingDecision × Router = λ choice.
      let decision = decision_of task policy (evaluations_of out records) router choice in
      (decision, with_decision decision router) in
    (
      λ bad.
          let (r, at, none_of, found) = unreadable-some int_of eligible bad in
          let some_eligible = not_empty r eligible at in
          let some_records =
            not_empty_of (is_empty records) (is_empty eligible) fewer some_eligible in
          (r, at, none_of, rw (some_records, some_eligible, found) refl),
      λ good.
          let fine = unreadable-none int_of eligible good in
          elim (Bool-cases (is_empty eligible)) [
            | inl nobody ↦ elim (Bool-cases (is_empty records)) [
              | inl nothing ↦ (
                made (none, no_capabilities task.capability_type),
                rw nothing refl,
                (λ id bad. cc, (λ e. nobody, λ e. refl), refl),
              )
              | inr something ↦ (
                made (none, all_excluded),
                rw (something, nobody) refl,
                (λ id bad. cc, (λ e. nobody, λ e. refl), refl),
              )
            ]
            | inr somebody ↦
                let some_records =
                  not_empty_of (is_empty records) (is_empty eligible) fewer somebody in
                let found = first_id-sorted (choice_le int_of) scored (sizes ∙ somebody) in
                (
                  made (first_id (sort_by (choice_le int_of) scored), highest_score),
                  rw (some_records, somebody, fine) refl,
                  (
                    λ id chosen.
                        let (p, m, is) = first_id-some (sort_by (choice_le int_of) scored) chosen in
                        (
                          p.0,
                          eligible-IsAdmitted task.capability_type policy registry p.0 (
                              scores-In ar policy eligible p
                                ((In-sort_by p (choice_le int_of) scored).0 m)),
                          is,
                        ),
                    (λ e. absurd (ground arith), λ e. absurd (ground arith)),
                    refl,
                  ),
                )
          ],
    )
  where
    not_empty : {A : Type 0} (a : A) (xs : List A) → In a xs → is_empty xs ≡ false
    not_empty a [] at = absurd at
    not_empty a (x ∷ xs) at = refl

    not_empty_of : (a b : Bool) → (a ≡ true → b ≡ true) → b ≡ false → a ≡ false
    not_empty_of true b h e = sym (h refl) ∙ e
    not_empty_of false b h e = refl
