-- ===== src/Science/Theory/Promotion.antt =====
-- `TheoryLedger.promote` of nexus/science/theory.py.
use pharae.Base.{
  ℕ, ◌≤◌, String, true, some, ok, length, ◌≡◌, arith, Bool-cases, Option-cases, Result-cases, inl,
  inr, In, eq_refl,
}
use pharae.Base.Dict.{lookup, lookup-insert}
use mathlib.Core.Path.{subst}
use pharae.Schemas.{Float, Evidence, MemoryItem}
use pharae.Memory.Tables.{MemorySystem}
use pharae.Memory
use pharae.Memory.Secrets.{Scanner}
use pharae.Science.Theory.{
  Theory, TheoryLedger, TheoryStatus, active, promoted, is_active, require_theory, require_evidence,
  promotion_content, settle_promoted, promote,
}
use pharae.Science.Theory.Soundness.{AllSound, put_theory-AllSound}

promote-cases :
    (ratio : ℕ → ℕ → Float) (scanner : Scanner) (id policy_id : String) (l : TheoryLedger)
    (m : MemorySystem) {item : MemoryItem} {l' : TheoryLedger} {m' : MemorySystem}
    → promote ratio scanner id policy_id l m ≡ ok (item, l', m')
    → (t : Theory) × (e : Evidence) × (lookup id l.theories ≡ some t)
      × (is_active t.status ≡ true)
      × (t.last_supporting_evidence ≡ some e)
      × (Memory.promote scanner e "semantic" (promotion_content ratio t) policy_id m
          ≡ ok (item, m'))
      × (settle_promoted id t l ≡ l')
unfolding promote require_theory require_evidence
promote-cases ratio scanner id policy_id l m h = elim (Option-cases (lookup id l.theories)) [
  | inl missing ↦ absurd (ground arith)
  | inr (t, found) ↦ elim (Bool-cases (is_active t.status)) [
    | inr idle ↦ absurd (ground arith)
    | inl ready ↦ elim (Option-cases t.last_supporting_evidence) [
      | inl nothing ↦ absurd (ground arith)
      | inr (e, last) ↦
          elim (Result-cases
            (Memory.promote scanner e "semantic" (promotion_content ratio t) policy_id m)) [
              | inr (x, refused) ↦ absurd (ground arith)
              | inl (stored, done) ↦ (t, e, found, ready, last, ground arith, ground arith)
            ]
    ]
  ]
]

active_eq : (s : TheoryStatus) → is_active s ≡ true → s ≡ active
active_eq s h = ground arith

-- A theory is promoted only while it is active, so never twice, after as many replications as the
-- ledger asks for, and into the semantic memory by verified evidence that is among its supporting
-- evidence. It is promoted then, and the ledger stays sound.
pub promote-AllSound :
    (ratio : ℕ → ℕ → Float) (scanner : Scanner) (id policy_id : String) (l : TheoryLedger)
    (m : MemorySystem) {item : MemoryItem} {l' : TheoryLedger} {m' : MemorySystem}
    → AllSound l
    → promote ratio scanner id policy_id l m ≡ ok (item, l', m')
    → AllSound l'
      × ((t : Theory) × (e : Evidence) × (lookup id l.theories ≡ some t)
          × (t.status ≡ active)
          × (l.replication_threshold ≤ length t.supporting)
          × (e.verified ≡ true)
          × In e.id t.supporting
          × (Memory.promote scanner e "semantic" (promotion_content ratio t) policy_id m
              ≡ ok (item, m'))
          × (lookup id l'.theories ≡ some (record t { status = promoted })))
promote-AllSound ratio scanner id policy_id l m {l' = l'} h returned =
    let (t, e, found, ready, last, stored, settled) =
      promote-cases ratio scanner id policy_id l m returned in
    let sound = h id t found in
    let is = active_eq t.status ready in
    let (enough, few) = sound.if_active is in
    let (verified, among) = sound.last_verified e last in
    let t' : Theory = record t { status = promoted } in
    (
      subst AllSound settled (
          put_theory-AllSound id t' l h (record {
            if_active = λ x. cc;
            if_promoted = λ x. enough;
            if_rejected = λ x. cc;
            last_verified = sound.last_verified;
          })),
      (
        t,
        e,
        found,
        is,
        enough,
        verified,
        among,
        stored,
        subst (λ k. lookup id k.theories ≡ some t') settled
            (ground (arith, lookup-insert id id t' l.theories, eq_refl id)),
      ),
    )
