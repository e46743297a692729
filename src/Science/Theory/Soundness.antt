-- ===== src/Science/Theory/Soundness.antt =====
-- The statuses of nexus/science/theory.py and the evidence behind them.
use pharae.Base.{
  ℕ, ◌<◌, ◌≤◌, String, Bool, true, false, Option, none, some, [], ◌∷◌, ◌++◌, ok, length, leb,
  length-append, ◌≡◌, refl, sym, ap, ◌∙◌, arith, Bool-cases, Option-cases, inl, inr, In, In-append,
  ◌==◌,
}
use pharae.Base.Dict.{lookup, lookup-insert}
use mathlib.Core.Path.{subst}
use pharae.Schemas.{Evidence}
use pharae.Science.Theory.{
  Theory, TheoryLedger, pending, active, rejected, promoted, is_settled, put_theory, proposal,
  propose, new_theory, require_theory, with_observation, judged, publish_rejection, publish_theory,
  observed, observe_theory, observe,
}

-- What a theory's status and its last evidence stand for.
pub record IsSound (replication refutation : ℕ) (t : Theory) : Type 0 where
  pub if_active :
      t.status ≡ active → (replication ≤ length t.supporting) × (length t.refuting < refutation)
  pub if_promoted : t.status ≡ promoted → replication ≤ length t.supporting
  pub if_rejected : t.status ≡ rejected → refutation ≤ length t.refuting
  pub last_verified :
      (e : Evidence)
      → t.last_supporting_evidence ≡ some e
      → (e.verified ≡ true) × In e.id t.supporting

abbrev pub AllSound : TheoryLedger → Type 0
AllSound l =
    (id : String) (t : Theory)
    → lookup id l.theories ≡ some t
    → IsSound l.replication_threshold l.refutation_threshold t

pub put_theory-AllSound :
    (id : String) (t : Theory) (l : TheoryLedger)
    → AllSound l
    → IsSound l.replication_threshold l.refutation_threshold t
    → AllSound (put_theory id t l)
put_theory-AllSound id t l h sound j u found = elim (Bool-cases (id == j)) [
  | inl same ↦
      let is : t ≡ u = let law = lookup-insert id j t l.theories in ground arith in
      subst (IsSound l.replication_threshold l.refutation_threshold) is sound
  | inr other ↦ h j u (let law = lookup-insert id j t l.theories in ground arith)
]

-- An open theory's record: what remains to be known of it when it is judged.
abbrev Backed : Theory → Type 0
Backed t =
    (e : Evidence)
    → t.last_supporting_evidence ≡ some e
    → (e.verified ≡ true) × In e.id t.supporting

with_observation-Backed :
    (evidence : Evidence) (supports : Bool) (t : Theory)
    → evidence.verified ≡ true
    → Backed t
    → Backed (with_observation evidence supports t)
with_observation-Backed evidence true t verified h e is =
    let same : evidence ≡ e = ground arith in
    subst (λ x. (x.verified ≡ true) × In x.id (t.supporting ++ evidence.id ∷ [])) same
      (verified, (In-append evidence.id t.supporting (evidence.id ∷ [])).1 (inr (inl refl)))
with_observation-Backed evidence false t verified h e is = h e is

with_observation-status :
    (evidence : Evidence) (supports : Bool) (t : Theory)
    → (with_observation evidence supports t).status ≡ t.status
with_observation-status evidence true t = refl
with_observation-status evidence false t = refl

judged-IsSound :
    (replication refutation : ℕ) (t : Theory)
    → is_settled t.status ≡ false
    → Backed t
    → (t.status ≡ active → replication ≤ length t.supporting)
    → IsSound replication refutation (judged replication refutation t)
judged-IsSound replication refutation t unsettled backed was =
    elim (Bool-cases (leb refutation (length t.refuting))) [
      | inl refuted ↦ rw refuted (record {
        if_active = λ e. cc;
        if_promoted = λ e. cc;
        if_rejected = λ e. ground arith;
        last_verified = backed;
      })
      | inr stands ↦ elim (Bool-cases (leb replication (length t.supporting))) [
        | inl enough ↦
            rw (stands, enough)
              (record {
                if_active = λ e. (ground arith, ground arith);
                if_promoted = λ e. cc;
                if_rejected = λ e. cc;
                last_verified = backed;
              })
        | inr few ↦
            rw (stands, few)
              (record {
                if_active = λ e. let k = was e in absurd (ground arith);
                if_promoted = λ e. absurd (ground arith);
                if_rejected = λ e. absurd (ground arith);
                last_verified = backed;
              })
      ]
    ]

-- Ledgers that differ in what they published.
abbrev SameBook : TheoryLedger → TheoryLedger → Type 0
SameBook k l =
    (k.theories ≡ l.theories)
    × (k.replication_threshold ≡ l.replication_threshold)
    × (k.refutation_threshold ≡ l.refutation_threshold)

SameBook-AllSound : (k l : TheoryLedger) → SameBook k l → AllSound l → AllSound k
SameBook-AllSound k l (book, low, high) h id t found = rw (low, high) (h id t (rw book at found))

publish_rejection-SameBook : (t : Theory) (l : TheoryLedger) → SameBook (publish_rejection t l) l
publish_rejection-SameBook t l =
    elim (Bool-cases (leb l.refutation_threshold (length t.refuting))) [
      | inl yes_ ↦ rw yes_ (refl, refl, refl)
      | inr no_ ↦ rw no_ (refl, refl, refl)
    ]

observed-AllSound :
    (id : String) (evidence : Evidence) (supports : Bool) (t : Theory) (l : TheoryLedger)
    → AllSound l
    → lookup id l.theories ≡ some t
    → is_settled t.status ≡ false
    → evidence.verified ≡ true
    → AllSound (observed id evidence supports t l).1
unfolding observed
observed-AllSound id evidence supports t l h found unsettled verified =
    let seen = with_observation evidence supports t in
    let told = publish_theory "theory.observed" seen l in
    let k = publish_rejection seen told in
    let (book, low, high) = publish_rejection-SameBook seen told in
    let sound = h id t found in
    let status = with_observation-status evidence supports t in
    put_theory-AllSound id (judged l.replication_threshold l.refutation_threshold seen) k
      (SameBook-AllSound k l (book, low, high) h)
      (rw (low, high)
        (judged-IsSound l.replication_threshold l.refutation_threshold seen (rw status unsettled)
          (with_observation-Backed evidence supports t verified sound.last_verified)
          (λ e. longer supports (sound.if_active (sym status ∙ e)).0)))
  where
    longer :
        (b : Bool)
        → l.replication_threshold ≤ length t.supporting
        → l.replication_threshold ≤ length (with_observation evidence b t).supporting
    longer true low = let more = length-append t.supporting (evidence.id ∷ []) in omega arith
    longer false low = low

-- An observation is taken only from verified evidence, and it leaves a settled theory as it is. In
-- the ledger that it leaves, every active theory has enough replications and too few refutations
-- to reject it, every rejected one has enough refutations, every promoted one was replicated often
-- enough, and the last supporting evidence of each is verified and among its supporting evidence.
pub observe-AllSound :
    (id : String) (evidence : Evidence) (supports : Bool) (l : TheoryLedger) {t : Theory}
    {l' : TheoryLedger}
    → AllSound l
    → observe id evidence supports l ≡ ok (t, l')
    → (evidence.verified ≡ true)
      × AllSound l'
      × ((old : Theory)
          → lookup id l.theories ≡ some old
          → is_settled old.status ≡ true
          → (t ≡ old) × (l' ≡ l))
unfolding observe require_theory
observe-AllSound id evidence supports l {t = t} {l' = l'} h returned =
    elim (Bool-cases evidence.verified) [
      | inr bad ↦ absurd (ground arith)
      | inl verified ↦ elim (Option-cases (lookup id l.theories)) [
        | inl missing ↦ absurd (ground arith)
        | inr (old, found) ↦
            let result : observe_theory id evidence supports old l ≡ (t, l') = ground arith in
            elim (Bool-cases (is_settled old.status)) [
              | inl settled ↦
                  let same : (old, l) ≡ (t, l') = rw settled at result in
                  let is_old : old ≡ t = ap (λ r. r.0) same in
                  let is_l : l ≡ l' = ap (λ r. r.1) same in
                  (
                    verified,
                    subst (λ r. AllSound r.1) same h,
                    λ x is s. (sym is_old ∙ (let e : old ≡ x = ground arith in e), sym is_l),
                  )
              | inr open_ ↦
                  let new : observed id evidence supports old l ≡ (t, l') = rw open_ at result in
                  (
                    verified,
                    subst (λ r. AllSound r.1) new
                        (observed-AllSound id evidence supports old l h found open_ verified),
                    λ x is s.
                        let e : old ≡ x = ground arith in
                        let bad = rw (sym e) at s in absurd (ground arith),
                  )
            ]
      ]
    ]

proposal-AllSound :
    (id statement : String) (o : Option Theory) (l : TheoryLedger)
    → AllSound l
    → AllSound (proposal id statement o l).1
      × ((t : Theory) → o ≡ some t → (proposal id statement o l).0 ≡ t)
      × (o ≡ none → (proposal id statement o l).0.status ≡ pending)
unfolding proposal
proposal-AllSound id statement (some t) l h = (h, λ x is. ground arith, λ none_. cc)
proposal-AllSound id statement none l h = (
  put_theory-AllSound id (new_theory id statement) l h (record {
    if_active = λ e. cc;
    if_promoted = λ e. cc;
    if_rejected = λ e. cc;
    last_verified = λ e is. cc;
  }),
  λ x is. cc,
  λ none_. refl,
)

-- A proposal keeps the ledger sound. A statement that is known keeps its record, and a new one is
-- pending.
pub propose-AllSound :
    (id statement : String) (l : TheoryLedger)
    → AllSound l
    → AllSound (propose id statement l).1
      × ((t : Theory) → lookup id l.theories ≡ some t → (propose id statement l).0 ≡ t)
      × (lookup id l.theories ≡ none → (propose id statement l).0.status ≡ pending)
unfolding propose
propose-AllSound id statement l h = proposal-AllSound id statement (lookup id l.theories) l h
