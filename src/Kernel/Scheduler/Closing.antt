-- ===== src/Kernel/Scheduler/Closing.antt =====
-- `_block_dependents` of nexus/kernel/scheduler.py: the tasks that it closes.
use pharae.Base.{
  ℕ, zero, suc, ◌≤◌, String, true, false, List, [], ◌∷◌, arith, ◌≡◌, refl, ap, ◌∙◌, ◌==◌, eq_iff,
  Bool-cases, inl, inr, All,
}
use mathlib.Core.Path.{subst}
use pharae.Base.Dict.{get_or}
use pharae.Schemas.{TaskStatus}
use pharae.Kernel.Scheduler.{Scheduler, set_status, is_open, children, block_children}
use pharae.Kernel.Scheduler.Marks.{
  open_count, set_status-dependents, is_open-set_status, open_count-set_status, visit, Keeps,
  Keeps-closed, Keeps-refl, Keeps-trans, set_status-Keeps, block_children-Keeps,
}

-- Whatever was open before and is not open after, of that the children are closed.
abbrev pub Sealed : Scheduler → Scheduler → Type 0
Sealed before after =
    (x : String)
    → is_open x before ≡ true
    → is_open x after ≡ false
    → All (λ c. is_open c after ≡ false) (children x after)

pub Closed-mono :
    (a b : Scheduler) (cs : List String)
    → Keeps a b
    → All (λ c. is_open c a ≡ false) cs
    → All (λ c. is_open c b ≡ false) cs
Closed-mono a b [] k h = tt
Closed-mono a b (c ∷ cs) k h = (Keeps-closed a b c k h.0, Closed-mono a b cs k h.1)

pub children_of :
    (x : String) (a b : Scheduler) → b.dependents ≡ a.dependents → children x b ≡ children x a
children_of x a b e = ap (get_or x []) e

pub open_of_count : (c : String) (s : Scheduler) → is_open c s ≡ true → 1 ≤ open_count s.tasks
open_of_count c s live = omega (arith, open_count-set_status c TaskStatus.blocked s live refl)

module _ (fuel : ℕ)
    (closes : (cs : List String) (s : Scheduler)
      → open_count s.tasks ≤ fuel
      → All (λ c. is_open c (block_children fuel cs s) ≡ false) cs)
    (seals : (cs : List String) (s : Scheduler)
      → open_count s.tasks ≤ fuel
      → Sealed s (block_children fuel cs s)) where
  pub visit-Keeps : (c : String) (s : Scheduler) → Keeps s (visit fuel c s)
  visit-Keeps c s = elim (Bool-cases (is_open c s)) [
    | inl live ↦ rw live (
        Keeps-trans s _ _ (set_status-Keeps c TaskStatus.blocked s live refl)
          (block_children-Keeps fuel (children c s) _))
    | inr closed ↦ rw closed (Keeps-refl s)
  ]

  pub visit_closes : (c : String) (s : Scheduler) → is_open c (visit fuel c s) ≡ false
  visit_closes c s = elim (Bool-cases (is_open c s)) [
    | inl live ↦
        let marked = set_status c TaskStatus.blocked s in
        let now : is_open c marked ≡ false =
          ground (arith, is_open-set_status c c TaskStatus.blocked s refl, eq_iff c c) in
        rw live (
          Keeps-closed marked (block_children fuel (children c s) marked) c
            (block_children-Keeps fuel (children c s) marked) now)
    | inr closed ↦ rw closed closed
  ]

  pub visit_seals :
      (c : String) (s : Scheduler) → open_count s.tasks ≤ suc fuel → Sealed s (visit fuel c s)
  visit_seals c s enough x live_before = elim (Bool-cases (is_open c s)) [
    | inl live ↦
        let marked = set_status c TaskStatus.blocked s in
        let after = block_children fuel (children c s) marked in
        let fits : open_count marked.tasks ≤ fuel =
          omega (arith, open_count-set_status c TaskStatus.blocked s live refl) in
        let keeps = block_children-Keeps fuel (children c s) marked in
        let graph : children c after ≡ children c s =
          children_of c s after (keeps.same_graph ∙ set_status-dependents c TaskStatus.blocked s) in
        let own : All (λ k. is_open k after ≡ false) (children c after) =
          rw graph (closes (children c s) marked fits) in
        rw live (λ closed_after. elim (Bool-cases (c == x)) [
          | inl same ↦
              subst (λ y. All (λ k. is_open k after ≡ false) (children y after))
                ((eq_iff c x).0 same) own
          | inr other ↦
              seals (children c s) marked fits x
                (is_open-set_status c x TaskStatus.blocked s refl ∙ rw other live_before)
                closed_after
        ])
    | inr closed ↦ rw closed (λ closed_after. cc)
  ]

pub none_open :
    (cs : List String) (s : Scheduler) → open_count s.tasks ≤ 0 → All (λ c. is_open c s ≡ false) cs
none_open [] s h = tt
none_open (c ∷ cs) s h = (
  elim (Bool-cases (is_open c s)) [
    | inl live ↦ let some_open = open_of_count c s live in absurd (omega arith)
    | inr closed ↦ closed
  ],
  none_open cs s h,
)

-- With enough fuel for the open tasks the loop closes the listed tasks, and whatever it closes it
-- closes with all of its children.
pub block_children_closes :
    (fuel : ℕ) (cs : List String) (s : Scheduler)
    → open_count s.tasks ≤ fuel
    → All (λ c. is_open c (block_children fuel cs s) ≡ false) cs
      × Sealed s (block_children fuel cs s)
unfolding block_children
block_children_closes fuel [] s h = (tt, λ x live closed. cc)
block_children_closes zero (c ∷ cs) s h = (none_open (c ∷ cs) s h, λ x live closed. cc)
block_children_closes (suc fuel) (c ∷ cs) s h =
    let closes = λ (ds : List String) (r : Scheduler) (e : open_count r.tasks ≤ fuel).
      (block_children_closes fuel ds r e).0 in
    let seals = λ (ds : List String) (r : Scheduler) (e : open_count r.tasks ≤ fuel).
      (block_children_closes fuel ds r e).1 in
    let mid = visit fuel c s in
    let after = block_children (suc fuel) cs mid in
    let first = visit-Keeps fuel closes seals c s in
    let keeps = block_children-Keeps (suc fuel) cs mid in
    let (rest, sealed) = block_children_closes (suc fuel) cs mid (omega (arith, first.count)) in
    (
      (Keeps-closed mid after c keeps (visit_closes fuel closes seals c s), rest),
      λ x live closed. elim (Bool-cases (is_open x mid)) [
        | inl later ↦ sealed x later closed
        | inr now ↦ rw (children_of x mid after keeps.same_graph) (
            Closed-mono mid after (children x mid) keeps
              (visit_seals fuel closes seals c s h x live now))
      ],
    )
