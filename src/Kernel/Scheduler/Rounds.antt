-- ===== src/Kernel/Scheduler/Rounds.antt =====
-- The `while queue` loop of Kahn's algorithm in nexus/kernel/scheduler.py.
use pharae.Base.{
  ℕ, zero, suc, ◌+◌, ◌≤◌, String, true, some, List, [], ◌∷◌, ◌++◌, if◌then◌else◌, eqb, ok, err,
  length, arith, All, All-append, eq_refl, ◌≡◌, refl, ◌==◌, Option-cases, ◌⊎◌, inl, inr, Bool-cases,
  >>=-eq-ok,
}
use pharae.Base.Dict.{
  Dict, lookup, insert, get_or, keys, has_key, get_or-insert, has_key-insert_of, has_key-some,
}
use mathlib.Core.List.{reverse}
use pharae.Base.Int.{ℤ, pos, pos_part, eqb_ℤ}
use pharae.Kernel.Scheduler.Graph.{
  Graph, Kahn, release_child, release, drain, add_dependent, invert, indegrees, roots, cycle,
  degree_sum, rounds, decrement, kahn,
}

degree_sum-insert :
    (k : String) (old new : ℤ) (d : Dict ℤ)
    → lookup k d ≡ some old
    → degree_sum (insert k new d) + pos_part old ≡ degree_sum d + pos_part new
unfolding lookup insert
degree_sum-insert k old new [] e = cc
degree_sum-insert k old new ((j, v) ∷ d) e = elim (Bool-cases (j == k)) [
  | inl same ↦ let now : some v ≡ some old = rw same at e in rw same (ground arith)
  | inr other ↦
      let later : lookup k d ≡ some old = rw other at e in
      rw other (omega (arith, degree_sum-insert k old new d later))
]

abbrev left : Kahn → ℕ
left k = rounds k.indegree k.queue

-- Releasing a child queues it only when one of its dependencies is used up.
release_child-left :
    (c : String) (k : Kahn) {k' : Kahn} → release_child c k ≡ ok k' → left k' ≤ left k
unfolding release_child
release_child-left c k e = elim (Option-cases (lookup c k.indegree)) [
  | inl absent ↦ ground arith
  | inr (deg, found) ↦ ground (arith, degree_sum-insert c deg (decrement deg) k.indegree found)
]

release-left :
    (children : List String) (k : Kahn) {k' : Kahn} → release children k ≡ ok k' → left k' ≤ left k
unfolding release
release-left [] k e = ground arith
release-left (c ∷ cs) k e =
    let (mid, first, rest) = >>=-eq-ok (release_child c k) (release cs) e in
    omega (arith, release_child-left c k first, release-left cs mid rest)

abbrev Known : Dict ℤ → List String → Type 0
Known d cs = All (λ c. has_key c d ≡ true) cs

-- A step keeps the keys of the degrees, so it never meets a KeyError.
release_child_known :
    (c : String) (k : Kahn)
    → has_key c k.indegree ≡ true
    → (k' : Kahn) × (release_child c k ≡ ok k')
      × ((j : String) → has_key j k.indegree ≡ true → has_key j k'.indegree ≡ true)
unfolding release_child
release_child_known c k h =
    let (deg, found) = has_key-some c k.indegree h in
    let left_over = decrement deg in
    (
      record {
        indegree = insert c left_over k.indegree;
        queue = if eqb_ℤ left_over (pos 0) then c ∷ k.queue else k.queue;
        visited = k.visited;
      },
      rw (found, release_child),
      λ j. has_key-insert_of c j left_over k.indegree,
    )

Known-mono :
    (a b : Dict ℤ) (cs : List String)
    → ((j : String) → has_key j a ≡ true → has_key j b ≡ true)
    → Known a cs
    → Known b cs
Known-mono a b [] keep h = tt
Known-mono a b (c ∷ cs) keep h = (keep c h.0, Known-mono a b cs keep h.1)

release-Known :
    (cs : List String) (k : Kahn)
    → Known k.indegree cs
    → (k' : Kahn) × (release cs k ≡ ok k')
      × ((j : String) → has_key j k.indegree ≡ true → has_key j k'.indegree ≡ true)
unfolding release
release-Known [] k h = (k, refl, λ j e. e)
release-Known (c ∷ cs) k h =
    let (mid, first, keep) = release_child_known c k h.0 in
    let (k', rest, keep') = release-Known cs mid (Known-mono k.indegree mid.indegree cs keep h.1) in
    (k', rw first rest, λ j e. keep' j (keep j e))

drain_total :
    (fuel : ℕ) (dependents : Dict (List String)) (indegree : Dict ℤ) (queue : List String)
    (visited : ℕ)
    → ((tid : String) → Known indegree (get_or tid [] dependents))
    → rounds indegree queue ≤ fuel
    → (n : ℕ) × (drain fuel dependents indegree queue visited ≡ ok n)
unfolding drain
drain_total fuel dependents indegree [] visited known enough = (visited, refl)
drain_total zero dependents indegree (tid ∷ queue) visited known enough = absurd (omega arith)
drain_total (suc fuel) dependents indegree (tid ∷ queue) visited known enough =
    let cs = get_or tid [] dependents in
    let k : Kahn = record { indegree = indegree; queue = queue; visited = visited + 1 } in
    let (k', step, keep) = release-Known cs k (known tid) in
    let fewer = release-left cs k step in
    let (n, rest) =
      drain_total fuel dependents k'.indegree k'.queue k'.visited
        (λ t. Known-mono indegree k'.indegree (get_or t [] dependents) keep (known t))
        (omega arith) in
    (n, rw step rest)

module _ (d : Dict ℤ) where
  add_dependent-Known :
      (tid : String) (deps : List String) (m : Dict (List String))
      → has_key tid d ≡ true
      → ((j : String) → Known d (get_or j [] m))
      → (j : String) → Known d (get_or j [] (add_dependent tid deps m))
  unfolding add_dependent
  add_dependent-Known tid [] m here known = known
  add_dependent-Known tid (dep ∷ deps) m here known =
      add_dependent-Known tid deps (insert dep (get_or dep [] m ++ tid ∷ []) m) here λ j.
        rw (get_or-insert dep j [] (get_or dep [] m ++ tid ∷ []) m) (elim (Bool-cases (dep == j)) [
          | inl same ↦ rw same (
              All-append (λ c. has_key c d ≡ true) (get_or dep [] m) (tid ∷ []) (known dep)
                (here, tt))
          | inr other ↦ rw other (known j)
        ])

  invert-Known :
      (graph : Graph) (m : Dict (List String))
      → Known d (keys graph)
      → ((j : String) → Known d (get_or j [] m))
      → (j : String) → Known d (get_or j [] (invert graph m))
  unfolding invert
  invert-Known [] m here known = known
  invert-Known ((tid, deps) ∷ graph) m here known =
      invert-Known graph (add_dependent tid deps m) here.1
        (add_dependent-Known tid deps m here.0 known)

indegrees_self : (k : String) (v : ℤ) (d : Dict ℤ) → has_key k ((k, v) ∷ d) ≡ true
unfolding has_key lookup
indegrees_self k v d = ground (arith, eq_refl k)

indegrees_later :
    (k j : String) (v : ℤ) (d : Dict ℤ) → has_key j d ≡ true → has_key j ((k, v) ∷ d) ≡ true
unfolding has_key lookup
indegrees_later k j v d h = ground arith

indegrees-Known : (graph : Graph) → Known (indegrees graph) (keys graph)
indegrees-Known [] = tt
indegrees-Known ((tid, deps) ∷ graph) =
    let rest = indegrees graph in
    let deg = pos (length deps) in
    (
      indegrees_self tid deg rest,
      Known-mono rest ((tid, deg) ∷ rest) (keys graph) (λ j. indegrees_later tid j deg rest)
          (indegrees-Known graph),
    )

nothing-Known : (d : Dict ℤ) (j : String) → Known d (get_or j [] [])
unfolding get_or lookup
nothing-Known d j = tt

-- Kahn's algorithm ends on every graph: its loop stays within the given rounds and meets no
-- KeyError, so the answer is that there is no cycle, or that there is one.
pub kahn_total : (graph : Graph) → (kahn graph ≡ ok tt) ⊎ (kahn graph ≡ err cycle)
unfolding kahn
kahn_total graph =
    let d = indegrees graph in
    let queue = reverse (roots d) in
    let (n, ends) =
      drain_total (rounds d queue) (invert graph []) d queue 0
        (invert-Known d graph [] (indegrees-Known graph) (nothing-Known d)) (omega arith) in
    rw ends (elim (Bool-cases (eqb n (length graph))) [
      | inl all ↦ inl (rw all)
      | inr some_left ↦ inr (rw some_left)
    ])
