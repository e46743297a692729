-- ===== src/Base/Lists.antt =====
-- Lists measured by native numbers, comprehensions, membership, and Python's stable `sorted`.
use Prim.Native.Nat.{ℕ, suc, ◌+◌}
use Prim.Native.String.{String}
use mathlib.Core.Path.{◌≡◌, refl}
use mathlib.Core.Logic.{◌↔◌, ◌⊎◌, inl, inr}
use mathlib.Core.Bool.{Bool, true, false, ◌&&◌, ◌||◌}
use mathlib.Core.List.{List, [], ◌∷◌, ◌++◌, Perm}
use mathlib.Core.List.Perm
use native.Mathlib.Omega.{arith}
use text.Mathlib.Text.{◌==◌}
use text.Mathlib.TextEquality.{eq_iff}
use pharae.Base.Tests.{if◌then◌else◌, Bool-cases}

module _ {A : Type 0} where
  abbrev pub length : List A → ℕ
  length [] = 0
  length (x ∷ xs) = suc (length xs)

  abbrev pub is_empty : List A → Bool
  is_empty [] = true
  is_empty (x ∷ xs) = false

  pub is_empty-append :
      (xs ys : List A) → is_empty (xs ++ ys) ≡ true → (is_empty xs ≡ true) × (is_empty ys ≡ true)
  is_empty-append [] ys h = (refl, h)
  is_empty-append (x ∷ xs) ys h = cc

  pub length-append : (xs ys : List A) → length (xs ++ ys) ≡ length xs + length ys
  length-append [] ys = omega arith
  length-append (x ∷ xs) ys = omega (arith, length-append xs ys)

  -- `[x for x in xs if p(x)]`
  abbrev pub select : (A → Bool) → List A → List A
  select p [] = []
  select p (x ∷ xs) = if p x then x ∷ select p xs else select p xs

  -- `all(p(x) for x in xs)` and `any(p(x) for x in xs)`
  abbrev pub all_of : (A → Bool) → List A → Bool
  all_of p [] = true
  all_of p (x ∷ xs) = p x && all_of p xs

  abbrev pub any_of : (A → Bool) → List A → Bool
  any_of p [] = false
  any_of p (x ∷ xs) = p x || any_of p xs

  -- Membership, with the place kept, and a statement about every member.
  abbrev pub In : A → List A → Type 0
  In a [] = ⊥
  In a (x ∷ xs) = (x ≡ a) ⊎ In a xs

  abbrev pub All : (A → Type 0) → List A → Type 0
  All P [] = Unit
  All P (x ∷ xs) = P x × All P xs

  pub All-In : (P : A → Type 0) (a : A) (xs : List A) → All P xs → In a xs → P a
  All-In P a [] h m = absurd m
  All-In P a (x ∷ xs) h m = elim m [ inl e ↦ rw e at h.0 | inr later ↦ All-In P a xs h.1 later ]

  pub All-of_In : (P : A → Type 0) (xs : List A) → ((a : A) → In a xs → P a) → All P xs
  All-of_In P [] h = tt
  All-of_In P (x ∷ xs) h = (h x (inl refl), All-of_In P xs (λ a m. h a (inr m)))

  pub All-append :
      (P : A → Type 0) (front back : List A) → All P front → All P back → All P (front ++ back)
  All-append P [] back before after = after
  All-append P (a ∷ front) back (first, before) after =
      (first, All-append P front back before after)

  pub In-append : (a : A) (xs ys : List A) → In a (xs ++ ys) ↔ (In a xs ⊎ In a ys)
  In-append a [] ys = (λ m. inr m, λ d. elim d [ inl m ↦ absurd m | inr m ↦ m ])
  In-append a (x ∷ xs) ys = (
    λ m. elim m [
      | inl e ↦ inl (inl e)
      | inr later ↦ elim ((In-append a xs ys).0 later) [ inl l ↦ inl (inr l) | inr r ↦ inr r ]
    ],
    λ d. elim d [
      | inl m ↦ elim m [ inl e ↦ inl e | inr l ↦ inr ((In-append a xs ys).1 (inl l)) ]
      | inr m ↦ inr ((In-append a xs ys).1 (inr m))
    ],
  )

  pub In-select :
      (a : A) (p : A → Bool) (xs : List A) → In a (select p xs) ↔ (In a xs × (p a ≡ true))
  In-select a p [] = (λ m. absurd m, λ h. absurd h.0)
  In-select a p (x ∷ xs) = elim (Bool-cases (p x)) [
    | inl holds ↦ (
      λ m. elim (let m' : In a (x ∷ select p xs) = rw holds at m in m') [
        | inl e ↦ (inl e, rw e at holds)
        | inr l ↦ let (at, ok) = (In-select a p xs).0 l in (inr at, ok)
      ],
      λ (m, good).
          rw holds (elim m [ inl e ↦ inl e | inr l ↦ inr ((In-select a p xs).1 (l, good)) ]),
    )
    | inr fails ↦ (
      λ m. let (at, ok) = (In-select a p xs).0 (rw fails at m) in (inr at, ok),
      λ (m, good). rw fails (elim m [
        | inl e ↦ let bad : p a ≡ false = rw e at fails in cc
        | inr l ↦ (In-select a p xs).1 (l, good)
      ]),
    )
  ]

  -- `sorted(xs, key=...)`: a stable insertion sort by the keys' order.
  unfoldable pub insort : (A → A → Bool) → A → List A → List A
  insort le x [] = x ∷ []
  insort le x (y ∷ ys) = if le x y then x ∷ y ∷ ys else y ∷ insort le x ys

  unfoldable pub sort_by : (A → A → Bool) → List A → List A
  unfolding insort
  sort_by le [] = []
  sort_by le (x ∷ xs) = insort le x (sort_by le xs)

  insort-perm : (le : A → A → Bool) (x : A) (xs : List A) → Perm (insort le x xs) (x ∷ xs)
  unfolding insort
  insort-perm le x [] = Perm.rfl
  insort-perm le x (y ∷ ys) = elim (Bool-cases (le x y)) [
    | inl before ↦ rw before Perm.rfl
    | inr after ↦ rw after (Perm.trans (Perm.cons y (insort-perm le x ys)) (Perm.swap x y ys))
  ]

  pub sort_by-perm : (le : A → A → Bool) (xs : List A) → Perm (sort_by le xs) xs
  unfolding sort_by
  sort_by-perm le [] = Perm.rfl
  sort_by-perm le (x ∷ xs) =
      Perm.trans (insort-perm le x (sort_by le xs)) (Perm.cons x (sort_by-perm le xs))

  pub In-insort :
      (a : A) (le : A → A → Bool) (x : A) (xs : List A) → In a (insort le x xs) ↔ In a (x ∷ xs)
  unfolding insort
  In-insort a le x [] = (λ m. m, λ m. m)
  In-insort a le x (y ∷ ys) = elim (Bool-cases (le x y)) [
    | inl before ↦ rw before (λ m. m, λ m. m)
    | inr after ↦ rw after (
      λ m. elim m [
        | inl e ↦ inr (inl e)
        | inr l ↦ elim ((In-insort a le x ys).0 l) [ inl e ↦ inl e | inr r ↦ inr (inr r) ]
      ],
      λ m. elim m [
        | inl e ↦ inr ((In-insort a le x ys).1 (inl e))
        | inr l ↦ elim l [ inl e ↦ inl e | inr r ↦ inr ((In-insort a le x ys).1 (inr r)) ]
      ],
    )
  ]

  pub In-sort_by : (a : A) (le : A → A → Bool) (xs : List A) → In a (sort_by le xs) ↔ In a xs
  unfolding sort_by
  In-sort_by a le [] = (λ m. m, λ m. m)
  In-sort_by a le (x ∷ xs) = (
    λ m. elim ((In-insort a le x (sort_by le xs)).0 m) [
      | inl e ↦ inl e
      | inr l ↦ inr ((In-sort_by a le xs).0 l)
    ],
    λ m.
        (In-insort a le x (sort_by le xs)).1
          (elim m [ inl e ↦ inl e | inr l ↦ inr ((In-sort_by a le xs).1 l) ]),
  )

  -- Every element stands before the later ones in the order.
  abbrev pub Sorted : (A → A → Bool) → List A → Type 0
  Sorted le [] = Unit
  Sorted le (x ∷ xs) = All (λ y. le x y ≡ true) xs × Sorted le xs

  module _ (le : A → A → Bool) (total : (x y : A) → le x y ≡ false → le y x ≡ true)
      (trans : (x y z : A) → le x y ≡ true → le y z ≡ true → le x z ≡ true) where
    insort-All : (P : A → Type 0) (x : A) (xs : List A) → P x → All P xs → All P (insort le x xs)
    unfolding insort
    insort-All P x [] px h = (px, tt)
    insort-All P x (y ∷ ys) px h = elim (Bool-cases (le x y)) [
      | inl before ↦ rw before (px, h)
      | inr after ↦ rw after (h.0, insort-All P x ys px h.1)
    ]

    below-All :
        (x y : A) (ys : List A)
        → le x y ≡ true
        → All (λ z. le y z ≡ true) ys
        → All (λ z. le x z ≡ true) ys
    below-All x y [] e h = tt
    below-All x y (z ∷ zs) e h = (trans x y z e h.0, below-All x y zs e h.1)

    insort-Sorted : (x : A) (xs : List A) → Sorted le xs → Sorted le (insort le x xs)
    unfolding insort
    insort-Sorted x [] h = (tt, tt)
    insort-Sorted x (y ∷ ys) h = elim (Bool-cases (le x y)) [
      | inl before ↦ rw before ((before, below-All x y ys before h.0), h)
      | inr after ↦
          rw after
            (insort-All (λ z. le y z ≡ true) x ys (total x y after) h.0, insort-Sorted x ys h.1)
    ]

    pub sort_by-Sorted : (xs : List A) → Sorted le (sort_by le xs)
    unfolding sort_by
    sort_by-Sorted [] = tt
    sort_by-Sorted (x ∷ xs) = insort-Sorted x (sort_by le xs) (sort_by-Sorted xs)

-- `x in xs` for a list or set of texts.
unfoldable pub elem : String → List String → Bool
elem k [] = false
elem k (x ∷ xs) = x == k || elem k xs

pub elem_iff : (k : String) (xs : List String) → (elem k xs ≡ true) ↔ In k xs
unfolding elem
elem_iff k [] = (λ h. cc, λ m. absurd m)
elem_iff k (x ∷ xs) = elim (Bool-cases (x == k)) [
  | inl same ↦ (λ h. inl ((eq_iff x k).0 same), λ m. rw same)
  | inr other ↦ (
    λ h. inr ((elem_iff k xs).0 (rw other at h)),
    λ m. rw other (elim m [
      | inl e ↦ let yes_ : (x == k) ≡ true = (eq_iff x k).1 e in cc
      | inr l ↦ (elem_iff k xs).1 l
    ]),
  )
]
