-- ===== src/Base/Entries.antt =====
-- The entries of a Python dict whose keys are different.
use Prim.Native.String.{String}
use mathlib.Core.Path.{◌≡◌, refl, sym, ◌∙◌, ap, subst}
use mathlib.Core.Logic.{◌⊎◌, inl, inr}
use mathlib.Core.Bool.{true, false}
use mathlib.Core.Option.{some}
use mathlib.Core.List.{[], ◌∷◌}
use native.Mathlib.Omega.{arith}
use text.Mathlib.Text.{◌==◌}
use text.Mathlib.TextEquality.{eq_iff}
use pharae.Base.Tests.{Bool-cases}
use pharae.Base.Lists.{In}
use pharae.Base.Dict.{Dict, has_key, has_key-cons, has_key-insert, insert, lookup}

no_entry : (V : Type 0) (j : String) → has_key {V = V} j [] ≡ false
unfolding has_key lookup
no_entry V j = refl

swapped : (j k : String) → (j == k) ≡ false → (k == j) ≡ false
swapped j k h = ground (arith, eq_iff j k, eq_iff k j)

module _ {V : Type 0} where
  abbrev pub Unique : Dict V → Type 0
  Unique [] = Unit
  Unique ((k, v) ∷ d) = (has_key k d ≡ false) × Unique d

  pub In-has_key : (k : String) (v : V) (d : Dict V) → In (k, v) d → has_key k d ≡ true
  In-has_key k v [] h = absurd h
  In-has_key k v ((j, w) ∷ d) h = elim h [
    | inl here ↦ let same = ap (λ e. e.0) here in ground (arith, has_key-cons k j w d, eq_iff j k)
    | inr later ↦ ground (arith, has_key-cons k j w d, In-has_key k v d later)
  ]

  pub lookup-In : (k : String) (v : V) (d : Dict V) → lookup k d ≡ some v → In (k, v) d
  unfolding lookup
  lookup-In k v [] h = cc
  lookup-In k v ((j, w) ∷ d) h = elim (Bool-cases (j == k)) [
    | inl same ↦
        let value : some w ≡ some v = rw same at h in let key = (eq_iff j k).0 same in inl (cc)
    | inr other ↦ inr (lookup-In k v d (rw other at h))
  ]

  pub insert-Unique : (k : String) (v : V) (d : Dict V) → Unique d → Unique (insert k v d)
  unfolding insert
  insert-Unique k v [] u = (no_entry V k, tt)
  insert-Unique k v ((j, w) ∷ d) u = elim (Bool-cases (j == k)) [
    | inl same ↦ rw (same, Unique) u
    | inr other ↦
        rw (other, Unique)
          (has_key-insert k j v d ∙ rw (swapped j k other) u.0, insert-Unique k v d u.1)
  ]

  -- An entry after an insertion is the new one, or an old one of another key.
  pub In-insert :
      (k b : String) (v s : V) (d : Dict V)
      → Unique d
      → In (b, s) (insert k v d)
      → ((k ≡ b) × (v ≡ s)) ⊎ (((k == b) ≡ false) × In (b, s) d)
  unfolding insert
  In-insert k b v s [] u (inl e) = inl (ap (λ p. p.0) e, ap (λ p. p.1) e)
  In-insert k b v s [] u (inr bad) = absurd bad
  In-insert k b v s ((j, w) ∷ d) u h = elim (Bool-cases (j == k)) [
    | inl same ↦ elim (rw (same, In) at h) [
      | inl e ↦ inl (sym ((eq_iff j k).0 same) ∙ ap (λ p. p.0) e, ap (λ p. p.1) e)
      | inr later ↦ elim (Bool-cases (k == b)) [
        | inr other ↦ inr (other, inr later)
        | inl this ↦
            let there = In-has_key b s d later in
            let key : j ≡ b = (eq_iff j k).0 same ∙ (eq_iff k b).0 this in
            let bad : has_key b d ≡ false = subst (λ x. has_key x d ≡ false) key u.0 in cc
      ]
    ]
    | inr other ↦ elim (rw (other, In) at h) [
      | inl e ↦ inr (subst (λ x. (k == x) ≡ false) (ap (λ p. p.0) e) (swapped j k other), inl e)
      | inr later ↦ elim (In-insert k b v s d u.1 later) [
        | inl new ↦ inl new
        | inr old ↦ inr (old.0, inr old.1)
      ]
    ]
  ]
