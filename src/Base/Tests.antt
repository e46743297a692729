-- ===== src/Base/Tests.antt =====
-- Boolean tests on numbers, the conditional, and results that may be an exception.
use Prim.Native.Nat.{ℕ, compare, Ordering}
use mathlib.Core.Path.{◌≡◌, refl, subst}
use mathlib.Core.Logic.{◌⊎◌, inl, inr}
use mathlib.Core.Bool.{Bool, true, false}
use mathlib.Core.Option.{Option, none, some}

abbrev pub ltb : ℕ → ℕ → Bool
ltb a b = elim (compare a b) [ Ordering.lt ↦ true | _ ↦ false ]

abbrev pub leb : ℕ → ℕ → Bool
leb a b = elim (compare a b) [ Ordering.gt ↦ false | _ ↦ true ]

abbrev pub eqb : ℕ → ℕ → Bool
eqb a b = elim (compare a b) [ Ordering.eq ↦ true | _ ↦ false ]

infix 1 if◌then◌else◌
abbrev pub if◌then◌else◌ {ℓ} : {A : Type ℓ} → Bool → A → A → A
if true then x else _ = x
if false then _ else y = y

pub Bool-cases : (b : Bool) → (b ≡ true) ⊎ (b ≡ false)
Bool-cases true = inl refl
Bool-cases false = inr refl

pub Option-cases {ℓ} : {A : Type ℓ} (o : Option A) → (o ≡ none) ⊎ ((a : A) × (o ≡ some a))
Option-cases none = inl refl
Option-cases (some a) = inr (a, refl)

abbrev pub is_some {ℓ} : {A : Type ℓ} → Option A → Bool
is_some none = false
is_some (some _) = true

-- A call that returns or raises an exception of the component's own type `E`.
pub data Result (E A : Type 0) : Type 0 where
  ok : A → Result E A
  err : E → Result E A

module _ {E A B : Type 0} where
  infixl 5 ◌>>=◌ ◌>>◌
  abbrev pub ◌>>=◌ : Result E A → (A → Result E B) → Result E B
  ok a >>= f = f a
  err e >>= f = err e

  abbrev pub ◌>>◌ : Result E A → Result E B → Result E B
  m >> k = m >>= λ _. k

  pub >>=-eq-ok :
      (first : Result E A) (next : A → Result E B) {end : B}
      → (first >>= next) ≡ ok end
      → (a : A) × (first ≡ ok a) × (next a ≡ ok end)
  >>=-eq-ok (ok a) next whole = (a, refl, whole)
  >>=-eq-ok (err raised) next whole = cc

abbrev pub raise_if : {E : Type 0} → Bool → E → Result E (Unit {0})
raise_if true e = err e
raise_if false e = ok tt

pub Result-cases :
    {E A : Type 0} (r : Result E A) → ((a : A) × (r ≡ ok a)) ⊎ ((e : E) × (r ≡ err e))
Result-cases (ok a) = inl (a, refl)
Result-cases (err e) = inr (e, refl)

-- What holds of the value of a call that returns.
abbrev pub After : {E A : Type 0} → (A → Type 0) → Result E A → Type 0
After P (ok a) = P a
After P (err e) = Unit

pub bind-After :
    {E A B : Type 0} (Q : A → Type 0) (P : B → Type 0) (m : Result E A) (f : A → Result E B)
    → After Q m
    → ((a : A) → Q a → After P (f a))
    → After P (m >>= f)
bind-After Q P (ok a) f q h = h a q
bind-After Q P (err e) f q h = tt

pub After-ok : {E A : Type 0} (P : A → Type 0) (m : Result E A) {a : A} → After P m → m ≡ ok a → P a
After-ok P m h e = subst (λ r. After P r) e h

pub After-map :
    {E A : Type 0} (P Q : A → Type 0) (m : Result E A)
    → ((a : A) → P a → Q a)
    → After P m
    → After Q m
After-map P Q (ok a) f h = f a h
After-map P Q (err e) f h = tt

-- What holds of both branches holds of the test.
pub both_branches {ℓ} :
    {A : Type ℓ} (P : A → Type 0) (b : Bool) (x y : A) → P x → P y → P (if b then x else y)
both_branches P true x y h k = h
both_branches P false x y h k = k
