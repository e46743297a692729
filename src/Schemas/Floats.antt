-- ===== src/Schemas/Floats.antt =====
-- Python's floats as the program compares them: IEEE doubles by their bits, where no comparison
-- with a NaN holds and the two zeros are equal. Sums and products are those of the `Arithmetic`
-- that the operations are given.
use pharae.Base.{
  ℕ, zero, suc, ◌-◌, Bool, true, not, ◌&&◌, if◌then◌else◌, ltb, arith, ◌≡◌, refl, Bool-cases, inl,
  inr,
}
use pharae.Base.Int.{ℤ, pos, negsuc, leb_ℤ}
use pharae.Schemas.Json.{Float}

pub record Arithmetic : Type 0 where
  pub plus : Float → Float → Float
  pub minus : Float → Float → Float
  pub times : Float → Float → Float
  pub divide : Float → Float → Float

abbrev sign_bit : ℕ
sign_bit = 9223372036854775808

abbrev infinity_bits : ℕ
infinity_bits = 9218868437227405312

abbrev negated : ℕ → ℤ
negated zero = pos 0
negated (suc n) = negsuc n

-- The bits without the sign, and the number that orders the floats.
abbrev magnitude : ℕ → ℕ
magnitude n = if ltb n sign_bit then n else n - sign_bit

abbrev rank : ℕ → ℤ
rank n = if ltb n sign_bit then pos n else negated (n - sign_bit)

unfoldable pub is_nan : Float → Bool
is_nan x = ltb infinity_bits (magnitude x.bits)

-- `x <= y`
unfoldable pub at_most : Float → Float → Bool
unfolding is_nan
at_most x y = not (is_nan x) && (not (is_nan y) && leb_ℤ (rank x.bits) (rank y.bits))

-- `x < y`
unfoldable pub less : Float → Float → Bool
unfolding is_nan
less x y = not (is_nan x) && (not (is_nan y) && not (leb_ℤ (rank y.bits) (rank x.bits)))

abbrev pub float_zero : Float
float_zero = record { bits = 0 }

abbrev pub float_one : Float
float_one = record { bits = 4607182418800017408 }

-- 0.5, 0.2 and 0.1
abbrev pub float_half : Float
float_half = record { bits = 4602678819172646912 }

abbrev pub float_fifth : Float
float_fifth = record { bits = 4596373779694328218 }

abbrev pub float_tenth : Float
float_tenth = record { bits = 4591870180066957722 }

-- `min(x, y)` and `max(x, y)`: the first argument, unless the second is smaller, or larger.
abbrev pub float_min : Float → Float → Float
float_min x y = if less y x then y else x

abbrev pub float_max : Float → Float → Float
float_max x y = if less x y then y else x

-- `0.0 <= x <= 1.0`
abbrev pub in_unit : Float → Bool
in_unit x = at_most float_zero x && at_most x float_one

-- `max(0.0, min(1.0, x))`
unfoldable pub clamp : Float → Float
unfolding less
clamp x = float_max float_zero (float_min float_one x)

pub less-at_most : (x y : Float) → less x y ≡ true → at_most x y ≡ true
unfolding less at_most
less-at_most x y h = elim (Bool-cases (is_nan x)) [ inl e ↦ ground arith | inr e ↦ ground arith ]

zero_in_unit : in_unit float_zero ≡ true
unfolding at_most
zero_in_unit = refl

one_in_unit : in_unit float_one ≡ true
unfolding at_most
one_in_unit = refl

-- Whatever float is clamped, a NaN too, the result is in the unit interval.
pub clamp-in_unit : (x : Float) → in_unit (clamp x) ≡ true
unfolding clamp
clamp-in_unit x = elim (Bool-cases (less x float_one)) [
  | inl below ↦ rw below (elim (Bool-cases (less float_zero x)) [
    | inl above ↦ rw above (ground (arith, less-at_most x float_one, less-at_most float_zero x))
    | inr small ↦ rw small zero_in_unit
  ])
  | inr over ↦ rw over one_in_unit
]
