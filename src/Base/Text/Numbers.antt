-- ===== src/Base/Text/Numbers.antt =====
-- The digits of printed numbers, and reading them back.
use Prim.Native.Nat.{ℕ, zero, suc, ◌+◌, ◌-◌, ◌*◌, ◌/◌, ◌%◌, ◌≤◌, ◌<◌}
use Prim.Native.Char.{Char, code}
use Prim.Native.String.{String, count}
use mathlib.Core.Path.{◌≡◌, refl, sym, ◌∙◌, ap}
use mathlib.Core.Bool.{Bool, true, ◌&&◌}
use mathlib.Core.Logic.{inl, inr}
use native.Mathlib.Omega.{arith}
use native.Mathlib.Nat.{div-add-mod, mod-lt}
use pharae.Base.Tests.{if◌then◌else◌, ltb, eqb, Bool-cases}
use pharae.Base.Text.{digit, digits, zero_fill, decimal, hex}

digit_value : Char → ℕ
digit_value c = if ltb (code c) 58 then code c - 48 else code c - 87

read : (base acc : ℕ) → String → ℕ
read base acc String.[] = acc
read base acc (String.◌∷◌ c s) = read base (acc * base + digit_value c) s

-- The test holds for `0` up to the bound, which is left out.
tests_below : (ℕ → Bool) → ℕ → Bool
tests_below test zero = true
tests_below test (suc bound) = tests_below test bound && test bound

tests_below_lem :
    (test : ℕ → Bool) (bound d : ℕ) → d < bound → tests_below test bound ≡ true → test d ≡ true
unfolding tests_below
tests_below_lem test zero d small all = absurd (omega arith)
tests_below_lem test (suc bound) d small all = ground (arith, tests_below_lem test bound d)

digit_table : tests_below (λ d. eqb (digit_value (digit d)) d) 16 ≡ true
unfolding tests_below digit_value digit
digit_table = refl

digit_value-digit : (d : ℕ) → d < 16 → digit_value (digit d) ≡ d
digit_value-digit d h =
    let found : eqb (digit_value (digit d)) d ≡ true =
      tests_below_lem (λ d. eqb (digit_value (digit d)) d) 16 d h digit_table in
    ground arith

div_smaller : (n base fuel : ℕ) → 1 < base → base ≤ n → n < suc fuel → n / base < fuel
div_smaller n base fuel b large h = grind (arith, div-add-mod n base)

mod_digit :
    (n base : ℕ) → 1 < base → base ≤ 16 → n / base * base + digit_value (digit (n % base)) ≡ n
mod_digit n base b c =
    let low : n % base < base = mod-lt n (omega arith) in
    rw (digit_value-digit (n % base) (omega arith)) (grind (arith, div-add-mod n base))

-- Reading the digits of `n` gives `n` back, whatever stands behind them.
read-digits :
    (base fuel n : ℕ) (acc : String)
    → 1 < base
    → base ≤ 16
    → n < fuel
    → read base 0 (digits base fuel n acc) ≡ read base n acc
unfolding read digits
read-digits base zero n acc b c h = absurd (omega arith)
read-digits base (suc fuel) n acc b c h = elim (Bool-cases (ltb n base)) [
  | inl small ↦
      let low : n < base = ground arith in
      rw small (ap (λ k. read base k acc) (omega (arith, digit_value-digit n (omega arith))))
  | inr large ↦
      let high : base ≤ n = ground arith in
      rw large (
        read-digits base fuel (n / base) (String.◌∷◌ (digit (n % base)) acc) b c
          (div_smaller n base fuel b high h)
        ∙ ap (λ k. read base k acc) (mod_digit n base b c))
]

zero_times : (base : ℕ) → 0 * base + 0 ≡ 0
zero_times base = omega arith

read-zero_fill : (base w : ℕ) (s : String) → read base 0 (zero_fill w s) ≡ read base 0 s
unfolding read zero_fill digit_value
read-zero_fill base zero s = refl
read-zero_fill base (suc w) s =
    ap (λ k. read base k (zero_fill w s)) (zero_times base) ∙ read-zero_fill base w s

pub decimal_inj : (m n : ℕ) → decimal m ≡ decimal n → m ≡ n
unfolding decimal read
decimal_inj m n e =
    let value =
      λ (k : ℕ). read-digits 10 (suc k) k String.[] (omega arith) (omega arith) (omega arith) in
    sym (value m) ∙ ap (read 10 0) e ∙ value n

pub hex_inj : (w m n : ℕ) → hex w m ≡ hex w n → m ≡ n
unfolding hex read
hex_inj w m n e =
    let value = λ (k : ℕ).
      read-zero_fill 16 (w - count (digits 16 (suc k) k String.[])) (digits 16 (suc k) k String.[])
      ∙ read-digits 16 (suc k) k String.[] (omega arith) (omega arith) (omega arith) in
    sym (value m) ∙ ap (read 16 0) e ∙ value n
