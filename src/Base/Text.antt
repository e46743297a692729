-- ===== src/Base/Text.antt =====
-- Python's operations on texts: `endswith`, `s[:-1]`, the order of texts, and `f"{n:06x}"`.
pub mod Numbers
use Prim.Native.Nat.{ℕ, zero, suc, ◌-◌, ◌/◌, ◌%◌}
use Prim.Native.Char.{Char, code}
use Prim.Native.String
use Prim.Native.String.{String, compare, count}
use mathlib.Core.Bool.{Bool, true, ◌&&◌, ◌||◌}
use mathlib.Core.List.{List, [], ◌∷◌}
use text.Mathlib.Text.{◌==◌, is_le}
use pharae.Base.Tests.{if◌then◌else◌, ltb, leb, eqb}

infixr 65 ◌⧺◌
abbrev pub ◌⧺◌ : String → String → String
s ⧺ t = String.◌++◌ s t

-- `s.endswith(t)`
unfoldable pub ends_with : String → String → Bool
ends_with String.[] t = String.[] == t
ends_with (String.◌∷◌ c s) t = String.◌∷◌ c s == t || ends_with s t

-- `s[:-1]`
unfoldable pub drop_last : String → String
drop_last String.[] = String.[]
drop_last (String.◌∷◌ c String.[]) = String.[]
drop_last (String.◌∷◌ c (String.◌∷◌ d s)) = String.◌∷◌ c (drop_last (String.◌∷◌ d s))

-- The order of texts, by code points.
unfoldable pub text_le : String → String → Bool
text_le s t = is_le (compare s t)

-- `c.isspace()`, by the code points that Python counts as white space.
unfoldable pub is_space : ℕ → Bool
is_space c =
    (leb 9 c && leb c 13)
    || ((leb 28 c && leb c 32)
        || (eqb c 133
            || (eqb c 160
                || (eqb c 5760
                    || ((leb 8192 c && leb c 8202)
                        || (eqb c 8232
                            || (eqb c 8233 || (eqb c 8239 || (eqb c 8287 || eqb c 12288)))))))))

-- `not s.strip()`
unfoldable pub is_blank : String → Bool
unfolding is_space
is_blank String.[] = true
is_blank (String.◌∷◌ c s) = is_space (code c) && is_blank s

-- `sep.join(parts)`
unfoldable pub join : String → List String → String
join sep [] = ""
join sep (x ∷ []) = x
join sep (x ∷ y ∷ ys) = x ⧺ sep ⧺ join sep (y ∷ ys)

pick : ℕ → String → Char
pick n String.[] = "0"
pick zero (String.◌∷◌ c s) = c
pick (suc n) (String.◌∷◌ c s) = pick n s

unfoldable pub digit : ℕ → Char
unfolding pick
digit d = pick d "0123456789abcdef"

-- The digits of `n` in front of `acc`; `n + 1` rounds are enough.
unfoldable pub digits : (base fuel n : ℕ) → String → String
unfolding digit
digits base zero n acc = acc
digits base (suc fuel) n acc =
    let more = digits base fuel (n / base) (String.◌∷◌ (digit (n % base)) acc) in
    if ltb n base then String.◌∷◌ (digit n) acc else more

unfoldable pub zero_fill : ℕ → String → String
zero_fill zero s = s
zero_fill (suc n) s = String.◌∷◌ "0" (zero_fill n s)

-- `f"{n}"`
unfoldable pub decimal : ℕ → String
unfolding digits
decimal n = digits 10 (suc n) n String.[]

-- `f"{n:06x}"`, with the width as an argument.
unfoldable pub hex : (width n : ℕ) → String
unfolding digits zero_fill
hex width n = let shown = digits 16 (suc n) n String.[] in zero_fill (width - count shown) shown
