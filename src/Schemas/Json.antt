-- ===== src/Schemas/Json.antt =====
-- The values of `Any` and the event payloads: what JSON holds. A float is its 64-bit pattern, and
-- a reading of the clock is such a float.
use pharae.Base.{ℕ, String, Bool, List, [], ◌∷◌}
use pharae.Base.Int.{ℤ, pos}

pub record Float : Type 0 where
  pub bits : ℕ

mutual
  pub data Value : Type 0 where
    null : Value
    flag : Bool → Value
    int : ℤ → Value
    float : Float → Value
    str : String → Value
    list : Values → Value
    dict : Fields → Value

  pub data Values : Type 0 where
    none_left : Values
    item : Value → Values → Values

  pub data Fields : Type 0 where
    no_field : Fields
    field : String → Value → Fields → Fields

abbrev pub nat : ℕ → Value
nat n = int (pos n)

abbrev pub texts_list : List String → Values
texts_list [] = none_left
texts_list (s ∷ ss) = item (str s) (texts_list ss)

-- A list of texts as a value.
abbrev pub texts : List String → Value
texts ss = list (texts_list ss)
