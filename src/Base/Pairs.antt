-- ===== src/Base/Pairs.antt =====
-- A Python dict whose keys are pairs of texts, in insertion order.
use Prim.Native.String.{String}
use mathlib.Core.Path.{◌≡◌, refl}
use mathlib.Core.Bool.{Bool, ◌&&◌}
use mathlib.Core.Option.{Option, none, some}
use mathlib.Core.List.{List, [], ◌∷◌}
use native.Mathlib.Omega.{arith}
use text.Mathlib.Text.{◌==◌}
use text.Mathlib.TextEquality.{eq_iff}
use pharae.Base.Tests.{if◌then◌else◌}

abbrev pub Key : Type 0
Key = String × String

abbrev pub same_key : Key → Key → Bool
same_key j k = (j.0 == k.0) && (j.1 == k.1)

abbrev pub PairDict : Type 0 → Type 0
PairDict V = List (Key × V)

module _ {V : Type 0} where
  unfoldable pub find_pair : Key → PairDict V → Option V
  find_pair k [] = none
  find_pair k ((j, v) ∷ d) = if same_key j k then some v else find_pair k d

  unfoldable pub insert_pair : Key → V → PairDict V → PairDict V
  insert_pair k v [] = (k, v) ∷ []
  insert_pair k v ((j, w) ∷ d) = if same_key j k then (j, v) ∷ d else (j, w) ∷ insert_pair k v d

  pub find_pair-insert_pair :
      (k j : Key) (v : V) (d : PairDict V)
      → find_pair j (insert_pair k v d) ≡ (if same_key k j then some v else find_pair j d)
  unfolding find_pair insert_pair
  find_pair-insert_pair k j v [] = refl
  find_pair-insert_pair k j v ((i, w) ∷ d) = ground (
    arith,
    eq_iff k.0 j.0,
    eq_iff i.0 k.0,
    eq_iff i.0 j.0,
    eq_iff k.1 j.1,
    eq_iff i.1 k.1,
    eq_iff i.1 j.1,
    find_pair-insert_pair k j v d,
  )
