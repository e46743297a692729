-- ===== src/Memory/Promotion.antt =====
-- `MemorySystem.promote` of nexus/memory/store.py.
use pharae.Base.{
  ℕ, ◌+◌, ◌≤◌, String, true, false, none, some, List, [], ◌∷◌, ◌++◌, ok, ◌≡◌, refl, sym, ◌∙◌, ◌==◌,
  arith, eq_iff, Bool-cases, Option-cases, Result-cases, inl, inr, All,
}
use pharae.Base.Text.{is_blank, hex}
use pharae.Base.Text.Numbers.{hex_inj}
use text.Mathlib.TextLemmas.{append_cancel_left}
use mathlib.Core.Path.{subst}
use pharae.Schemas.{Fields, Evidence, MemoryLayer, MemoryItem, is_promotable}
use pharae.Memory.Secrets.{Scanner, scan_fields}
use pharae.Memory.Clean.{IsClean, scan_fields-IsClean}
use pharae.Memory.{promote, store_item, promoted_row, find_row, item_id, provenance}
use pharae.Memory.Tables.{MemorySystem, Row, layer_named, reject_secrets, memory_now}

-- Every row has the id of its number, and no number is above the last one.
abbrev pub IsStored : MemorySystem → Type 0
IsStored m = All (λ row. (row.id ≡ item_id row.seq) × (row.seq ≤ m.last_seq)) m.items

item_id_inj : (a b : ℕ) → item_id a ≡ item_id b → a ≡ b
unfolding item_id
item_id_inj a b e = hex_inj 8 a b (append_cancel_left "mem-" (hex 8 a) (hex 8 b) e)

-- The gates of `promote`, all of which are passed before anything is stored.
promote-cases :
    (scanner : Scanner) (evidence : Evidence) (layer : String) (content : Fields)
    (policy_id : String) (m : MemorySystem) {r : MemoryItem × MemorySystem}
    → promote scanner evidence layer content policy_id m ≡ ok r
    → (evidence.verified ≡ true)
      × (is_blank policy_id ≡ false)
      × ((resolved : MemoryLayer) × (layer_named layer ≡ ok resolved)
          × (is_promotable resolved ≡ true)
          × (scan_fields scanner "" content ≡ none)
          × (store_item evidence resolved content policy_id m ≡ r))
unfolding promote reject_secrets
promote-cases scanner evidence layer content policy_id m h = elim (Bool-cases evidence.verified) [
  | inr bad ↦ absurd (ground arith)
  | inl verified ↦ elim (Bool-cases (is_blank policy_id)) [
    | inl blank ↦ absurd (ground arith)
    | inr given ↦ elim (Result-cases (layer_named layer)) [
      | inr (e, bad) ↦ absurd (ground arith)
      | inl (resolved, named) ↦ elim (Bool-cases (is_promotable resolved)) [
        | inr closed ↦ absurd (ground arith)
        | inl allowed ↦ elim (Option-cases (scan_fields scanner "" content)) [
          | inr (f, found) ↦ absurd (ground arith)
          | inl clean ↦ (verified, given, (resolved, named, allowed, clean, ground arith))
        ]
      ]
    ]
  ]
]

abbrev HasSeq : ℕ → Row → Type 0
HasSeq last row = (row.id ≡ item_id row.seq) × (row.seq ≤ last)

-- No row has the next id yet.
find_row-next :
    (last : ℕ) (rows : List Row)
    → All (HasSeq last) rows
    → find_row (item_id (last + 1)) rows ≡ none
unfolding find_row
find_row-next last [] h = refl
find_row-next last (row ∷ rows) h = elim (Bool-cases (row.id == item_id (last + 1))) [
  | inr other ↦ rw other (find_row-next last rows h.1)
  | inl same ↦
      let clash =
        item_id_inj row.seq (last + 1) (sym h.0.0 ∙ (eq_iff row.id (item_id (last + 1))).0 same) in
      let low = h.0.1 in absurd (omega arith)
]

find_row-append :
    (id : String) (rows : List Row) (new : Row)
    → find_row id rows ≡ none
    → new.id ≡ id
    → find_row id (rows ++ new ∷ []) ≡ some new
unfolding find_row
find_row-append id [] new missing e = ground (arith, eq_iff new.id id)
find_row-append id (row ∷ rows) new missing e = elim (Bool-cases (row.id == id)) [
  | inl same ↦ absurd (ground arith)
  | inr other ↦ rw other (find_row-append id rows new (rw other at missing) e)
]

find_row-keeps :
    (id : String) (rows : List Row) (new : Row) {row : Row}
    → find_row id rows ≡ some row
    → find_row id (rows ++ new ∷ []) ≡ some row
unfolding find_row
find_row-keeps id [] new h = cc
find_row-keeps id (r ∷ rows) new h = elim (Bool-cases (r.id == id)) [
  | inl same ↦ rw same (rw same at h)
  | inr other ↦ rw other (find_row-keeps id rows new (rw other at h))
]

HasSeq-append :
    (last : ℕ) (rows : List Row) (new : Row)
    → All (HasSeq last) rows
    → HasSeq (last + 1) new
    → All (HasSeq (last + 1)) (rows ++ new ∷ [])
HasSeq-append last [] new h k = (k, tt)
HasSeq-append last (row ∷ rows) new h k =
    ((h.0.0, let low = h.0.1 in omega arith), HasSeq-append last rows new h.1 k)

pub provenance-find_row :
    (id : String) (m : MemorySystem) (row : Row)
    → find_row id m.items ≡ some row
    → provenance id m
      ≡ ok (record {
        run_id = row.run_id;
        evidence_id = row.evidence_id;
        policy_id = row.policy_id;
        promoted_at = row.promoted_at;
      })
unfolding provenance
provenance-find_row id m row h = rw (h, provenance) refl

-- What was promoted: the store grew by one item, under an id that was free, with its provenance.
abbrev pub Grows : Evidence → String → MemorySystem → MemoryItem × MemorySystem → Type 0
Grows evidence policy_id m (item, m') =
    IsStored m'
    × (find_row item.id m.items ≡ none)
    × (provenance item.id m'
        ≡ ok (record {
          run_id = evidence.run_id;
          evidence_id = evidence.id;
          policy_id = policy_id;
          promoted_at = memory_now m;
        }))
    × ((id : String) (row : Row) → find_row id m.items ≡ some row → find_row id m'.items ≡ some row)

store_item-Grows :
    (evidence : Evidence) (layer : MemoryLayer) (content : Fields) (policy_id : String)
    (m : MemorySystem)
    → IsStored m
    → Grows evidence policy_id m (store_item evidence layer content policy_id m)
unfolding store_item
store_item-Grows evidence layer content policy_id m h =
    let (item, after) = store_item evidence layer content policy_id m in
    let row = promoted_row evidence layer content policy_id (m.last_seq + 1) (memory_now m) in
    let free = find_row-next m.last_seq m.items h in
    (
      HasSeq-append m.last_seq m.items row h (refl, omega arith),
      free,
      provenance-find_row row.id after row (find_row-append row.id m.items row free refl),
      λ id old found. find_row-keeps id m.items row found,
    )

-- Nothing enters the long-term layers but by verified evidence, a policy that is named, a layer
-- that admits promotions, and a content free of secrets at every depth. What enters has an id that
-- no item has and the provenance of its evidence and policy, and every item before it stays.
pub promote-Grows :
    (scanner : Scanner) (evidence : Evidence) (layer : String) (content : Fields)
    (policy_id : String) (m : MemorySystem) {r : MemoryItem × MemorySystem}
    → IsStored m
    → promote scanner evidence layer content policy_id m ≡ ok r
    → (evidence.verified ≡ true)
      × (is_blank policy_id ≡ false)
      × ((resolved : MemoryLayer) × (layer_named layer ≡ ok resolved)
          × (is_promotable resolved ≡ true))
      × IsClean scanner content
      × Grows evidence policy_id m r
promote-Grows scanner evidence layer content policy_id m h returned =
    let (verified, given, (resolved, named, allowed, clean, stored)) =
      promote-cases scanner evidence layer content policy_id m returned in
    (
      verified,
      given,
      (resolved, named, allowed),
      scan_fields-IsClean scanner "" content clean,
      subst (Grows evidence policy_id m) stored
          (store_item-Grows evidence resolved content policy_id m h),
    )
