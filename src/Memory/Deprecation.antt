-- ===== src/Memory/Deprecation.antt =====
-- `MemorySystem.deprecate` of nexus/memory/store.py.
use pharae.Base.{
  String, true, some, List, [], ◌∷◌, ok, ◌≡◌, ◌≢◌, refl, sym, ap, ◌∙◌, ◌==◌, arith, eq_iff,
  Bool-cases, Option-cases, inl, inr,
}
use mathlib.Core.Path.{subst}
use pharae.Schemas.{Float}
use pharae.Memory.{find_row, provenance, deprecate, deprecate_row, mark_deprecated}
use pharae.Memory.Tables.{MemorySystem, Row, memory_now}
use pharae.Memory.Promotion.{provenance-find_row}

find_row-mark_deprecated :
    (id reason other : String) (time : Float) (rows : List Row)
    → other ≢ id
    → find_row other (mark_deprecated id reason time rows) ≡ find_row other rows
unfolding find_row mark_deprecated
find_row-mark_deprecated id reason other time [] apart = refl
find_row-mark_deprecated id reason other time (row ∷ rows) apart = ground (
  arith,
  eq_iff row.id id,
  eq_iff row.id other,
  find_row-mark_deprecated id reason other time rows apart,
)

abbrev marked_row : String → Float → Row → Row
marked_row reason time row = record row {
  deprecated = true;
  deprecated_reason = some reason;
  deprecated_at = some time;
}

mark_deprecated_finds :
    (id reason : String) (time : Float) (rows : List Row) {row : Row}
    → find_row id rows ≡ some row
    → find_row id (mark_deprecated id reason time rows) ≡ some (marked_row reason time row)
unfolding find_row mark_deprecated
mark_deprecated_finds id reason time [] h = cc
mark_deprecated_finds id reason time (r ∷ rows) {row = row} h = elim (Bool-cases (r.id == id)) [
  | inr other ↦ rw other (rw other (mark_deprecated_finds id reason time rows (rw other at h)))
  | inl same ↦
      let is : r ≡ row = ground arith in
      rw same (rw same (ap (λ x. some (marked_row reason time x)) is))
]

-- What a deprecation leaves behind.
abbrev pub Deprecates : String → MemorySystem → MemorySystem → Type 0
Deprecates id m m' =
    (row : Row) × (row' : Row) × (find_row id m.items ≡ some row)
    × (find_row id m'.items ≡ some row')
    × (row'.deprecated ≡ true)
    × (row'.content ≡ row.content)
    × (provenance id m' ≡ provenance id m)
    × ((other : String) → other ≢ id → find_row other m'.items ≡ find_row other m.items)
    × ((again : String) → deprecate id again m' ≡ ok m')

-- Deprecating an item that is stored keeps it and what is known of it, marks it, and leaves every
-- other item as it was; a second deprecation changes nothing. An unknown id is an error.
pub deprecate_lem :
    (id reason : String) (m : MemorySystem) {m' : MemorySystem}
    → deprecate id reason m ≡ ok m'
    → Deprecates id m m'
unfolding deprecate
deprecate_lem id reason m {m' = m'} h = elim (Option-cases (find_row id m.items)) [
  | inl missing ↦ absurd (ground arith)
  | inr (row, found) ↦ elim (Bool-cases row.deprecated) [
    | inl before ↦
        let same : m ≡ m' = ground arith in
        subst (Deprecates id m) same
          (row, row, found, found, before, refl, refl, λ o a. refl, λ again. ground arith)
    | inr fresh ↦
        let moved : deprecate_row id reason m ≡ m' = ground arith in
        let changed = marked_row reason (memory_now m) row in
        let now_found = mark_deprecated_finds id reason (memory_now m) m.items found in
        subst (Deprecates id m) moved (
          row,
          changed,
          found,
          now_found,
          refl,
          refl,
          provenance-find_row id (deprecate_row id reason m) changed now_found
              ∙ sym (provenance-find_row id m row found),
          λ other apart. find_row-mark_deprecated id reason other (memory_now m) m.items apart,
          λ again. rw (now_found, deprecate) refl,
        )
  ]
]
