-- ===== src/Memory/Working.antt =====
-- The working memory of nexus/memory/store.py.
use pharae.Base.{
  String, not, none, some, [], ◌∷◌, if◌then◌else◌, ok, ◌≡◌, ◌==◌, arith, eq_iff, Option-cases, inl,
  inr, select,
}
use pharae.Base.Pairs.{PairDict, Key, same_key, find_pair, insert_pair, find_pair-insert_pair}
use pharae.Schemas.{Float, Value, null, field, no_field}
use pharae.Memory.Secrets.{Scanner, scan_fields}
use pharae.Memory.Clean.{IsClean, scan_fields-IsClean}
use pharae.Memory.{write_working, read_working, clear_session}
use pharae.Memory.Tables.{MemorySystem, reject_secrets, memory_now}

write_working-cases :
    (scanner : Scanner) (s k : String) (v : Value) (m : MemorySystem) {m' : MemorySystem}
    → write_working scanner s k v m ≡ ok m'
    → IsClean scanner (field k v no_field)
      × (m'.working_rows ≡ insert_pair (s, k) (v, memory_now m) m.working_rows)
unfolding write_working reject_secrets
write_working-cases scanner s k v m h =
    elim (Option-cases (scan_fields scanner "" (field k v no_field))) [
      | inr (f, found) ↦ absurd (ground arith)
      | inl clean ↦ (scan_fields-IsClean scanner "" (field k v no_field) clean, ground arith)
    ]

-- What is written into the working memory is free of secrets at every depth. It is read back under
-- its session and key, and every other read is unchanged.
pub read_working-write_working :
    (scanner : Scanner) (s k : String) (v : Value) (m : MemorySystem) {m' : MemorySystem}
    → write_working scanner s k v m ≡ ok m'
    → IsClean scanner (field k v no_field)
      × ((t j : String)
          → read_working t j m' ≡ (if same_key (s, k) (t, j) then v else read_working t j m))
unfolding read_working
read_working-write_working scanner s k v m {m' = m'} h =
    let (clean, rows) = write_working-cases scanner s k v m h in
    (
      clean,
      λ t j.
          let found : find_pair (t, j) m'.working_rows ≡ (
              if same_key (s, k) (t, j)
              then some (v, memory_now m)
              else find_pair (t, j) m.working_rows) =
            rw rows (find_pair-insert_pair (s, k) (t, j) (v, memory_now m) m.working_rows) in
          ground arith,
    )

find_pair-select :
    (s : String) (key : Key) (rows : PairDict (Value × Float))
    → find_pair key (select (λ e. not (e.0.0 == s)) rows)
      ≡ (if s == key.0 then none else find_pair key rows)
unfolding find_pair
find_pair-select s key [] = ground arith
find_pair-select s key ((j, v) ∷ rows) = ground (
  arith,
  eq_iff s key.0,
  eq_iff j.0 s,
  eq_iff j.0 key.0,
  eq_iff j.1 key.1,
  find_pair-select s key rows,
)

-- Clearing a session forgets everything that it wrote, and nothing of another session.
pub read_working-clear_session :
    (s t j : String) (m : MemorySystem)
    → read_working t j (clear_session s m) ≡ (if s == t then null else read_working t j m)
unfolding read_working clear_session
read_working-clear_session s t j m = ground (arith, find_pair-select s (t, j) m.working_rows)
