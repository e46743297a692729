-- ===== src/Kernel/State/Laws.antt =====
-- Reads after writes in nexus/kernel/state.py.
use pharae.Base.{
  String, true, false, ◌&&◌, none, some, [], arith, ap, ◌∷◌, ◌≡◌, refl, ◌==◌, eq_iff, if◌then◌else◌,
  Option-cases, Bool-cases, inl, inr,
}
use pharae.Base.Dict.{Dict, lookup, insert, erase, get_or, has_key, lookup-erase, get_or-insert}
use pharae.Schemas.{Value}
use pharae.Kernel.State.{
  StateManager, namespace, put, get, delete, clear_namespace, snapshot, restore,
}

-- A value that was set is read under its namespace and key, and every other read is unchanged.
pub get-put :
    (ns key ns' key' : String) (value default : Value) (s : StateManager)
    → get ns' key' default (put ns key value s)
      ≡ (if ns == ns' && key == key' then value else get ns' key' default s)
unfolding get put
get-put ns key ns' key' value default s = ground (
  arith,
  get_or-insert ns ns' [] (insert key value (namespace ns s)) s.spaces,
  get_or-insert key key' default value (namespace ns s),
  eq_iff ns ns',
)

get_or-erase :
    {V : Type 0} (k j : String) (default : V) (d : Dict V)
    → get_or j default (erase k d) ≡ (if k == j then default else get_or j default d)
unfolding get_or
get_or-erase k j default d = ground (arith, lookup-erase k j d)

erase_absent : {V : Type 0} (k : String) (d : Dict V) → has_key k d ≡ false → erase k d ≡ d
unfolding erase has_key lookup
erase_absent k [] h = refl
erase_absent k ((j, v) ∷ d) h = elim (Bool-cases (j == k)) [
  | inl same ↦ let bad : true ≡ false = rw same at h in cc
  | inr other ↦ rw other (ap (λ r. (j, v) ∷ r) (erase_absent k d (rw other at h)))
]

namespace_of :
    (ns : String) (s : StateManager) (space : Dict Value)
    → lookup ns s.spaces ≡ some space
    → namespace ns s ≡ space
unfolding namespace get_or
namespace_of ns s space e = rw (e, get_or)

namespace-none : (ns : String) (s : StateManager) → lookup ns s.spaces ≡ none → namespace ns s ≡ []
unfolding namespace get_or
namespace-none ns s e = rw (e, get_or)

namespace-insert :
    (ns ns' : String) (space : Dict Value) (s : StateManager)
    → namespace ns' (record { spaces = insert ns space s.spaces })
      ≡ (if ns == ns' then space else namespace ns' s)
unfolding namespace
namespace-insert ns ns' space s = get_or-insert ns ns' [] space s.spaces

erase-nil : (k : String) → erase {V = Value} k [] ≡ []
unfolding erase
erase-nil k = refl

has_key-nil : (k : String) → false ≡ has_key {V = Value} k []
unfolding has_key lookup
has_key-nil k = refl

get_or-nil : (k : String) (default : Value) → get_or k default [] ≡ default
unfolding get_or lookup
get_or-nil k default = refl

namespace-delete :
    (ns key ns' : String) (s : StateManager)
    → let (found, after) = delete ns key s in
      (namespace ns' after ≡ (if ns == ns' then erase key (namespace ns s) else namespace ns' s))
      × (found ≡ has_key key (namespace ns s))
unfolding delete
namespace-delete ns key ns' s = elim (Option-cases (lookup ns s.spaces)) [
  | inl absent ↦
      rw (absent, delete)
        (
          ground (arith, eq_iff ns ns', namespace-none ns s absent, erase-nil key),
          ground (arith, namespace-none ns s absent, has_key-nil key),
        )
  | inr (space, e) ↦ elim (Bool-cases (has_key key space)) [
    | inl there ↦
        rw (e, delete)
          (rw there (
            ground (
              arith,
              eq_iff ns ns',
              namespace_of ns s space e,
              namespace-insert ns ns' (erase key space) s,
            ),
            ground (arith, namespace_of ns s space e, there),
          ))
    | inr gone ↦
        rw (e, delete)
          (rw gone (
            ground (arith, eq_iff ns ns', namespace_of ns s space e, erase_absent key space gone),
            ground (arith, namespace_of ns s space e, gone),
          ))
  ]
]

-- After `delete` the key reads as missing and every other read is unchanged, and the call says
-- whether there was such a key.
pub get-delete :
    (ns key ns' key' : String) (default : Value) (s : StateManager)
    → let (found, after) = delete ns key s in
      (get ns' key' default after
        ≡ (if ns == ns' && key == key' then default else get ns' key' default s))
      × (found ≡ has_key key (namespace ns s))
unfolding get
get-delete ns key ns' key' default s =
    let (space, found) = namespace-delete ns key ns' s in
    (
      rw space (ground (arith, eq_iff ns ns', get_or-erase key key' default (namespace ns s))),
      found,
    )

-- Clearing a namespace empties it and leaves the others.
pub get-clear_namespace :
    (ns ns' key : String) (default : Value) (s : StateManager)
    → get ns' key default (clear_namespace ns s)
      ≡ (if ns == ns' then default else get ns' key default s)
unfolding get clear_namespace namespace
get-clear_namespace ns ns' key default s =
    rw (get_or-erase ns ns' [] s.spaces) (ground (arith, get_or-nil key default))

-- Whatever was done since, restoring a namespace's snapshot brings back every read of that
-- namespace, and leaves the reads of the others as they are.
pub restore-snapshot :
    (ns ns' key : String) (default : Value) (s later : StateManager)
    → get ns' key default (restore (snapshot ns s) ns later)
      ≡ (if ns == ns' then get ns' key default s else get ns' key default later)
unfolding get restore snapshot namespace
restore-snapshot ns ns' key default s later =
    ground (arith, get_or-insert ns ns' [] (get_or ns [] s.spaces) later.spaces, eq_iff ns ns')
