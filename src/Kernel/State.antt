-- ===== src/Kernel/State.antt =====
-- nexus/kernel/state.py. Values are immutable here, so a deep copy is the value itself, and the
-- calls under the lock are single steps.
pub mod Laws
use pharae.Base.{
  String, Bool, true, false, Option, none, some, List, [], ◌∷◌, sort_by, if◌then◌else◌,
}
use pharae.Base.Dict.{Dict, lookup, insert, erase, has_key, get_or, keys}
use pharae.Base.Text.{text_le}
use pharae.Schemas.{Value}

-- `self._data`, by namespace and key.
pub record StateManager : Type 0 where
  pub spaces : Dict (Dict Value)

abbrev pub new_state : StateManager
new_state = record { spaces = [] }

-- `StateManager.namespace`
unfoldable pub namespace : String → StateManager → Dict Value
namespace ns s = get_or ns [] s.spaces

-- `set`
unfoldable pub put : String → String → Value → StateManager → StateManager
unfolding namespace
put ns key value s = record { spaces = insert ns (insert key value (namespace ns s)) s.spaces }

-- `get`
unfoldable pub get : String → String → Value → StateManager → Value
unfolding namespace
get ns key default s = get_or key default (namespace ns s)

-- `delete`: a namespace that loses its last key is kept.
unfoldable pub delete : String → String → StateManager → Bool × StateManager
delete ns key s = elim (lookup ns s.spaces) [
  | none ↦ (false, s)
  | some space ↦
      if has_key key space
      then (true, record { spaces = insert ns (erase key space) s.spaces })
      else (false, s)
]

-- `namespaces`
unfoldable pub namespaces : StateManager → List String
namespaces s = sort_by text_le (keys s.spaces)

unfoldable pub clear_namespace : String → StateManager → StateManager
clear_namespace ns s = record { spaces = erase ns s.spaces }

-- `snapshot(namespace)` and `snapshot()`
unfoldable pub snapshot : String → StateManager → Dict Value
unfolding namespace
snapshot ns s = namespace ns s

unfoldable pub snapshot_all : StateManager → Dict (Dict Value)
snapshot_all s = s.spaces

-- `restore(snapshot, namespace)` and `restore(snapshot)`
unfoldable pub restore : Dict Value → String → StateManager → StateManager
restore saved ns s = record { spaces = insert ns saved s.spaces }

unfoldable pub restore_all : Dict (Dict Value) → StateManager → StateManager
restore_all saved s = record { spaces = saved }
