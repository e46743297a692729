-- ===== src/Kernel/Sessions.antt =====
-- nexus/kernel/sessions.py. A method takes the parts that the manager shares and returns them.
pub mod Ids
pub mod Lifecycle
use pharae.Base.{
  ℕ, ◌+◌, String, Bool, true, false, Option, none, some, List, [], ◌∷◌, select, if◌then◌else◌,
}
use pharae.Base.Dict.{Dict, lookup, insert, values}
use pharae.Base.Text.{◌⧺◌, hex}
use pharae.Schemas.{Float, Value, str}
use pharae.Kernel.Events.{EventBus, announce}
use pharae.Kernel.State.{StateManager, clear_namespace}

pub data SessionStatus : Type 0 where
  active ended : SessionStatus

abbrev pub is_active : SessionStatus → Bool
is_active active = true
is_active ended = false

pub record Session : Type 0 where
  pub id : String
  pub status : SessionStatus
  pub created_at : Float
  pub ended_at : Option Float
  pub metadata : Dict Value

-- `Session.namespace`
abbrev pub session_space : String → String
session_space id = "session:" ⧺ id

pub record SessionManager : Type 0 where
  pub sessions : Dict Session
  pub counter : ℕ

abbrev pub new_sessions : SessionManager
new_sessions = record { sessions = []; counter = 0 }

-- A reading of the clock, between two events.
abbrev pub now : EventBus → Float
now bus = bus.clock bus.seq

unfoldable pub session_id : ℕ → String
session_id n = "ses-" ⧺ hex 6 n

-- The session that `create` makes.
unfoldable pub fresh_session : ℕ → Dict Value → Float → Session
fresh_session n metadata time = record {
  id = session_id n;
  status = active;
  created_at = time;
  ended_at = none;
  metadata = metadata;
}

unfoldable pub create : Dict Value → SessionManager → EventBus → Session × SessionManager × EventBus
unfolding fresh_session
create metadata m bus =
    let session = fresh_session (m.counter + 1) metadata (now bus) in
    (
      session,
      record { sessions = insert session.id session m.sessions; counter = m.counter + 1 },
      announce "session.started" (("session_id", str session.id) ∷ []) bus,
    )

-- `SessionManager.get`
abbrev pub get_session : String → SessionManager → Option Session
get_session id m = lookup id m.sessions

unfoldable pub active_sessions : SessionManager → List Session
active_sessions m = select (λ s. is_active s.status) (values m.sessions)

-- `SessionManager.end` for a session that is active.
unfoldable pub close_session :
    Session → SessionManager → StateManager → EventBus → SessionManager × StateManager × EventBus
close_session session m state bus = (
  record m {
    sessions =
        insert session.id (record session { status = ended; ended_at = some (now bus) }) m.sessions;
  },
  clear_namespace (session_space session.id) state,
  announce "session.ended" (("session_id", str session.id) ∷ []) bus,
)

-- `SessionManager.end`
unfoldable pub end_session :
    String → SessionManager → StateManager → EventBus → SessionManager × StateManager × EventBus
unfolding close_session
end_session id m state bus = elim (lookup id m.sessions) [
  | none ↦ (m, state, bus)
  | some session ↦
      if is_active session.status then close_session session m state bus else (m, state, bus)
]
