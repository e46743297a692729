-- ===== src/Kernel/Sessions/Lifecycle.antt =====
-- Creating and ending sessions.
use pharae.Base.{
  ℕ, ◌+◌, ◌≤◌, String, false, none, some, arith, ◌≡◌, refl, ◌==◌, eq_iff, if◌then◌else◌,
  Option-cases, Bool-cases, inl, inr, ◌⊎◌, ◌≢◌, sym, ◌∙◌,
}
use pharae.Base.Dict.{Dict, lookup, insert, lookup-insert}
use pharae.Schemas.{Value}
use pharae.Kernel.Events.{EventBus}
use pharae.Kernel.State.{StateManager, get}
use pharae.Kernel.State.Laws.{get-clear_namespace}
use pharae.Kernel.Sessions.{
  Session, SessionManager, create, end_session, close_session, session_space, active, ended,
  is_active, now, session_id, fresh_session,
}
use pharae.Kernel.Sessions.Ids.{session_id_inj}

-- Every stored session has the id under which it is stored, and a number up to the counter.
abbrev pub IsNumbered : SessionManager → Type 0
IsNumbered m =
    (id : String) (s : Session)
    → lookup id m.sessions ≡ some s
    → (s.id ≡ id) × ((n : ℕ) × (n ≤ m.counter) × (id ≡ session_id n))

fresh_id :
    (m : SessionManager) → IsNumbered m → lookup (session_id (m.counter + 1)) m.sessions ≡ none
fresh_id m h = elim (Option-cases (lookup (session_id (m.counter + 1)) m.sessions)) [
  | inl absent ↦ absent
  | inr (s, found) ↦
      let (_, (n, small, named)) = h (session_id (m.counter + 1)) s found in
      let e : m.counter + 1 ≡ n = session_id_inj (m.counter + 1) n named in absurd (omega arith)
]

insert-IsNumbered :
    (s : Session) (n : ℕ) (sessions : Dict Session) (counter : ℕ)
    → s.id ≡ session_id n
    → n ≤ counter + 1
    → IsNumbered (record { sessions = sessions; counter = counter })
    → IsNumbered (record { sessions = insert s.id s sessions; counter = counter + 1 })
insert-IsNumbered s n sessions counter named small h id t found =
    let e = sym (lookup-insert s.id id s sessions) ∙ found in
    elim (Bool-cases (s.id == id)) [
      | inl same ↦
          let now : some s ≡ some t = rw same at e in
          let key = (eq_iff s.id id).0 same in (cc, (n, small, cc))
      | inr other ↦
          let (keyed, (k, low, from)) = h id t (rw other at e) in (keyed, (k, omega arith, from))
    ]

-- A new session is active, has an id that no stored session has, and is stored under it, with
-- every other session as it was; the sessions stay numbered.
pub create-fresh :
    (metadata : Dict Value) (m : SessionManager) (bus : EventBus)
    → IsNumbered m
    → let (session, m', _) = create metadata m bus in
      (session.status ≡ active)
      × (lookup session.id m.sessions ≡ none)
      × ((id : String)
          → lookup id m'.sessions
            ≡ (if session.id == id then some session else lookup id m.sessions))
      × IsNumbered m'
unfolding create
create-fresh metadata m bus h =
    let session = fresh_session (m.counter + 1) metadata (now bus) in
    (
      refl,
      fresh_id m h,
      λ id. lookup-insert session.id id session m.sessions,
      insert-IsNumbered session (m.counter + 1) m.sessions m.counter refl (omega arith) h,
    )

end_session-eq :
    (id : String) (s : Session) (m : SessionManager) (state : StateManager) (bus : EventBus)
    → lookup id m.sessions ≡ some s
    → s.status ≡ active
    → end_session id m state bus ≡ close_session s m state bus
unfolding end_session
end_session-eq id s m state bus e live = rw (e, end_session) (rw live refl)

-- Ending a session that is active marks it as ended and empties its namespace, and leaves every
-- other session and every other namespace as it was.
pub end_session_active :
    (id : String) (s : Session) (m : SessionManager) (state : StateManager) (bus : EventBus)
    → lookup id m.sessions ≡ some s
    → s.id ≡ id
    → s.status ≡ active
    → let (m', state', _) = end_session id m state bus in
      ((t : Session) → lookup id m'.sessions ≡ some t → t.status ≡ ended)
      × ((other : String) → other ≢ id → lookup other m'.sessions ≡ lookup other m.sessions)
      × ((ns key : String) (default : Value)
          → get ns key default state'
            ≡ (if session_space id == ns then default else get ns key default state))
unfolding close_session
end_session_active id s m state bus e same live =
    let closed : Session = record s { status = ended; ended_at = some (now bus) } in
    let stored = λ (k : String). lookup-insert s.id k closed m.sessions in
    rw (end_session-eq id s m state bus e live) (
      λ t found. ground (arith, stored id, eq_iff s.id id),
      λ other ne. ground (arith, stored other, eq_iff s.id other),
      λ ns key default. rw same (get-clear_namespace (session_space id) ns key default state),
    )

end_session-none :
    (id : String) (m : SessionManager) (state : StateManager) (bus : EventBus)
    → lookup id m.sessions ≡ none
    → end_session id m state bus ≡ (m, state, bus)
unfolding end_session
end_session-none id m state bus absent = rw (absent, end_session)

end_session-ended :
    (id : String) (s : Session) (m : SessionManager) (state : StateManager) (bus : EventBus)
    → lookup id m.sessions ≡ some s
    → is_active s.status ≡ false
    → end_session id m state bus ≡ (m, state, bus)
unfolding end_session
end_session-ended id s m state bus e over = rw (e, end_session) (rw over refl)

-- After `end_session` on an active session its entry is no longer active.
closed_again :
    (id : String) (s : Session) (m : SessionManager) (state : StateManager) (bus : EventBus)
    → s.id ≡ id
    → let (m', state', bus') = close_session s m state bus in
      end_session id m' state' bus' ≡ (m', state', bus')
unfolding close_session
closed_again id s m state bus same =
    let closed : Session = record s { status = ended; ended_at = some (now bus) } in
    end_session-ended id closed (close_session s m state bus).0 (close_session s m state bus).1
      (close_session s m state bus).2
      (ground (arith, lookup-insert s.id id closed m.sessions, eq_iff s.id id)) refl

status_cases : (s : Session) → (s.status ≡ active) ⊎ (is_active s.status ≡ false)
status_cases s = ground arith

-- Ending a session again changes nothing: no second event is published, and the time at which it
-- ended stays.
pub end_session_again :
    (id : String) (m : SessionManager) (state : StateManager) (bus : EventBus)
    → IsNumbered m
    → let (m', state', bus') = end_session id m state bus in
      end_session id m' state' bus' ≡ (m', state', bus')
end_session_again id m state bus h = elim (Option-cases (lookup id m.sessions)) [
  | inl absent ↦ let e = end_session-none id m state bus absent in rw e e
  | inr (s, found) ↦ elim (status_cases s) [
    | inl live ↦
        rw (end_session-eq id s m state bus found live)
          (closed_again id s m state bus (h id s found).0)
    | inr over ↦ let e = end_session-ended id s m state bus found over in rw e e
  ]
]
