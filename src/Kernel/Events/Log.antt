-- ===== src/Kernel/Events/Log.antt =====
-- The log of the bus in nexus/kernel/events.py.
use pharae.Base.{
  ℕ, suc, ◌+◌, ◌≡◌, refl, sym, ap, ◌∙◌, String, Option, none, some, List, [], ◌∷◌, ◌++◌, All,
  All-append, length, length-append, arith, Bool-cases, inl, inr, ◌==◌, eq_iff,
}
use mathlib.Core.List.{append_assoc, append-nil}
use pharae.Base.Dict.{Dict}
use pharae.Schemas.{Value}
use pharae.Kernel.Events.{
  Event, Subscription, EventBus, emit, note_call, deliver_error, publish_error, report, deliver,
  publish, error_payload, receivers,
}

-- The events carry the numbers `n`, `n + 1`, …
abbrev pub Numbered : ℕ → List Event → Type 0
Numbered n [] = Unit
Numbered n (e ∷ log) = (e.seq ≡ n) × Numbered (suc n) log

-- The log is numbered from 0, and the counter is its length.
pub record IsLogged (bus : EventBus) : Type 0 where
  pub numbered : Numbered 0 bus.log
  pub counted : bus.seq ≡ length bus.log

Numbered-snoc :
    (n : ℕ) (log : List Event) (e : Event)
    → Numbered n log
    → e.seq ≡ n + length log
    → Numbered n (log ++ e ∷ [])
Numbered-snoc n [] e h same = (omega arith, tt)
Numbered-snoc n (x ∷ log) e h same = (h.0, Numbered-snoc (suc n) log e h.1 (omega arith))

emit-IsLogged :
    (topic : String) (payload : Dict Value) (bus : EventBus)
    → IsLogged bus
    → IsLogged (emit topic payload bus).1
unfolding emit
emit-IsLogged topic payload bus h = record {
  numbered = Numbered-snoc 0 bus.log _ h.numbered (omega (arith, h.counted));
  counted = omega (arith, h.counted, length-append bus.log ((emit topic payload bus).0 ∷ []));
}

-- What an operation adds to the log, all of it events that satisfy `P`.
pub record Grows (P : Event → Type 0) (before after : EventBus) : Type 0 where
  pub added : List Event
  pub log_grows : after.log ≡ before.log ++ added
  pub all : All P added

Grows-refl : (P : Event → Type 0) (bus bus' : EventBus) → bus'.log ≡ bus.log → Grows P bus bus'
Grows-refl P bus bus' e = record { added = []; log_grows = e ∙ sym (append-nil bus.log); all = tt }

Grows-trans : (P : Event → Type 0) (a b c : EventBus) → Grows P a b → Grows P b c → Grows P a c
Grows-trans P a b c g h = record {
  added = g.added ++ h.added;
  log_grows = h.log_grows ∙ ap (λ l. l ++ h.added) g.log_grows ∙ append_assoc a.log g.added h.added;
  all = All-append P g.added h.added g.all h.all;
}

module _ (event : Event) where
  deliver_error-log :
      (subs : List Subscription) (bus : EventBus) → (deliver_error event subs bus).log ≡ bus.log
  unfolding deliver_error note_call
  deliver_error-log [] bus = refl
  deliver_error-log (s ∷ subs) bus = deliver_error-log subs (note_call s event bus)

  deliver_error-seq :
      (subs : List Subscription) (bus : EventBus) → (deliver_error event subs bus).seq ≡ bus.seq
  unfolding deliver_error note_call
  deliver_error-seq [] bus = refl
  deliver_error-seq (s ∷ subs) bus = deliver_error-seq subs (note_call s event bus)

abbrev IsErrorEvent : Event → Type 0
IsErrorEvent e = e.topic ≡ "bus.error"

same_log-IsLogged : (a b : EventBus) → b.log ≡ a.log → b.seq ≡ a.seq → IsLogged a → IsLogged b
same_log-IsLogged a b log seq h = record {
  numbered = rw log h.numbered;
  counted = seq ∙ h.counted ∙ ap length (sym log);
}

publish_error-IsLogged :
    (payload : Dict Value) (bus : EventBus) → IsLogged bus → IsLogged (publish_error payload bus).1
unfolding publish_error
publish_error-IsLogged payload bus h =
    let (event, emitted) = emit "bus.error" payload bus in
    let subs = receivers "bus.error" emitted in
    same_log-IsLogged emitted (deliver_error event subs emitted)
      (deliver_error-log event subs emitted) (deliver_error-seq event subs emitted)
      (emit-IsLogged "bus.error" payload bus h)

publish_error-Grows :
    (payload : Dict Value) (bus : EventBus) → Grows IsErrorEvent bus (publish_error payload bus).1
unfolding publish_error emit
publish_error-Grows payload bus =
    let (event, emitted) = emit "bus.error" payload bus in
    record {
      added = event ∷ [];
      log_grows = deliver_error-log event (receivers "bus.error" emitted) emitted;
      all = (refl, tt);
    }

module _ (event : Event) where
  report-IsLogged :
      (s : Subscription) (raised : Option String) (bus : EventBus)
      → IsLogged bus
      → IsLogged (report event s raised bus)
  unfolding report
  report-IsLogged s none bus h = h
  report-IsLogged s (some e) bus h = elim (Bool-cases (event.topic == "bus.error")) [
    | inl nested ↦ rw nested h
    | inr first ↦ rw first (publish_error-IsLogged (error_payload event s e) bus h)
  ]

  report-Grows :
      (s : Subscription) (raised : Option String) (bus : EventBus)
      → Grows IsErrorEvent bus (report event s raised bus)
  unfolding report
  report-Grows s none bus = Grows-refl IsErrorEvent bus bus refl
  report-Grows s (some e) bus = elim (Bool-cases (event.topic == "bus.error")) [
    | inl nested ↦ rw nested (Grows-refl IsErrorEvent bus bus refl)
    | inr first ↦ rw first (publish_error-Grows (error_payload event s e) bus)
  ]

  deliver-IsLogged :
      (subs : List Subscription) (bus : EventBus) → IsLogged bus → IsLogged (deliver event subs bus)
  unfolding deliver note_call
  deliver-IsLogged [] bus h = h
  deliver-IsLogged (s ∷ subs) bus h =
      let called = note_call s event bus in
      deliver-IsLogged subs _ (
        report-IsLogged s (s.handler.raises event) called
          (same_log-IsLogged bus called refl refl h))

  deliver-Grows :
      (subs : List Subscription) (bus : EventBus) → Grows IsErrorEvent bus (deliver event subs bus)
  unfolding deliver note_call
  deliver-Grows [] bus = Grows-refl IsErrorEvent bus bus refl
  deliver-Grows (s ∷ subs) bus =
      let called = note_call s event bus in
      let reported = report event s (s.handler.raises event) called in
      Grows-trans IsErrorEvent bus reported (deliver event subs reported)
        (Grows-trans IsErrorEvent bus called reported (Grows-refl IsErrorEvent bus called refl)
          (report-Grows s (s.handler.raises event) called))
        (deliver-Grows subs reported)

  -- A `bus.error` event is delivered by the loop that drops exceptions.
  deliver-eq-deliver_error :
      (subs : List Subscription) (bus : EventBus)
      → event.topic ≡ "bus.error"
      → deliver event subs bus ≡ deliver_error event subs bus
  unfolding deliver deliver_error report
  deliver-eq-deliver_error [] bus e = refl
  deliver-eq-deliver_error (s ∷ subs) bus e =
      ap (deliver event subs) (quiet (s.handler.raises event))
      ∙ deliver-eq-deliver_error subs (note_call s event bus) e
    where
      quiet :
          (raised : Option String)
          → report event s raised (note_call s event bus) ≡ note_call s event bus
      quiet none = refl
      quiet (some r) = rw ((eq_iff event.topic "bus.error").1 e)

-- Publishing keeps the log numbered from 0 without gaps and the counter equal to its length.
pub publish-IsLogged :
    (topic : String) (payload : Dict Value) (bus : EventBus)
    → IsLogged bus
    → IsLogged (publish topic payload bus).1
unfolding publish
publish-IsLogged topic payload bus h =
    let (event, emitted) = emit topic payload bus in
    deliver-IsLogged event (receivers topic emitted) emitted (emit-IsLogged topic payload bus h)

-- The log grows by the published event, with the given topic, payload and the next number, and
-- behind it only by `bus.error` events; what was logged before stays in its place.
pub publish-log :
    (topic : String) (payload : Dict Value) (bus : EventBus)
    → let (event, after) = publish topic payload bus in
      (event.topic ≡ topic)
      × (event.payload ≡ payload)
      × (event.seq ≡ bus.seq)
      × ((errors : List Event) × (after.log ≡ bus.log ++ event ∷ errors)
          × All (λ e. e.topic ≡ "bus.error") errors)
unfolding publish emit
publish-log topic payload bus =
    let (event, emitted) = emit topic payload bus in
    let g = deliver-Grows event (receivers topic emitted) emitted in
    (refl, refl, refl, (g.added, g.log_grows ∙ append_assoc bus.log (event ∷ []) g.added, g.all))

-- An exception on a `bus.error` event publishes nothing further: the recursion of `publish` has
-- depth two.
pub publish-bus_error :
    (payload : Dict Value) (bus : EventBus)
    → publish "bus.error" payload bus ≡ publish_error payload bus
unfolding publish publish_error emit
publish-bus_error payload bus =
    let (event, emitted) = emit "bus.error" payload bus in
    ap (λ b. (event, b))
      (deliver-eq-deliver_error event (receivers "bus.error" emitted) emitted refl)
