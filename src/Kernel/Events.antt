-- ===== src/Kernel/Events.antt =====
-- nexus/kernel/events.py. A handler is its qualified name and the `repr` of the exception that it
-- raises on an event, if it raises one. The bus also records each call of a handler.
use pharae.Base.{
  ℕ, suc, ◌+◌, ◌-◌, String, Bool, true, false, ◌&&◌, not, Option, none, some, List, [], ◌∷◌, ◌++◌,
  select, sort_by, if◌then◌else◌, ltb, leb, eqb, ◌==◌,
}
use pharae.Base.Dict.{Dict}
use pharae.Base.Text.{ends_with, drop_last}
use pharae.Schemas.{Float, Value, str}
use Prim.Native.String.{count}
use text.Mathlib.Text.{starts_with}
pub mod Patterns
pub mod Log
pub mod Delivery

pub record Event : Type 0 where
  pub topic : String
  pub payload : Dict Value
  pub seq : ℕ
  pub timestamp : Float

pub record Handler : Type 0 where
  pub qualname : String
  pub raises : Event → Option String

pub record Subscription : Type 0 where
  pub pattern : String
  pub handler : Handler
  pub order : ℕ

-- `clock` holds the readings of `time.time()`, by the number of the event that is made.
pub record EventBus : Type 0 where
  pub subscriptions : List Subscription
  pub log : List Event
  pub seq : ℕ
  pub sub_order : ℕ
  pub clock : ℕ → Float
  pub calls : List (ℕ × Event)

-- `EventBus()`
abbrev pub new_bus : (ℕ → Float) → EventBus
new_bus clock = record {
  subscriptions = [];
  log = [];
  seq = 0;
  sub_order = 0;
  clock = clock;
  calls = [];
}

-- `_matches`
unfoldable pub matches : (pattern topic : String) → Bool
unfolding ends_with drop_last
matches pattern topic =
    if pattern == "*"
    then true
    else if ends_with pattern ".*"
    then starts_with topic (drop_last pattern) && ltb (count pattern - 1) (count topic)
    else pattern == topic

-- The subscription that `subscribe` makes; its `order` is the key that `unsubscribe` uses.
unfoldable pub subscribe : (pattern : String) → Handler → EventBus → ℕ × EventBus
subscribe pattern handler bus = (
  bus.sub_order,
  record bus {
    subscriptions =
        bus.subscriptions
        ++ record { pattern = pattern; handler = handler; order = bus.sub_order } ∷ [];
    sub_order = bus.sub_order + 1;
  },
)

-- `list.remove`: the first entry that is equal, which the order decides.
unfoldable pub remove_sub : ℕ → List Subscription → List Subscription
remove_sub order [] = []
remove_sub order (s ∷ subs) = if eqb s.order order then subs else s ∷ remove_sub order subs

-- The closure that `subscribe` returns.
unfoldable pub unsubscribe : (order : ℕ) → EventBus → EventBus
unfolding remove_sub
unsubscribe order bus = record bus { subscriptions = remove_sub order bus.subscriptions }

unfoldable pub matching : String → List Subscription → List Subscription
unfolding matches
matching topic subs = select (λ s. matches s.pattern topic) subs

-- The subscribers of a topic, in the order of their subscription.
unfoldable pub receivers : String → EventBus → List Subscription
unfolding matching
receivers topic bus = sort_by (λ s t. leb s.order t.order) (matching topic bus.subscriptions)

-- The event is made, numbered and logged.
unfoldable pub emit : String → Dict Value → EventBus → Event × EventBus
emit topic payload bus =
    let event : Event = record {
      topic = topic;
      payload = payload;
      seq = bus.seq;
      timestamp = bus.clock bus.seq;
    } in
    (event, record bus { seq = bus.seq + 1; log = bus.log ++ event ∷ [] })

unfoldable pub note_call : Subscription → Event → EventBus → EventBus
note_call sub event bus = record bus { calls = bus.calls ++ (sub.order, event) ∷ [] }

-- The delivery loop of a `bus.error` event: an exception is dropped.
unfoldable pub deliver_error : Event → List Subscription → EventBus → EventBus
unfolding note_call
deliver_error event [] bus = bus
deliver_error event (sub ∷ subs) bus = deliver_error event subs (note_call sub event bus)

-- `publish("bus.error", payload)`
unfoldable pub publish_error : Dict Value → EventBus → Event × EventBus
unfolding emit deliver_error receivers
publish_error payload bus =
    let (event, emitted) = emit "bus.error" payload bus in
    (event, deliver_error event (receivers "bus.error" emitted) emitted)

unfoldable pub error_payload : Event → Subscription → String → Dict Value
error_payload event sub raised =
    ("topic", str event.topic)
    ∷ ("error", str raised)
    ∷ ("subscriber", str sub.handler.qualname)
    ∷ []

-- The `except` clause of the delivery loop.
unfoldable pub report : Event → Subscription → Option String → EventBus → EventBus
unfolding publish_error error_payload
report event sub none bus = bus
report event sub (some raised) bus =
    if event.topic == "bus.error"
    then bus
    else (publish_error (error_payload event sub raised) bus).1

unfoldable pub deliver : Event → List Subscription → EventBus → EventBus
unfolding report note_call
deliver event [] bus = bus
deliver event (sub ∷ subs) bus =
    deliver event subs (report event sub (sub.handler.raises event) (note_call sub event bus))

unfoldable pub publish : String → Dict Value → EventBus → Event × EventBus
unfolding emit deliver receivers
publish topic payload bus =
    let (event, emitted) = emit topic payload bus in
    (event, deliver event (receivers topic emitted) emitted)

-- `publish` where the caller drops the event.
unfoldable pub announce : String → Dict Value → EventBus → EventBus
unfolding publish
announce topic payload bus = (publish topic payload bus).1

-- `EventBus.log`
unfoldable pub log_of : Option String → EventBus → List Event
unfolding matches
log_of none bus = bus.log
log_of (some pattern) bus = select (λ e. matches pattern e.topic) bus.log

-- `if self._bus is not None: self._bus.publish(topic, payload)`, as the other components publish.
abbrev pub announce_to : Option EventBus → String → Dict Value → Option EventBus
announce_to none topic payload = none
announce_to (some bus) topic payload = some (announce topic payload bus)
