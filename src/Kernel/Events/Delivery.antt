-- ===== src/Kernel/Events/Delivery.antt =====
-- Which subscribers an event reaches, and in which order.
use pharae.Base.{
  ℕ, ◌<◌, ◌≡◌, refl, sym, ap, ◌∙◌, String, Option, none, some, List, [], ◌∷◌, ◌++◌, map, select,
  arith, eqb, Bool-cases, inl, inr, ◌==◌, ◌≢◌, ◌≤◌, leb, Sorted, sort_by-Sorted, sort_by-perm,
}
use mathlib.Core.List.{append_assoc, append-nil, Perm}
use pharae.Base.Dict.{Dict}
use pharae.Schemas.{Value}
use pharae.Kernel.Events.{
  Event, Subscription, EventBus, emit, note_call, deliver_error, publish_error, report, deliver,
  publish, error_payload, receivers, matches, matching,
}

-- The calls for the event with the number `n`, in order.
abbrev pub calls_of : ℕ → List (ℕ × Event) → List (ℕ × Event)
calls_of n calls = select (λ c. eqb c.1.seq n) calls

calls_of-append :
    (n : ℕ) (xs ys : List (ℕ × Event)) → calls_of n (xs ++ ys) ≡ calls_of n xs ++ calls_of n ys
calls_of-append n [] ys = refl
calls_of-append n (x ∷ xs) ys = elim (Bool-cases (eqb x.1.seq n)) [
  | inl same ↦ rw same (ap (λ l. x ∷ l) (calls_of-append n xs ys))
  | inr other ↦ rw other (calls_of-append n xs ys)
]

calls_of_other : (n k : ℕ) (e : Event) → e.seq ≢ n → calls_of n ((k, e) ∷ []) ≡ []
calls_of_other n k e h = ground arith

calls_of_same : (n k : ℕ) (e : Event) → e.seq ≡ n → calls_of n ((k, e) ∷ []) ≡ (k, e) ∷ []
calls_of_same n k e h = ground arith

module _ (n : ℕ) where
  note_call-other :
      (s : Subscription) (e : Event) (bus : EventBus)
      → e.seq ≢ n
      → calls_of n (note_call s e bus).calls ≡ calls_of n bus.calls
  unfolding note_call
  note_call-other s e bus h =
      calls_of-append n bus.calls _
      ∙ ap (λ l. calls_of n bus.calls ++ l) (calls_of_other n s.order e h)
      ∙ append-nil _

  note_call-same :
      (s : Subscription) (e : Event) (bus : EventBus)
      → e.seq ≡ n
      → calls_of n (note_call s e bus).calls ≡ calls_of n bus.calls ++ (s.order, e) ∷ []
  unfolding note_call
  note_call-same s e bus h =
      calls_of-append n bus.calls _
      ∙ ap (λ l. calls_of n bus.calls ++ l) (calls_of_same n s.order e h)

  deliver_error-other :
      (e : Event) (subs : List Subscription) (bus : EventBus)
      → e.seq ≢ n
      → calls_of n (deliver_error e subs bus).calls ≡ calls_of n bus.calls
  unfolding deliver_error
  deliver_error-other e [] bus h = refl
  deliver_error-other e (s ∷ subs) bus h =
      deliver_error-other e subs (note_call s e bus) h ∙ note_call-other s e bus h

  publish_error-other :
      (payload : Dict Value) (bus : EventBus)
      → n < bus.seq
      → calls_of n (publish_error payload bus).1.calls ≡ calls_of n bus.calls
  unfolding publish_error emit
  publish_error-other payload bus h =
      let (event, emitted) = emit "bus.error" payload bus in
      deliver_error-other event (receivers "bus.error" emitted) emitted (omega arith)

  deliver_error-seq :
      (e : Event) (subs : List Subscription) (bus : EventBus)
      → (deliver_error e subs bus).seq ≡ bus.seq
  unfolding deliver_error note_call
  deliver_error-seq e [] bus = refl
  deliver_error-seq e (s ∷ subs) bus = deliver_error-seq e subs (note_call s e bus)

  module _ (e : Event) where
    report-other :
        (s : Subscription) (raised : Option String) (bus : EventBus)
        → n < bus.seq
        → calls_of n (report e s raised bus).calls ≡ calls_of n bus.calls
    unfolding report
    report-other s none bus h = refl
    report-other s (some r) bus h = elim (Bool-cases (e.topic == "bus.error")) [
      | inl nested ↦ rw nested
      | inr first ↦ rw first (publish_error-other (error_payload e s r) bus h)
    ]

    report-seq :
        (s : Subscription) (raised : Option String) (bus : EventBus)
        → bus.seq ≤ (report e s raised bus).seq
    unfolding report publish_error emit
    report-seq s none bus = omega arith
    report-seq s (some r) bus = elim (Bool-cases (e.topic == "bus.error")) [
      | inl nested ↦ rw nested (omega arith)
      | inr first ↦
          let (event, emitted) = emit "bus.error" (error_payload e s r) bus in
          rw first (omega (arith, deliver_error-seq event (receivers "bus.error" emitted) emitted))
    ]

    deliver-calls :
        (subs : List Subscription) (bus : EventBus)
        → e.seq ≡ n
        → n < bus.seq
        → calls_of n (deliver e subs bus).calls
          ≡ calls_of n bus.calls ++ map (λ s. (s.order, e)) subs
    unfolding deliver note_call
    deliver-calls [] bus same h = sym (append-nil _)
    deliver-calls (s ∷ subs) bus same h =
        let called = note_call s e bus in
        let reported = report e s (s.handler.raises e) called in
        deliver-calls subs reported same (omega (arith, report-seq s (s.handler.raises e) called))
        ∙ ap (λ l. l ++ map (λ s. (s.order, e)) subs)
            (report-other s (s.handler.raises e) called h ∙ note_call-same s e bus same)
        ∙ append_assoc (calls_of n bus.calls) ((s.order, e) ∷ []) (map (λ s. (s.order, e)) subs)

-- If no handler was called yet for the number of the event that comes next, the calls for that
-- event are those of the subscribers whose pattern matches the topic, each as often as it is
-- subscribed, in the order of their subscription, whichever of them raise.
pub publish-calls :
    (topic : String) (payload : Dict Value) (bus : EventBus)
    → calls_of bus.seq bus.calls ≡ []
    → let (event, after) = publish topic payload bus in
      (subs : List Subscription) × (calls_of event.seq after.calls
        ≡ map (λ s. (s.order, event)) subs)
      × Perm subs (select (λ s. matches s.pattern topic) bus.subscriptions)
      × Sorted (λ s t. leb s.order t.order) subs
unfolding publish emit receivers matching
publish-calls topic payload bus fresh =
    let (event, emitted) = emit topic payload bus in
    let subs = receivers topic emitted in
    (
      subs,
      deliver-calls bus.seq event subs emitted refl (omega arith)
          ∙ ap (λ l. l ++ map (λ s. (s.order, event)) subs) fresh,
      sort_by-perm (λ s t. leb s.order t.order)
          (select (λ s. matches s.pattern topic) bus.subscriptions),
      sort_by-Sorted (λ s t. leb s.order t.order) (λ s t h. ground arith)
          (λ s t u h k. ground arith) (select (λ s. matches s.pattern topic) bus.subscriptions),
    )
