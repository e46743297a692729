-- ===== src/Tests/Events.antt =====
-- The event bus on a few events.
use pharae.Base.{◌≡◌, refl, true, false, [], ◌∷◌, sort_by, map, ◌↔◌, List, select, leb, Sorted}
use mathlib.Core.List.{Perm}
use pharae.Kernel.Events.{matches, publish, Subscription}
use pharae.Kernel.Events.Patterns.{Covers, matches-Covers}
use pharae.Kernel.Events.Log.{IsLogged, publish-IsLogged}
use pharae.Kernel.Events.Delivery.{calls_of, publish-calls}
use pharae.Tests.Samples.{bus}

matches_prefix : matches "task.*" "task.failed" ≡ true
unfolding matches
matches_prefix = refl

matches_bare : matches "task.*" "task." ≡ false
unfolding matches
matches_bare = refl

matches-Covers_example : (matches "task.*" "task.failed" ≡ true) ↔ Covers "task.*" "task.failed"
matches-Covers_example = matches-Covers "task.*" "task.failed"

-- The subscriber that raises makes one error event, and the error in its delivery makes none.
publish_topics :
    map (λ e. e.topic) (publish "task.failed" [] bus).1.log ≡ "task.failed" ∷ "bus.error" ∷ []
unfolding publish sort_by
publish_topics = refl

bus-IsLogged : IsLogged bus
bus-IsLogged = record { numbered = tt; counted = refl }

publish-IsLogged_example : IsLogged (publish "task.failed" [] bus).1
publish-IsLogged_example = publish-IsLogged "task.failed" [] bus bus-IsLogged

publish-calls_example :
    let (event, after) = publish "task.failed" [] bus in
    (subs : List Subscription) × (calls_of event.seq after.calls ≡ map (λ s. (s.order, event)) subs)
    × Perm subs (select (λ s. matches s.pattern "task.failed") bus.subscriptions)
    × Sorted (λ s t. leb s.order t.order) subs
publish-calls_example = publish-calls "task.failed" [] bus refl
