-- ===== src/Tests/Samples.antt =====
-- Buses, tasks and handlers that the tests share.
use pharae.Base.{ℕ, String, true, none, some, List, [], ◌∷◌, ok, err, if◌then◌else◌, ◌==◌}
use pharae.Base.Int.{pos}
use pharae.Schemas.{Float, str, Task, TaskStatus, Plan}
use pharae.Kernel.Events.{Handler, Subscription, EventBus}
use pharae.Kernel.Scheduler.{Scheduler}
use pharae.Kernel.Runtime.Context
use pharae.Kernel.Runtime.{Runtime}
use pharae.Kernel.Sessions.{new_sessions}
use pharae.Kernel.State.{new_state}

abbrev pub clock : ℕ → Float
clock n = record { bits = n }

abbrev pub quiet : Handler
quiet = record { qualname = "quiet"; raises = λ e. none }

abbrev pub noisy : Handler
noisy = record { qualname = "noisy"; raises = λ e. some "ValueError()" }

abbrev pub listener : String → Handler → ℕ → Subscription
listener pattern handler order = record { pattern = pattern; handler = handler; order = order }

-- The second subscriber raises on every task event.
abbrev pub bus : EventBus
bus = record {
  subscriptions =
      listener "*" quiet 0 ∷ listener "task.*" noisy 1 ∷ listener "bus.error" noisy 2 ∷ [];
  log = [];
  seq = 0;
  sub_order = 3;
  clock = clock;
  calls = [];
}

abbrev pub task : String → List String → ℕ → Task
task id deps priority = record {
  id = id;
  capability_type = "code";
  payload = [];
  depends_on = deps;
  priority = pos priority;
  status = TaskStatus.pending;
  capability_binding = none;
}

-- `b` and `c` depend on `a`, and `d` on `b`.
abbrev pub tasks : List Task
tasks = task "a" [] 0 ∷ task "b" ("a" ∷ []) 0 ∷ task "c" ("a" ∷ []) 5 ∷ task "d" ("b" ∷ []) 0 ∷ []

abbrev pub with_status : TaskStatus → Task → Task
with_status status t = record t { status = status }

-- The scheduler that holds them, with `a` running.
abbrev pub running : Scheduler
running = record {
  tasks =
      ("a", with_status TaskStatus.running (task "a" [] 0))
      ∷ ("b", task "b" ("a" ∷ []) 0)
      ∷ ("c", task "c" ("a" ∷ []) 5)
      ∷ ("d", task "d" ("b" ∷ []) 0)
      ∷ [];
  order = ("a", 0) ∷ ("b", 1) ∷ ("c", 2) ∷ ("d", 3) ∷ [];
  dependents = ("a", "b" ∷ "c" ∷ []) ∷ ("b", "d" ∷ []) ∷ [];
}

abbrev pub failed : Scheduler
failed = record running {
  tasks =
      ("a", with_status TaskStatus.failed (task "a" [] 0))
      ∷ ("b", with_status TaskStatus.blocked (task "b" ("a" ∷ []) 0))
      ∷ ("c", with_status TaskStatus.blocked (task "c" ("a" ∷ []) 5))
      ∷ ("d", with_status TaskStatus.blocked (task "d" ("b" ∷ []) 0))
      ∷ [];
}

abbrev pub plan : Plan
plan = record {
  id = "plan-1";
  tasks = tasks;
  intent_id = none;
  provenance = none;
  created_at = clock 0;
}

-- A handler that stores the task it was given, and raises on `b`.
abbrev pub worker : Context.Handler
worker = record {
  run = λ t ctx. record {
    effects = Context.set_value "last" (str t.id) ∷ [];
    result = if t.id == "b" then err "RuntimeError('b')" else ok (str t.id);
  };
}

abbrev pub runtime : Runtime
runtime = record {
  bus = bus;
  state = new_state;
  sessions = new_sessions;
  handlers = ("code", worker) ∷ [];
  running = true;
  run_counter = 0;
}

-- A plan whose first task raises, and a runtime whose bus has no subscriber.
abbrev pub failing_plan : Plan
failing_plan = record plan { tasks = task "b" [] 0 ∷ task "d" ("b" ∷ []) 0 ∷ [] }

abbrev pub quiet_runtime : Runtime
quiet_runtime = record runtime { bus = record bus { subscriptions = [] } }
