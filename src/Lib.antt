-- ===== src/Lib.antt =====
-- The core of nexus, a modular agent runtime: its kernel and the components that gate what enters
-- it.
--
-- The parts and how they interact. Everything is published on one event bus
-- (nexus/kernel/events.py, Kernel/Events.antt). The scheduler (nexus/kernel/scheduler.py,
-- Kernel/Scheduler.antt) holds a task graph and its statuses; the state manager
-- (nexus/kernel/state.py, Kernel/State.antt) the sessions' working values; the session manager
-- (nexus/kernel/sessions.py, Kernel/Sessions.antt) creates a session and drops its namespace at
-- its end; and the runtime (nexus/kernel/runtime.py, Kernel/Runtime.antt) runs a plan over these
-- four: `execute` submits the plan's tasks to a fresh scheduler, runs the ready ones round by
-- round through their handlers, and reports a run. The capability registry
-- (nexus/capabilities/registry.py, Capabilities/Registry.antt) holds the manifests
-- (nexus/schemas/capability.py, Schemas/Capability.antt) that the security guard
-- (nexus/security/policy.py, Security.antt) judges. The memory store (nexus/memory/store.py,
-- Memory.antt) keeps what was promoted with its evidence, and the policy engine of Cog
-- (nexus/cog/policy.py, Cog/Policy.antt) the versions of the policies. The router
-- (nexus/router/router.py, Router.antt) chooses a capability for each task of a plan. The planner
-- (nexus/planner/planner.py, Planner.antt) makes the plans that the runtime runs, for which the
-- thinking budget (nexus/thinking/budget.py, Thinking.antt) gives its hints, and the theory ledger
-- (nexus/science/theory.py, Science/Theory.antt) promotes what was replicated into the memory
-- store. The executor (nexus/executor/executor.py, Executor.antt) runs a plan as the runtime does,
-- but on a pool of workers, with retries, control of the running job and checkpoints that it saves
-- in the state manager; the plugin manager (nexus/plugins/manager.py, Plugins.antt) validates
-- packages (nexus/schemas/plugin.py) and enters and withdraws their capabilities in the registry
-- and their handlers in the runtime; and the verification engine (nexus/verify/engine.py,
-- Verify.antt) makes, from a run, its plan and the bus's log, the evidence that the memory store
-- and the theory ledger ask for. The data objects are those of nexus/schemas (Schemas/). Base
-- holds what the components share: Python's dicts in insertion order, lists, texts and signed
-- integers.
--
-- How state and operations correspond to the code. An object with its attributes is a record with
-- the attributes' names; a method is a function from the record to its result and the new record,
-- named as in the code or, where that name is taken, by its purpose (`put` is `StateManager.set`,
-- `start_runtime` is `Runtime.start`, `get_version` and `get_latest` are the two uses of
-- `CapabilityRegistry.get`). An exception is an `err` of the component's own error type, whose
-- constructors hold what the message shows. `time.time()` is a clock function that the object
-- reads by a counter. A lock makes one method one step, so that it has no part of its own. Stored
-- values are immutable here, which makes every deep copy the value itself. An enumeration's
-- members and a record's fields have the source's names.
--
-- The executor's loop is a machine: `advance` is one step of it, up to its next look at the job or
-- at the futures, and `LoopReach` (Executor/Steps.antt) the states that it reaches while other
-- threads pause, resume or cancel the job and the workers change the session's values between any
-- two steps: the decision that a task is retried, the publication of the retry and the submission
-- of its future are in different steps. `take_turns` (Executor/Schedule.antt) runs a given
-- interleaving.
--
-- Foreign code is an argument. A subscriber of the bus is a function that tells whether it raises
-- on an event, and what; a task handler one from its task and context to what it set and published
-- and to its result; a health probe one from the time to its answer; the outcome of a future of
-- the executor is given by the future's number; what the import of a plugin's entrypoint and its
-- call give is given with the package; and a check of the verification engine is a function from
-- the result and the task to what it answers or raises. The sums and products of floats,
-- `str.lower`, `int` of a text, `repr`, `round`, the order of numbers, digests, and the planner's
-- and the secret scan's patterns are fields of a record that the operations take. Floats are
-- compared by their bits.
--
-- Bounds and fuel. `Scheduler._block_dependents` recurses on a bound that is the number of the
-- tasks, which is enough since it closes an open task before each recursive call. Kahn's loop has
-- as many rounds as tasks are queued and dependencies open: a round takes one from the queue, and
-- what it puts there closed a dependency. The loop of `execute` has as many rounds as there are
-- tasks, since a round closes one at least.
--
-- Not modelled: a subscriber that calls the bus back from its handler; the text search of the
-- memory store; the times for which the executor's threads and `Job.wait` wait; a checkpoint whose
-- session state is no dictionary, which the executor would put in place of the session's
-- namespace; files, network, processes and threads (nexus/browser, nexus/research, nexus/models,
-- nexus/sandbox, nexus/pyexec, nexus/cli), the benchmarks (nexus/bench), and the intent engine,
-- the economist, the experiments, the other science modules and Cog's own loop.
pub mod Base
pub mod Schemas
pub mod Kernel
pub mod Capabilities
pub mod Cog
pub mod Executor
pub mod Memory
pub mod Planner
pub mod Plugins
pub mod Router
pub mod Science
pub mod Security
pub mod Thinking
pub mod Verify
pub mod Tests
