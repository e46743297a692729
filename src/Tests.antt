-- ===== src/Tests.antt =====
-- Concrete inputs for the theorems, and runs of the model on them.
mod Samples
mod Events
mod Kernel
mod Capabilities
mod Memory
mod Planner
mod Router
mod Executor
mod Plugins
mod Verify
mod Runs
