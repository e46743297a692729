-- ===== src/Kernel.antt =====
-- nexus/kernel: events, state, sessions, scheduler and runtime.
pub mod Events
pub mod Scheduler
pub mod State
pub mod Sessions
pub mod Runtime
