-- ===== src/Capabilities.antt =====
-- nexus/capabilities.
pub mod Registry
