-- ===== src/Cog.antt =====
-- nexus/cog.
pub mod Policy
