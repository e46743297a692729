-- ===== src/Science.antt =====
-- nexus/science.
pub mod Theory
