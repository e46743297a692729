-- ===== src/Schemas.antt =====
-- nexus/schemas: the data objects that the components exchange.
mod Json
mod Core
pub mod Floats
pub mod Capability
mod Memory
pub use Json.*
pub use Core.*
unfoldable pub use Floats.*
unfoldable pub use Capability.*
pub use Memory.*
