-- ===== src/Store.antt =====
-- viewer/crates/btelem-store: the store that ingest fills and the viewer reads.
mod Types
pub mod Mock
pub mod Query
pub mod Sample
mod Tests
pub use Types.*
