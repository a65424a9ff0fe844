-- ===== src/Ingest.antt =====
-- viewer/crates/btelem-ingest: from the byte stream of a source to the samples of a store.
pub mod Mapper
pub mod Dispatch
pub mod Tcp
pub mod Reconnect
mod Tests
