-- ===== src/App.antt =====
-- viewer/crates/btelem-viewer/src/app.rs: what the application does with the events of its windows.
pub mod Selection
pub mod Drop
mod Tests
