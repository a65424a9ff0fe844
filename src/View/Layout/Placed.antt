-- ===== src/View/Layout/Placed.antt =====
-- viewer/crates/btelem-viewer/src/layout.rs: whatever a layout holds, `apply` leaves no tab without its
-- plot.
pub mod Specs
pub mod Dock
