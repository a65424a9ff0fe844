-- ===== src/View/Layout/Restored.antt =====
-- viewer/crates/btelem-viewer/src/layout.rs: what `apply` makes of one plot that `capture` saved.
pub mod Entries
pub mod Scalar
pub mod Lanes
pub mod Columns
pub mod Xy
pub mod Built
pub mod Order
pub mod Tabs
pub mod Indices
