-- ===== src/View.antt =====
-- viewer/crates/btelem-viewer/src/view_state.rs: the state and the logic of the viewer behind its
-- drawing code.
pub mod Panels
pub mod ScalarPanel
pub mod LogicPanel
pub mod Registry
pub mod Markers
pub mod Camera
pub mod Names
pub mod Connection
pub mod Filter
pub mod Layout
mod Tests
