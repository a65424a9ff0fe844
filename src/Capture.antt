-- ===== src/Capture.antt =====
-- viewer/crates/btelem-capture/src/lib.rs: the bounded ring of raw packets, the `.btlm` file and
-- the suggested file name.
pub mod Ring
pub mod File
pub mod Date
mod Tests
