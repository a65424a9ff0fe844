-- ===== src/Render.antt =====
-- viewer/crates/btelem-viewer/src/plot_renderers.rs: what the drawing code computes before it draws.
pub mod LogRows
pub mod Truncate
pub mod Labels
pub mod Curves
mod Tests
