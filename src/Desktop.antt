-- ===== src/Desktop.antt =====
-- crates/ac-desktop: the desktop application's own state.
pub mod Undo
