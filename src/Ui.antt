-- ===== src/Ui.antt =====
-- The text user interface (src/ui): what is printed, and the forms that take keys.
pub mod Color
pub mod CharBuff
pub mod Viewport
pub mod SceneGraph
pub mod Root
pub mod Forms
pub mod Scanline
pub mod GapBuffer
mod Runs
