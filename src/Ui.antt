-- ===== src/Ui.antt =====
-- kernel/src/ui: the font, the canvas and the widgets, which draw in a frame buffer.
pub mod Words
pub mod Font
pub mod Canvas
pub mod Widgets
pub mod Clip
pub mod Safe
mod Tests
