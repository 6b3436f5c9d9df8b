-- ===== src/Display.antt =====
-- kernel/src/display: the frame buffer.
pub mod Framebuffer
pub mod Monitor
pub mod Compositor
