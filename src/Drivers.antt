-- ===== src/Drivers.antt =====
-- kernel/src/drivers: the split virtqueue, the block device and the UDP echo.
pub mod Virtqueue
pub mod Blk
pub mod Net
mod Transmit
