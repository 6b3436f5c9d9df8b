-- ===== src/Hal.antt =====
-- kernel/src/hal: what the boot stub tells the kernel of the machine.
pub mod BootInfo
pub mod Dtb
pub mod Multiboot
