-- ===== src/Mm.antt =====
-- kernel/src/mm: the physical frame allocator, address spaces, address types.
pub mod Address
pub mod Pmm
pub mod Vmm
