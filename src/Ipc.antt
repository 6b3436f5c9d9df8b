-- ===== src/Ipc.antt =====
-- kernel/src/ipc: capability tables, message ports and the registry of ports.
pub mod Caps
pub mod Port
pub mod Registry
