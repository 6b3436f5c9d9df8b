-- ===== src/Hal/Dtb.antt =====
-- kernel/src/hal/dtb.rs: the parser of the flattened device tree.
pub mod Bytes
pub mod Nodes
pub mod Walk
pub mod Fuel
pub mod Valid
pub mod Ends
pub mod Tokens
pub mod Decode
pub mod Parse
mod Tests
