-- ===== src/Net.antt =====
-- System/Net and System/Buffers/Binary: byte order and IP addresses.
pub mod ByteOrder
pub mod Swaps
pub mod Address
pub mod Bytes
pub mod Prefixes
pub mod Scope
pub mod Tests
