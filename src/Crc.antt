-- ===== src/Crc.antt =====
-- vsclib/crc32.c: CRC-32 and CRC-32C.
pub mod Tables
pub mod Sum
pub mod Bitwise
mod Tests
