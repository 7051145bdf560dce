-- ===== src/Io.antt =====
-- vsclib/include/vsclib/io.h: numbers in memory and in files, in either byte order.
pub mod Endian
pub mod Bytes
pub mod Orders
pub mod Transfer
mod Tests
