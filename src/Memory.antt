-- ===== src/Memory.antt =====
-- vsclib/memory.c: allocation through an allocator.
pub mod Allocation
pub mod Requests
pub mod Alignment
pub mod Powers
pub mod Rounding
pub mod Aligning
pub mod Blocks
pub mod Layout
pub mod Placing
pub mod Faked
mod Tests
