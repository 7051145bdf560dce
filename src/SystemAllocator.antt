-- ===== src/SystemAllocator.antt =====
-- vsclib/allocator.cpp and vsclib/allocator_internal.h: the allocator over the system's, and
-- vsclib/ctz.c.
pub mod Bytes
pub mod Header
pub mod Trailing
pub mod Blocks
pub mod Prepared
pub mod Finished
pub mod Allocated
pub mod Moved
pub mod Reallocated
pub mod Default
mod Tests
