-- ===== src/Freadall.antt =====
-- vsclib/freadall.c: whole files read into memory.
pub mod System
pub mod Sizes
pub mod Loop
pub mod Whole
pub mod Owned
pub mod Returned
pub mod Room
pub mod Contents
pub mod Ending
mod Tests
