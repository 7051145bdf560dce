-- ===== src/SearchPath.antt =====
-- vsclib/searchpath.c: an executable file is searched in the directories of PATH.
pub mod Search
pub mod Directories
pub mod Buffers
pub mod Widths
pub mod Searched
mod Tests
