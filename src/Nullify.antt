-- ===== src/Nullify.antt =====
-- vsclib/fnullify.c, with the wrappers of vsclib/stdio.c that it calls.
pub mod Descriptors
pub mod Nullified
mod Tests
