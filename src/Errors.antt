-- ===== src/Errors.antt =====
-- vsclib/include/vsclib/error.h and vsclib/error.c: error values, and how they are printed.
pub mod Values
pub mod Printing
pub mod Kinds
mod Tests
