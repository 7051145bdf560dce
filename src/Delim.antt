-- ===== src/Delim.antt =====
-- vsclib/for_each.c: calling a procedure on the fields of a text.
pub mod Loop
pub mod Fields
mod Tests
