-- ===== src/GetLine.antt =====
-- vsclib/getline.c: reading a line into a buffer that grows.
pub mod Reading
pub mod Lines
mod Tests
