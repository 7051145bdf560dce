-- ===== src/Wav.antt =====
-- vsclib/wav.c: sounds that are written to a file.
pub mod Write
pub mod Fill
pub mod Header
pub mod File
mod Tests
