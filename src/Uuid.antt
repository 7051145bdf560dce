-- ===== src/Uuid.antt =====
-- vsclib/uuid.c and vsclib/string.c: UUIDs as text.
pub mod Text
mod Positions
mod Loops
pub mod RoundTrip
mod Accepted
pub mod Soundness
mod Tests
