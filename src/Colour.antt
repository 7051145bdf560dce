-- ===== src/Colour.antt =====
-- vsclib/colour.c with the macros of vsclib/include/vsclib/colourdef.h and macros.h.
pub mod Pixels
pub mod Fields
pub mod RoundTrip
mod Tests
