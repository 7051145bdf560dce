-- ===== src/Strings.antt =====
-- Text that is copied and joined: vsclib/stpcpy.c and vsclib/strjoin.c.
pub mod Join
pub mod Joined
mod Tests
