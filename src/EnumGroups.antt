-- ===== src/EnumGroups.antt =====
-- vsclib/enum_groups.c: the groups of a user.
pub mod Loop
pub mod Members
mod Tests
mod Users
