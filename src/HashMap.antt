-- ===== src/HashMap.antt =====
-- vsclib/hashmap.c: a hash map with open addressing and linear probing.
pub mod Types
pub mod Probe
pub mod Resizing
pub mod Api
pub mod Scan
pub mod Slots
pub mod Placed
pub mod Count
pub mod Adding
pub mod Finding
pub mod Moving
pub mod Rehash
pub mod Valid
pub mod Growing
pub mod Inserting
pub mod Lifecycle
pub mod Updating
pub mod Faults
pub mod Between
pub mod Filling
pub mod Filled
pub mod Removing
pub mod Removed
pub mod Defaults
pub mod Strings
pub mod Enumerating
mod Tests
