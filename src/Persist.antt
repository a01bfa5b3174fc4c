-- ===== src/Persist.antt =====
-- fs/persist.c: the snapshot of the accounts and the tree. A buffer is the list of the bytes that it
-- holds.
pub mod Writer
pub mod Reader
pub mod Snapshot
pub mod Writing
pub mod Reading
pub mod Roundtrip
pub mod Paths
pub mod Seal
pub mod Format
mod Tests
