-- ===== src/State.antt =====
-- src/state.c: hashing of snapshots, their comparison, and the table of visited hashes.
pub mod Hash
pub mod Table
