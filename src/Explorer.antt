-- ===== src/Explorer.antt =====
-- src/explorer.c: the persistent sets and the search; and the minimisation of src/trace.c.
pub mod Persistent
pub mod Search
pub mod Minimize
