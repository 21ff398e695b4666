-- ===== src/Hashtable.antt =====
-- The hash table of prod/libsrc/cplat/hashtable: one child for each implementation file.
pub mod Config
pub mod Arena
pub mod Store
pub mod Table
pub mod Query
pub mod Modify
pub mod Layout
pub mod Create
pub mod Grow
pub mod Run
mod Tests
