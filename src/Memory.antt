-- ===== src/Memory.antt =====
-- A database in memory, and crates over it, for the examples.
pub mod Store
pub mod Maps
pub mod Machine
pub mod Management
