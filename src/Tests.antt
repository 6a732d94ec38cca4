-- ===== src/Tests.antt =====
-- Runs and instances of the theorems, over the database and the crates in memory.
pub mod Data
pub mod Journal
pub mod Blocks
pub mod Heights
pub mod Queries
pub mod Calls
pub mod Rounds
pub mod Network
