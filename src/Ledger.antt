-- ===== src/Ledger.antt =====
-- ledger/mod.rs: blocks, receipts, and the branches of the state.
pub mod Receipt
pub mod Block
pub mod Branch
pub mod Rollback
pub mod Chain
pub mod Heights
