-- ===== src/Ethvm.antt =====
-- ethvm: the state of the virtual machine, its journal and its backend.
pub mod Stack
pub mod State
pub mod Backend
pub mod Tx
