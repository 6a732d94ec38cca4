-- ===== src/Rpc.antt =====
-- rpc/eth.rs, rpc/utils.rs: the queries of the Ethereum JSON-RPC interface. A query reads the state
-- and its blocks; those that name a block make a branch of the state and drop it again. An outer
-- `none` of an answer is a panic.
pub mod Accounts
pub mod Web3
pub mod Blocks
pub mod Transactions
pub mod Logs
pub mod Calls
use ovr.Prelude.{ℕ, ◌==◌, Option, none, some, List, Result, ok, err, length, if◌then◌else◌}
use ovr.Primitives.{H160, H256, U256, Bytes, BlockHeight}
use ovr.Vsdb.{BranchName}
use ovr.Ethvm.Backend.{OvrVicinity}
use ovr.Ledger.Block.{Block, LedgerCrates, big_endian}
use ovr.Ledger.Branch.{Shared}
use ovr.Ledger.Heights.{BlockNumber}
use ovr.Ledger.Rollback.{
  Management, Target, RollbackError, rollback_to_height, rollback_by_height, remove_branch_by_name,
  height_of,
}

pub data RpcError : Type 0 where
  rollback : RollbackError → RpcError
  remove_branch no_originator no_receipt no_block_receipt call_failed no_blocks : RpcError

-- `EthApiImpl`, the state that it holds: of its handles the default branch is their own.
pub record EthApiImpl (c : LedgerCrates) : Type 0 where
  pub shared : Shared c
  pub default_branch : BranchName
  pub vicinity : OvrVicinity

-- `H256::from_slice` panics where the length differs.
abbrev pub from_slice : (size : ℕ) → Bytes → Option ℕ
from_slice size bytes = if length bytes == size then some (big_endian 0 bytes) else none

module _ (c : LedgerCrates) (evm ledger : Management c.crates.db.Store) where
  open c use {crates}
  open crates use {db}

  -- What a query answers, and the store that it leaves.
  abbrev pub Answer : Type 0 → Type 0
  Answer A = Result A RpcError × db.Store

  -- The end of a query: the branch is dropped, and then the answer is given.
  unfoldable pub finish : {A : Type 0} → BranchName → Target → A → db.Store → Answer A
  unfolding remove_branch_by_name
  finish name target a s = elim (remove_branch_by_name c evm ledger name target s) [
    | none ↦ (err remove_branch, s)
    | some s' ↦ (ok a, s')
  ]

  -- A query that reads between the two: `read` is asked on the store with the branch.
  abbrev pub between :
      {A : Type 0} → Result BranchName RollbackError × db.Store → Target → (db.Store → A) → Answer A
  between (err e, s) target read = (err (rollback e), s)
  between (ok name, s) target read = finish name target (read s) s
