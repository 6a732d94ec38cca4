-- ===== src/Rpc/Accounts.antt =====
-- rpc/eth.rs: the queries of an account and of the chain's values.
pub mod Reversed
pub mod Latest
use ovr.Prelude.{
  ℕ, zero, suc, ◌+◌, ◌*◌, ◌/◌, ◌%◌, Option, none, some, List, [], ◌∷◌, ◌++◌, Result, ok, err,
  unwrap_or, codes,
}
use ovr.Primitives.{H160, H256, U256, Bytes, BlockHeight}
use ovr.Vsdb.{BranchName}
use ovr.Ethvm.Backend.{default_account}
use ovr.Ledger.Block.{LedgerCrates, big_endian}
use ovr.Ledger.Branch.{Shared}
use ovr.Ledger.Heights.{BlockNumber}
use ovr.Ledger.Rollback.{
  Management, Target, ledger_state, evm_state, rollback_to_height, rollback_by_height, height_of,
}
use ovr.Rpc.{EthApiImpl, RpcError, no_blocks, Answer, between, finish}

-- `as_byte_slice`: the bytes of a number on a little-endian machine, the lowest first
abbrev pub little_endian : ℕ → ℕ → Bytes
little_endian zero x = []
little_endian (suc n) x = x % 256 ∷ little_endian n (x / 256)

-- `H256::from_slice(index.as_byte_slice())`: the bytes of the index in reverse
abbrev pub slot_of_index : U256 → H256
slot_of_index index = big_endian 0 (little_endian 32 index)

module _ (c : LedgerCrates) (evm ledger : Management c.crates.db.Store) where
  open c use {crates, blocks}
  open crates use {db}

  unfoldable pub chain_id : EthApiImpl c → Option ℕ
  chain_id api = db.chain_id api.shared.store api.default_branch

  unfoldable pub author : EthApiImpl c → H160
  author api = api.vicinity.block_coinbase

  unfoldable pub gas_price : EthApiImpl c → Option U256
  gas_price api = db.gas_price api.shared.store api.default_branch

  unfoldable pub block_number : EthApiImpl c → Result U256 RpcError
  block_number api = elim (blocks.last api.shared.blocks) [
    | none ↦ err no_blocks
    | some (height, block) ↦ ok height
  ]

  unfoldable pub balance : H160 → Option BlockNumber → EthApiImpl c → Answer c evm ledger U256
  unfolding rollback_by_height finish
  balance address bn api =
      between c evm ledger
        (rollback_by_height c evm ledger bn evm_state (codes "balance") api.shared) evm_state
        λ s. (unwrap_or default_account (db.account s api.default_branch address)).balance

  unfoldable pub storage_at :
      H160 → (index : U256) → Option BlockNumber → EthApiImpl c → Answer c evm ledger H256
  unfolding rollback_by_height finish
  storage_at addr index bn api =
      between c evm ledger
        (rollback_by_height c evm ledger bn evm_state (codes "storage_at") api.shared) evm_state
        λ s. unwrap_or 0 (db.slot s api.default_branch addr (slot_of_index index))

  unfoldable pub code_at : H160 → Option BlockNumber → EthApiImpl c → Answer c evm ledger Bytes
  unfolding rollback_by_height finish
  code_at addr bn api =
      between c evm ledger
        (rollback_by_height c evm ledger bn evm_state (codes "code_at") api.shared) evm_state
        λ s. (unwrap_or default_account (db.account s api.default_branch addr)).code

  -- The nonce of the account
  unfoldable pub transaction_count :
      H160 → Option BlockNumber → EthApiImpl c → Answer c evm ledger U256
  unfolding rollback_to_height finish
  transaction_count addr bn api =
      between c evm ledger
        (rollback_to_height c evm ledger (height_of c evm ledger ledger_state bn api.shared)
          ledger_state (codes "transaction_count") api.shared.store)
        ledger_state λ s. (unwrap_or default_account (db.account s api.default_branch addr)).nonce
