-- ===== src/Rpc/Blocks/Numbered.antt =====
-- rpc/eth.rs: the queries of a block by its number, at a branch of that height.
use ovr.Prelude.{Bool, true, false, Option, none, some, List, Result, ok, err, length, ◌>>=◌, codes}
use ovr.Primitives.{U256, BlockHeight}
use ovr.Vsdb.{BranchName}
use ovr.Ledger.Block.{Tx, LedgerCrates, tm_proposer_to_evm_format, block_hash_to_evm_format}
use ovr.Ledger.Block as Ledger
use ovr.Ledger.Heights.{BlockNumber}
use ovr.Ledger.Rollback.{
  Management, RollbackError, ledger_state, evm_state, rollback_to_height, height_of,
}
use ovr.Rpc.{EthApiImpl, RpcError, rollback, remove_branch, Answer, between, finish}
use ovr.Rpc.Web3.{Transaction, txs_to_web3_txs, txs_from}
use ovr.Rpc.Blocks.{brief, complete, parent_hash_of, Rich}

module _ (c : LedgerCrates) (evm ledger : Management c.crates.db.Store) where
  open c use {crates, MerkleTreeStore, Bloom, blocks}
  open crates use {db}

  -- The block, once its transactions are shown.
  abbrev pub show_txs :
      Ledger.Block MerkleTreeStore
      → BlockHeight
      → Bool
      → EthApiImpl c
      → Result (List Transaction) RpcError
      → Option (Result (Rich c) RpcError)
  show_txs block height is_complete api (err e) = some (err e)
  show_txs block height true api (ok txs) = do
    b ← complete c block height 0 none txs api
    some (ok (some b))
  show_txs block height false api (ok txs) = some (ok (some (brief txs)))

  -- The stored block of a height, while the branch is there.
  abbrev pub show_block :
      Ledger.Block MerkleTreeStore
      → BlockHeight
      → Bool
      → EthApiImpl c
      → Option (Result (Rich c) RpcError)
  show_block block height is_complete api = do
    _ ← tm_proposer_to_evm_format block.header.proposer
    _ ← parent_hash_of c block
    chain_id ← db.chain_id api.shared.store api.default_branch
    shown ← txs_to_web3_txs c block chain_id height
    show_txs block height is_complete api shown

  abbrev pub show_stored :
      BlockHeight → Bool → EthApiImpl c → db.Store → Option (Result (Rich c) RpcError)
  show_stored height is_complete api s = elim (blocks.get api.shared.blocks height) [
    | none ↦ some (ok none)
    | some block ↦
        show_block block height is_complete
          (record api { shared = record api.shared { store = s } })
  ]

  -- The branch is dropped on an error too, whose own error is then answered.
  abbrev pub drop_after :
      BranchName → db.Store → Result (Rich c) RpcError → Answer c evm ledger (Rich c)
  drop_after name s (ok b) = finish c evm ledger name evm_state b s
  drop_after name s (err e) = elim (evm.branch_remove name s) [
    | none ↦ (err remove_branch, s)
    | some s' ↦ (err e, s')
  ]

  abbrev pub block_between :
      Result BranchName RollbackError × db.Store
      → (db.Store → Option (Result (Rich c) RpcError))
      → Option (Answer c evm ledger (Rich c))
  block_between (err e, s) show = some (err (rollback e), s)
  block_between (ok name, s) show = do r ← show s; some (drop_after name s r)

  unfoldable pub block_by_number :
      BlockNumber → Bool → EthApiImpl c → Option (Answer c evm ledger (Rich c))
  unfolding rollback_to_height finish txs_from block_hash_to_evm_format tm_proposer_to_evm_format
  block_by_number bn is_complete api =
      let height = height_of c evm ledger evm_state (some bn) api.shared in
      block_between
        (rollback_to_height c evm ledger height evm_state (codes "block_by_number")
          api.shared.store)
        (show_stored height is_complete api)

  -- The branch is made in the collections of the ledger and dropped in those of the EVM.
  unfoldable pub block_transaction_count_by_number :
      BlockNumber → EthApiImpl c → Answer c evm ledger (Option U256)
  unfolding rollback_to_height finish
  block_transaction_count_by_number bn api =
      let height = height_of c evm ledger ledger_state (some bn) api.shared in
      between c evm ledger
        (rollback_to_height c evm ledger height ledger_state
          (codes "block_transaction_count_by_number") api.shared.store)
        evm_state
        λ s.
          some (elim (blocks.get api.shared.blocks height) [
            | none ↦ 0
            | some block ↦ length block.txs
          ])
