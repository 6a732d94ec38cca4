-- ===== src/Rpc/Blocks.antt =====
-- rpc/eth.rs: the queries of blocks.
pub mod Numbered
pub mod Shown
use ovr.Prelude.{
  ℕ, zero, suc, ◌+◌, Bool, true, false, Option, none, some, List, [], ◌∷◌, Result, ok, err, length,
  get_elem?, is_empty, if◌then◌else◌, unwrap_or, ◌>>=◌, codes,
}
use ovr.Primitives.{H160, H256, U256, Bytes, HashValue, BlockHeight}
use ovr.BTree.{BTreeMap}
use ovr.Vsdb.{BranchName}
use ovr.Ledger.Receipt.{Receipt}
use ovr.Ledger.Block.{Tx, LedgerCrates, tm_proposer_to_evm_format, block_hash_to_evm_format}
use ovr.Ledger.Block as Ledger
use ovr.Ledger.Heights.{BlockNumber, is_block_of}
use ovr.Ledger.Rollback.{
  Management, RollbackError, ledger_state, evm_state, rollback_to_height, height_of,
}
use ovr.Rpc.{
  EthApiImpl, RpcError, rollback, remove_branch, no_block_receipt, Answer, between, finish,
}
use ovr.Rpc.Web3.{Transaction, txs_to_web3_txs, txs_from}

pub data BlockTransactions : Type 0 where
  hashes : List H256 → BlockTransactions
  full : List Transaction → BlockTransactions

-- `web3_rpc_core::types::Block`, without the fields that are always a default; `miner` is the
-- author.
pub record Block (Bloom : Type 0) : Type 0 where
  pub hash : Option H256
  pub parent_hash : H256
  pub author : H160
  pub transactions_root : H256
  pub number : Option U256
  pub gas_used : U256
  pub gas_limit : U256
  pub logs_bloom : Option Bloom
  pub timestamp : U256
  pub transactions : BlockTransactions

abbrev pub tx_hashes : List Transaction → List H256
tx_hashes [] = []
tx_hashes (t ∷ ts) = t.hash ∷ tx_hashes ts

-- What is shown of a block that is not asked for completely.
abbrev pub brief : {Bloom : Type 0} → List Transaction → Block Bloom
brief txs = record {
  hash = none;
  parent_hash = 0;
  author = 0;
  transactions_root = 0;
  number = none;
  gas_used = 0;
  gas_limit = 0;
  logs_bloom = none;
  timestamp = 0;
  transactions = hashes (tx_hashes txs);
}

-- `iter().last()`
abbrev last_receipt : BTreeMap HashValue Receipt → Option Receipt
last_receipt [] = none
last_receipt ((h, r) ∷ []) = some r
last_receipt ((h, r) ∷ (e ∷ rest)) = last_receipt (e ∷ rest)

module _ (c : LedgerCrates) where
  open c use {crates, MerkleTreeStore, Bloom, blocks}
  open crates use {db}

  abbrev pub parent_hash_of : Ledger.Block MerkleTreeStore → Option H256
  parent_hash_of block =
      if is_empty block.header.prev_hash
      then some 0
      else block_hash_to_evm_format block.header.prev_hash

  -- The fields that both queries fill for a complete block.
  abbrev pub complete :
      Ledger.Block MerkleTreeStore
      → BlockHeight
      → (gas_used : U256) → Option Bloom
      → List Transaction
      → EthApiImpl c
      → Option (Block Bloom)
  complete block height gas_used bloom txs api = do
    proposer ← tm_proposer_to_evm_format block.header.proposer
    parent ← parent_hash_of block
    hash ← block_hash_to_evm_format block.header_hash
    root ← block_hash_to_evm_format block.header.tx_merkle.root_hash
    gas_limit ← db.block_gas_limit api.shared.store api.default_branch
    some (record {
      hash = some hash;
      parent_hash = parent;
      author = proposer;
      transactions_root = root;
      number = some height;
      gas_used = gas_used;
      gas_limit = gas_limit;
      logs_bloom = bloom;
      timestamp = block.header.timestamp;
      transactions = full txs;
    })

  abbrev pub Rich : Type 0
  Rich = Option (Block Bloom)

  abbrev Found : Type 0
  Found = Option (Result Rich RpcError)

  -- One block of the loop of `block_by_hash`, whose transactions are shown already.
  abbrev shown_by_hash :
      H256
      → Bool
      → BlockHeight
      → Ledger.Block MerkleTreeStore
      → List Transaction
      → Option (Block Bloom)
      → EthApiImpl c
      → Found
  shown_by_hash wanted is_complete height block txs op api =
      if is_block_of c wanted block
      then (if is_complete
          then elim (last_receipt block.header.receipts) [
            | none ↦ (do
              _ ← tm_proposer_to_evm_format block.header.proposer
              some (err no_block_receipt))
            | some receipt ↦ do
              b ←
                  complete block height receipt.block_gas_used (some (c.from_slice block.bloom)) txs
                    api
              some (ok (some b))
          ]
          else some (ok (some (brief txs))))
      else some (ok op)

  -- The loop over all blocks: the transactions of each are shown, and the last block of this hash
  -- counts.
  unfoldable pub block_from :
      H256
      → Bool
      → EthApiImpl c
      → Option (Block Bloom)
      → List (BlockHeight × Ledger.Block MerkleTreeStore)
      → Found
  unfolding txs_from block_hash_to_evm_format tm_proposer_to_evm_format
  block_from wanted is_complete api op [] = some (ok op)
  block_from wanted is_complete api op ((height, block) ∷ rest) = do
    chain_id ← db.chain_id api.shared.store api.default_branch
    shown ← txs_to_web3_txs c block chain_id height
    elim shown [
      | err e ↦ some (err e)
      | ok txs ↦ do
        r ← shown_by_hash wanted is_complete height block txs op api
        elim r [ err e ↦ some (err e) | ok op' ↦ block_from wanted is_complete api op' rest ]
    ]

  unfoldable pub block_by_hash : H256 → Bool → EthApiImpl c → Found
  unfolding block_from
  block_by_hash block_hash is_complete api =
      block_from block_hash is_complete api none (blocks.entries api.shared.blocks)

  -- The number of transactions of the last block of this hash.
  unfoldable pub count_from : H256 → ℕ → List (BlockHeight × Ledger.Block MerkleTreeStore) → ℕ
  count_from wanted tx_count [] = tx_count
  count_from wanted tx_count ((height, block) ∷ rest) =
      count_from wanted (if is_block_of c wanted block then length block.txs else tx_count) rest

  unfoldable pub block_transaction_count_by_hash : H256 → EthApiImpl c → Option U256
  unfolding count_from
  block_transaction_count_by_hash block_hash api =
      some (count_from block_hash 0 (blocks.entries api.shared.blocks))
