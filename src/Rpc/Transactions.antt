-- ===== src/Rpc/Transactions.antt =====
-- rpc/eth.rs: the queries of transactions and receipts.
pub mod First
pub mod ShownLogs
pub mod Last
pub mod Leftover
use ovr.Prelude.{
  ℕ, zero, suc, ◌+◌, Option, none, some, List, [], ◌∷◌, Result, ok, err, get_elem?, if◌then◌else◌,
  ◌>>=◌, codes,
}
use ovr.Primitives.{H160, H256, U256, Bytes, BlockHeight}
use ovr.BTree.{get}
use ovr.BTree.Keys.{same, bytes_key}
use ovr.Ledger.Receipt as Ledger
use ovr.Ledger.Block.{Tx, Block, LedgerCrates, tx_hash_of, block_hash_to_evm_format}
use ovr.Ledger.Heights.{BlockNumber, bytes_of, is_block_of}
use ovr.Vsdb.{BranchName}
use ovr.Ledger.Rollback.{
  RollbackError, Management, ledger_state, evm_state, rollback_to_height, height_of,
}
use ovr.Rpc.{EthApiImpl, RpcError, rollback, Answer, finish}
use ovr.Rpc.Web3.{Transaction, tx_to_web3_tx}

-- `web3_rpc_core::types::Log`
pub record Log : Type 0 where
  pub address : H160
  pub topics : List H256
  pub bytes : Bytes
  pub block_hash : Option H256
  pub block_number : Option U256
  pub transaction_hash : Option H256
  pub transaction_index : Option U256
  pub log_index : Option U256
  pub transaction_log_index : Option U256

-- A log of a receipt, as it is shown.
abbrev pub web3_log : (block_hash transaction_hash : H256) → BlockHeight → Ledger.Log → Log
web3_log block_hash transaction_hash height l = record {
  address = l.address;
  topics = l.topics;
  bytes = l.bytes;
  block_hash = some block_hash;
  block_number = some height;
  transaction_hash = some transaction_hash;
  transaction_index = some l.tx_index;
  log_index = some l.log_index_in_block;
  transaction_log_index = some l.log_index_in_tx;
}

abbrev pub web3_logs :
    (block_hash transaction_hash : H256) → BlockHeight → List Ledger.Log → List Log
web3_logs block_hash hash height [] = []
web3_logs block_hash hash height (l ∷ ls) =
    web3_log block_hash hash height l ∷ web3_logs block_hash hash height ls

-- `web3_rpc_core::types::Receipt`
pub record Receipt : Type 0 where
  pub transaction_hash : Option H256
  pub transaction_index : Option U256
  pub block_hash : Option H256
  pub from : Option H160
  pub to : Option H160
  pub block_number : Option U256
  pub cumulative_gas_used : U256
  pub gas_used : Option U256
  pub contract_address : Option H160
  pub logs : List Log

abbrev pub web3_receipt :
    (block_hash transaction_hash : H256) → BlockHeight → Ledger.Receipt → Receipt
web3_receipt block_hash hash height r = record {
  transaction_hash = some hash;
  transaction_index = some r.tx_index;
  block_hash = some block_hash;
  from = r.from;
  to = r.to;
  block_number = some height;
  cumulative_gas_used = r.block_gas_used;
  gas_used = some r.tx_gas_used;
  contract_address = r.contract_addr;
  logs = web3_logs block_hash hash height r.logs;
}

module _ (c : LedgerCrates) where
  open c use {crates, MerkleTreeStore, blocks}
  open crates use {db}

  abbrev pub StoredBlock : Type 0
  StoredBlock = BlockHeight × Block MerkleTreeStore

  -- The position of the first transaction of this hash.
  unfoldable pub find_tx : H256 → (index : ℕ) → List Tx → Option (ℕ × Tx)
  unfolding tx_hash_of
  find_tx wanted index [] = none
  find_tx wanted index (tx ∷ txs) =
      let later = find_tx wanted (suc index) txs in
      if same (tx_hash_of c tx) (bytes_of 32 wanted) then some (index, tx) else later

  abbrev pub Shown : Type 0
  Shown = Option (Result (Option Transaction) RpcError)

  -- The loop `'outer`, which the first transaction of this hash ends.
  unfoldable pub find_in_blocks : H256 → (chain_id : Option ℕ) → List StoredBlock → Shown
  unfolding find_tx tx_to_web3_tx
  find_in_blocks wanted chain_id [] = some (ok none)
  find_in_blocks wanted chain_id ((height, block) ∷ rest) =
      let later = find_in_blocks wanted chain_id rest in
      elim (find_tx wanted 0 block.txs) [
        | none ↦ later
        | some (index, tx) ↦ do id ← chain_id; tx_to_web3_tx c tx block height index id
      ]

  unfoldable pub transaction_by_hash : H256 → EthApiImpl c → Shown
  unfolding find_in_blocks
  transaction_by_hash tx_hash api =
      find_in_blocks tx_hash (db.chain_id api.shared.store api.default_branch)
        (blocks.entries api.shared.blocks)

  -- The transaction at a position of the first block of this hash that has one there.
  unfoldable pub find_at : H256 → (index : ℕ) → (chain_id : Option ℕ) → List StoredBlock → Shown
  unfolding tx_to_web3_tx
  find_at block_hash index chain_id [] = some (ok none)
  find_at block_hash index chain_id ((height, block) ∷ rest) =
      let later = find_at block_hash index chain_id rest in
      if is_block_of c block_hash block
      then elim (get_elem? block.txs index) [
        | none ↦ later
        | some tx ↦ do id ← chain_id; tx_to_web3_tx c tx block height index id
      ]
      else later

  unfoldable pub transaction_by_block_hash_and_index : H256 → ℕ → EthApiImpl c → Shown
  unfolding find_at
  transaction_by_block_hash_and_index block_hash index api =
      find_at block_hash index (db.chain_id api.shared.store api.default_branch)
        (blocks.entries api.shared.blocks)

  -- The loop over all blocks, of which the last one with a receipt of this hash counts; the hash
  -- of each block is read.
  unfoldable pub receipt_from : H256 → Option Receipt → List StoredBlock → Option (Option Receipt)
  unfolding block_hash_to_evm_format
  receipt_from tx_hash op [] = some op
  receipt_from tx_hash op ((height, block) ∷ rest) = do
    block_hash ← block_hash_to_evm_format block.header_hash
    receipt_from tx_hash
        (elim (get (bytes_of 32 tx_hash) block.header.receipts) [
          | none ↦ op
          | some r ↦ some (web3_receipt block_hash tx_hash height r)
        ])
        rest

  unfoldable pub transaction_receipt : H256 → EthApiImpl c → Option (Option Receipt)
  unfolding receipt_from
  transaction_receipt tx_hash api = receipt_from tx_hash none (blocks.entries api.shared.blocks)

module _ (c : LedgerCrates) (evm ledger : Management c.crates.db.Store) where
  open c use {crates, blocks}
  open crates use {db}

  -- The transaction of a stored block, if there is one.
  abbrev pub show_at : BlockHeight → (index : ℕ) → EthApiImpl c → db.Store → Shown c
  show_at height index api s = elim (blocks.get api.shared.blocks height) [
    | none ↦ some (ok none)
    | some block ↦ elim (get_elem? block.txs index) [
      | none ↦ some (ok none)
      | some tx ↦ do id ← db.chain_id s api.default_branch; tx_to_web3_tx c tx block height index id
    ]
  ]

  -- The branch stays where the transaction can not be shown.
  abbrev pub drop_if_shown :
      BranchName
      → db.Store
      → Result (Option Transaction) RpcError
      → Answer c evm ledger (Option Transaction)
  drop_if_shown name s (err e) = (err e, s)
  drop_if_shown name s (ok op) = finish c evm ledger name evm_state op s

  abbrev pub show_between :
      Result BranchName RollbackError × db.Store
      → (db.Store → Shown c)
      → Option (Answer c evm ledger (Option Transaction))
  show_between (err e, s) show = some (err (rollback e), s)
  show_between (ok name, s) show = do r ← show s; some (drop_if_shown name s r)

  -- The branch is made in the collections of the ledger and dropped in those of the EVM.
  unfoldable pub transaction_by_block_number_and_index :
      BlockNumber → (index : ℕ) → EthApiImpl c → Option (Answer c evm ledger (Option Transaction))
  unfolding rollback_to_height finish tx_to_web3_tx
  transaction_by_block_number_and_index bn index api =
      let height = height_of c evm ledger ledger_state (some bn) api.shared in
      show_between
        (rollback_to_height c evm ledger height ledger_state
          (codes "transaction_by_block_number_and_index") api.shared.store)
        (show_at height index api)
