-- ===== src/Rpc/Logs.antt =====
-- rpc/eth.rs, rpc/utils.rs: the query of logs.
pub mod Asked
pub mod Matched
use ovr.Prelude.{
  ℕ, zero, suc, ◌+◌, ◌-◌, Bool, true, false, Option, none, some, List, [], ◌∷◌, ◌++◌, ◌&&◌, ltb,
  if◌then◌else◌, unwrap_or, ◌>>=◌,
}
use ovr.Primitives.{H256, HashValue, BlockHeight}
use ovr.BTree.{BTreeMap}
use ovr.Ledger.Receipt as Ledger
use ovr.Ledger.Receipt.{Receipt}
use ovr.Ledger.Block.{Block, LedgerCrates, default_block}
use ovr.Ledger.Heights.{BlockNumber, block_number_to_height, is_block_of}
use ovr.Rpc.{EthApiImpl, from_slice}
use ovr.Rpc.Transactions.{Log, web3_log, StoredBlock}

-- The filters of the web3 crate: what is asked of addresses and topics, of a log and of a bloom.
pub record FilteredParams (Bloom : Type 0) : Type 1 where
  pub Addresses : Type 0
  pub Topics : Type 0
  pub filter_address : Addresses → Log → Bool
  pub filter_topics : Topics → Log → Bool
  pub address_in_bloom : Bloom → Option Addresses → Bool
  pub topics_in_bloom : Bloom → Option Topics → Bool

-- `web3_rpc_core::types::Filter`
pub record Filter {Bloom : Type 0} (p : FilteredParams Bloom) : Type 0 where
  pub from_block : Option BlockNumber
  pub to_block : Option BlockNumber
  pub block_hash : Option H256
  pub address : Option p.Addresses
  pub topics : Option p.Topics

module _ (c : LedgerCrates) (p : FilteredParams c.Bloom) where
  open c use {MerkleTreeStore, Bloom, blocks}

  -- The match of `filter_block_logs`
  abbrev pub add : Option p.Addresses → Option p.Topics → Log → Bool
  add (some address) (some topics) log = p.filter_address address log && p.filter_topics topics log
  add (some address) none log = p.filter_address address log
  add none (some topics) log = p.filter_topics topics log
  add none none log = true

  abbrev pub passes : Filter p → Log → Bool
  passes filter log = add filter.address filter.topics log

  -- The logs of a receipt; the two hashes are read for each.
  unfoldable pub filter_receipt_logs :
      (passes : Log → Bool)
      → (header_hash tx_hash : HashValue) → BlockHeight
      → List Ledger.Log
      → Option (List Log)
  filter_receipt_logs passes header_hash tx_hash height [] = some []
  filter_receipt_logs passes header_hash tx_hash height (l ∷ ls) = do
    block_hash ← from_slice 32 header_hash
    hash ← from_slice 32 tx_hash
    rest ← filter_receipt_logs passes header_hash tx_hash height ls
    let log = web3_log block_hash hash height l
    some (if passes log then log ∷ rest else rest)

  unfoldable pub filter_receipts :
      (passes : Log → Bool)
      → (header_hash : HashValue) → BlockHeight
      → BTreeMap HashValue Receipt
      → Option (List Log)
  unfolding filter_receipt_logs
  filter_receipts passes header_hash height [] = some []
  filter_receipts passes header_hash height ((tx_hash, receipt) ∷ receipts) = do
    logs ← filter_receipt_logs passes header_hash tx_hash height receipt.logs
    rest ← filter_receipts passes header_hash height receipts
    some (logs ++ rest)

  abbrev pub filter_block_logs : Block MerkleTreeStore → Filter p → BlockHeight → Option (List Log)
  filter_block_logs block filter height =
      filter_receipts (passes filter) block.header_hash height block.header.receipts

  -- Both blooms of the filter are in that of the block.
  abbrev pub in_bloom : Block MerkleTreeStore → Filter p → Bool
  in_bloom block filter =
      let b = c.from_slice block.bloom in
      p.address_in_bloom b filter.address && p.topics_in_bloom b filter.topics

  -- The logs of the first block of this hash.
  unfoldable pub logs_of_hash : H256 → Filter p → List (StoredBlock c) → Option (List Log)
  unfolding filter_receipts
  logs_of_hash hash filter [] = some []
  logs_of_hash hash filter ((height, block) ∷ rest) =
      let later = logs_of_hash hash filter rest in
      if is_block_of c hash block then filter_block_logs block filter height else later

  -- The loop over the heights, of which so many are left.
  unfoldable pub logs_from :
      Filter p → blocks.Map → (left : ℕ) → (height : BlockHeight) → Option (List Log)
  unfolding filter_receipts
  logs_from filter m zero height = some []
  logs_from filter m (suc left) height =
      let later = logs_from filter m left (suc height) in
      elim (blocks.get m height) [
        | none ↦ later
        | some block ↦
            if in_bloom block filter
            then (do
              logs ← filter_block_logs block filter height
              rest ← later
              some (logs ++ rest))
            else later
      ]

  abbrev pub current_height : EthApiImpl c → BlockHeight
  current_height api = (unwrap_or (0, default_block c) (blocks.last api.shared.blocks)).0

  -- A bound of the range, which is at most the last height.
  abbrev pub bound : Option BlockNumber → EthApiImpl c → BlockHeight
  bound bn api =
      let height = block_number_to_height c bn (some api.shared.blocks) none in
      if ltb (current_height api) height then current_height api else height

  unfoldable pub logs : Filter p → EthApiImpl c → Option (List Log)
  unfolding logs_of_hash logs_from block_number_to_height
  logs filter api = elim filter.block_hash [
    | some hash ↦ logs_of_hash hash filter (blocks.entries api.shared.blocks)
    | none ↦
        let to = bound filter.to_block api in
        let from = bound filter.from_block api in
        logs_from filter api.shared.blocks (1 + to - from) from
  ]
