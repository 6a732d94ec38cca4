-- ===== src/Rpc/Logs/Asked.antt =====
-- rpc/eth.rs, rpc/utils.rs: what a query of logs asks of the blocks, independently of its loops.
use ovr.Prelude.{suc, ◌≤◌, ◌<◌, ◌≡◌, true, none, some, List, [], ◌∷◌, ◌++◌, All}
use ovr.Primitives.{H256, HashValue, BlockHeight}
use ovr.BTree.{BTreeMap}
use ovr.Ledger.Receipt as Ledger
use ovr.Ledger.Receipt.{Receipt}
use ovr.Ledger.Block.{Block, LedgerCrates}
use ovr.Rpc.{from_slice}
use ovr.Rpc.Transactions.{Log}
use ovr.Rpc.Transactions.ShownLogs.{IsShownLog}
use ovr.Rpc.Logs.{FilteredParams, Filter}

-- A log of a block and of a transaction of these hashes, as it is shown.
pub record IsRead (header_hash tx_hash : HashValue) (height : BlockHeight) (l : Ledger.Log)
    (t : Log) : Type 0 where
  pub block_hash : H256
  pub hash : H256
  pub its_block : from_slice 32 header_hash ≡ some block_hash
  pub its_hash : from_slice 32 tx_hash ≡ some hash
  pub shown : IsShownLog block_hash hash height l t

module _ (c : LedgerCrates) (p : FilteredParams c.Bloom) (filter : Filter p) where
  open c use {MerkleTreeStore, blocks}

  -- What is asked of a log: its address is one of the filter's, and its topics are.
  pub record Passes (t : Log) : Type 0 where
    pub address : (a : p.Addresses) → filter.address ≡ some a → p.filter_address a t ≡ true
    pub topics : (ts : p.Topics) → filter.topics ≡ some ts → p.filter_topics ts t ≡ true

  -- The logs of a receipt that pass, and no other.
  pub data FromReceipt (header_hash tx_hash : HashValue) (height : BlockHeight)
      : List Ledger.Log → List Log → Type 0 where
    no_more : FromReceipt header_hash tx_hash height [] []
    picked :
        (l : Ledger.Log) (t : Log) (ls : List Ledger.Log) (ts : List Log)
        → IsRead header_hash tx_hash height l t
        → Passes t
        → FromReceipt header_hash tx_hash height ls ts
        → FromReceipt header_hash tx_hash height (l ∷ ls) (t ∷ ts)
    left_out :
        (l : Ledger.Log) (t : Log) (ls : List Ledger.Log) (ts : List Log)
        → IsRead header_hash tx_hash height l t
        → ¬ (Passes t)
        → FromReceipt header_hash tx_hash height ls ts
        → FromReceipt header_hash tx_hash height (l ∷ ls) ts

  -- The same over all receipts of a block.
  pub data FromReceipts (header_hash : HashValue) (height : BlockHeight)
      : BTreeMap HashValue Receipt → List Log → Type 0 where
    no_receipt : FromReceipts header_hash height [] []
    receipt :
        (tx_hash : HashValue) (r : Receipt) (rs : BTreeMap HashValue Receipt) (ts us : List Log)
        → FromReceipt header_hash tx_hash height r.logs ts
        → FromReceipts header_hash height rs us
        → FromReceipts header_hash height ((tx_hash, r) ∷ rs) (ts ++ us)

  -- The same over the stored blocks from a height up to the last one that is asked for.
  pub data InRange (m : blocks.Map) (to : BlockHeight) : BlockHeight → List Log → Type 0 where
    past : (h : BlockHeight) → to < h → InRange m to h []
    missing :
        (h : BlockHeight) (ts : List Log)
        → h ≤ to
        → blocks.get m h ≡ none
        → InRange m to (suc h) ts
        → InRange m to h ts
    stored :
        (h : BlockHeight) (block : Block MerkleTreeStore) (ts us : List Log)
        → h ≤ to
        → blocks.get m h ≡ some block
        → FromReceipts block.header_hash h block.header.receipts ts
        → InRange m to (suc h) us
        → InRange m to h (ts ++ us)

  -- A property of all logs of a block, with the hash of their transaction.
  abbrev pub EachLog : (HashValue → Ledger.Log → Type 0) → BTreeMap HashValue Receipt → Type 0
  EachLog P rs = All (λ e. All (P e.0) e.1.logs) rs

  -- The bloom of a block holds what is asked of a log that passes.
  pub record InBloom (block : Block MerkleTreeStore) : Type 0 where
    pub address : p.address_in_bloom (c.from_slice block.bloom) filter.address ≡ true
    pub topics : p.topics_in_bloom (c.from_slice block.bloom) filter.topics ≡ true

  -- Each log can be read, and the bloom does not rule out one that passes.
  pub record IsIndexed (height : BlockHeight) (block : Block MerkleTreeStore) : Type 0 where
    pub readable :
        EachLog
          (λ tx_hash l. (t : Log) × IsRead block.header_hash tx_hash height l t)
          block.header.receipts
    pub holds :
        EachLog
          (λ tx_hash l.
            (t : Log) → IsRead block.header_hash tx_hash height l t → Passes t → InBloom block)
          block.header.receipts
