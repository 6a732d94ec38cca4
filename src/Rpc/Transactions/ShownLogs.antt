-- ===== src/Rpc/Transactions/ShownLogs.antt =====
-- rpc/eth.rs, rpc/utils.rs: how a log of a receipt is shown.
use ovr.Prelude.{◌≡◌, refl, some, List, [], ◌∷◌}
use ovr.Primitives.{H256, BlockHeight}
use ovr.Ledger.Receipt as Ledger
use ovr.Rpc.Transactions.{Log, web3_logs}

-- The fields of a shown log, in a block and of a transaction of these hashes.
pub record IsShownLog (block_hash hash : H256) (height : BlockHeight) (l : Ledger.Log) (t : Log)
    : Type 0 where
  pub address : t.address ≡ l.address
  pub topics : t.topics ≡ l.topics
  pub bytes : t.bytes ≡ l.bytes
  pub its_block : t.block_hash ≡ some block_hash
  pub block_number : t.block_number ≡ some height
  pub transaction_hash : t.transaction_hash ≡ some hash
  pub transaction_index : t.transaction_index ≡ some l.tx_index
  pub log_index : t.log_index ≡ some l.log_index_in_block
  pub transaction_log_index : t.transaction_log_index ≡ some l.log_index_in_tx

-- All logs of a list are shown, in order.
pub data ShownLogs (block_hash hash : H256) (height : BlockHeight)
    : List Ledger.Log → List Log → Type 0 where
  no_more : ShownLogs block_hash hash height [] []
  next :
      (l : Ledger.Log) (t : Log) (ls : List Ledger.Log) (ts : List Log)
      → IsShownLog block_hash hash height l t
      → ShownLogs block_hash hash height ls ts
      → ShownLogs block_hash hash height (l ∷ ls) (t ∷ ts)

pub web3_logs-ShownLogs :
    (block_hash hash : H256) (height : BlockHeight) (ls : List Ledger.Log)
    → ShownLogs block_hash hash height ls (web3_logs block_hash hash height ls)
web3_logs-ShownLogs block_hash hash height [] = no_more
web3_logs-ShownLogs block_hash hash height (l ∷ ls) =
    next l _ ls _
      (record {
        address = refl;
        topics = refl;
        bytes = refl;
        its_block = refl;
        block_number = refl;
        transaction_hash = refl;
        transaction_index = refl;
        log_index = refl;
        transaction_log_index = refl;
      })
      (web3_logs-ShownLogs block_hash hash height ls)
