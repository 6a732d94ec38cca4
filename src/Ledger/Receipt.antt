-- ===== src/Ledger/Receipt.antt =====
-- ledger/mod.rs: receipts and the logs in them.
use ovr.Prelude.{ℕ, ◌+◌, Bool, false, Option, List, [], ◌∷◌}
use ovr.Primitives.{H160, H256, U256, Bytes, HashValue}
use ovr.Evm as Evm

pub record Log : Type 0 where
  pub address : H160
  pub topics : List H256
  pub bytes : Bytes
  pub tx_hash : HashValue
  pub tx_index : ℕ
  pub log_index_in_block : ℕ
  pub log_index_in_tx : ℕ
  pub removed : Bool

abbrev pub new_from_eth_log_and_tx_hash : Evm.Log → HashValue → Log
new_from_eth_log_and_tx_hash log tx_hash = record {
  address = log.address;
  topics = log.topics;
  bytes = log.bytes;
  tx_hash = tx_hash;
  tx_index = 0;
  log_index_in_block = 0;
  log_index_in_tx = 0;
  removed = false;
}

pub record Receipt : Type 0 where
  pub tx_hash : HashValue
  pub tx_index : ℕ
  pub from : Option H160
  pub to : Option H160
  pub block_gas_used : U256
  pub tx_gas_used : U256
  pub contract_addr : Option H160
  pub state_root : Option HashValue
  pub status_code : Bool
  pub logs : List Log

-- The loop of `add_logs`, from the position `index` on.
unfoldable pub number_logs : ℕ → ℕ → List Log → List Log
number_logs tx_index index [] = []
number_logs tx_index index (log ∷ logs) =
    record log { tx_index = tx_index; log_index_in_tx = index }
    ∷ number_logs tx_index (index + 1) logs

unfoldable pub add_logs : List Log → Receipt → Receipt
unfolding number_logs
add_logs logs r = record r { logs = number_logs r.tx_index 0 logs }
