-- ===== src/Rpc/Web3.antt =====
-- rpc/utils.rs: how a transaction of a block is shown. The types are those of the web3 crate,
-- without the fields that the program always fills with a default.
use ovr.Prelude.{
  ℕ, suc, ◌-◌, ◌*◌, Option, none, some, List, [], ◌∷◌, Result, ok, err, ltb, if◌then◌else◌, ◌>>=◌,
}
use ovr.Primitives.{H160, H256, U256, Bytes, BlockHeight, u256_mod}
use ovr.BTree.{get}
use ovr.BTree.Keys.{bytes_key}
use ovr.Ethvm.Tx.{TransactionAny, get_tx_common_properties}
use ovr.Ethvm.Tx.Checks.{get_from_to, recover_pubkey}
use ovr.Ledger.Receipt.{Receipt}
use ovr.Ledger.Block.{Tx, evm_tx, native_tx, Block, LedgerCrates, tx_hash_of}
use ovr.Rpc.{RpcError, no_originator, no_receipt, from_slice}

-- `web3_rpc_core::types::Transaction`
pub record Transaction : Type 0 where
  pub hash : H256
  pub nonce : U256
  pub block_hash : Option H256
  pub block_number : Option U256
  pub transaction_index : Option U256
  pub from : H160
  pub to : Option H160
  pub value : U256
  pub gas_price : U256
  pub gas : U256
  pub input : Bytes
  pub creates : Option H160
  pub raw : Bytes
  pub public_key : Option Bytes
  pub chain_id : Option ℕ
  pub standard_v : U256
  pub v : U256
  pub r : U256
  pub s : U256

abbrev saturating_mul : U256 → U256 → U256
saturating_mul a b = if ltb (a * b) u256_mod then a * b else u256_mod - 1

module _ (c : LedgerCrates) where
  open c use {crates, MerkleTreeStore, encode_tx}

  -- The fields of a transaction whose sender and receipt are known.
  abbrev pub shown :
      TransactionAny
      → (tx_hash block_hash : H256) → BlockHeight
      → (index chain_id : ℕ) → (from : H160) → Receipt
      → Transaction
  shown tx tx_hash block_hash height index chain_id from receipt =
      let p = get_tx_common_properties tx in
      record {
        hash = tx_hash;
        nonce = p.nonce;
        block_hash = some block_hash;
        block_number = some height;
        transaction_index = some index;
        from = from;
        to = (get_from_to crates tx).1;
        value = p.value;
        gas_price = p.gas_price;
        gas = saturating_mul p.gas_limit p.gas_price;
        input = p.input;
        creates = receipt.contract_addr;
        raw = encode_tx (evm_tx tx);
        public_key = recover_pubkey crates tx;
        chain_id = some chain_id;
        standard_v = p.v;
        v = p.v;
        r = p.r;
        s = p.s;
      }

  -- A native transaction is not shown.
  unfoldable pub tx_to_web3_tx :
      Tx
      → Block MerkleTreeStore
      → BlockHeight
      → (index chain_id : ℕ) → Option (Result (Option Transaction) RpcError)
  unfolding get_tx_common_properties get_from_to recover_pubkey tx_hash_of
  tx_to_web3_tx (native_tx tx) block height index chain_id = some (ok none)
  tx_to_web3_tx (evm_tx tx) block height index chain_id = elim ((get_from_to crates tx).0) [
    | none ↦ some (err no_originator)
    | some from ↦ elim (get (tx_hash_of c (evm_tx tx)) block.header.receipts) [
      | none ↦ some (err no_receipt)
      | some receipt ↦ do
        hash ← from_slice 32 (tx_hash_of c (evm_tx tx))
        block_hash ← from_slice 32 block.header_hash
        some (ok (some (shown tx hash block_hash height index chain_id from receipt)))
    ]
  ]

  abbrev pub push :
      Option Transaction → Result (List Transaction) RpcError → Result (List Transaction) RpcError
  push none r = r
  push (some t) (ok ts) = ok (t ∷ ts)
  push (some t) (err e) = err e

  -- The loop over the transactions, from the position `index` on; it stops at the first error.
  unfoldable pub txs_from :
      Block MerkleTreeStore
      → (chain_id : ℕ) → BlockHeight
      → (index : ℕ) → List Tx
      → Option (Result (List Transaction) RpcError)
  unfolding tx_to_web3_tx
  txs_from block chain_id height index [] = some (ok [])
  txs_from block chain_id height index (tx ∷ txs) =
      let rest = txs_from block chain_id height (suc index) txs in
      elim (tx_to_web3_tx tx block height index chain_id) [
        | none ↦ none
        | some (err e) ↦ some (err e)
        | some (ok op) ↦ do ts ← rest; some (push op ts)
      ]

  abbrev pub txs_to_web3_txs :
      Block MerkleTreeStore
      → (chain_id : ℕ) → BlockHeight
      → Option (Result (List Transaction) RpcError)
  txs_to_web3_txs block chain_id height = txs_from block chain_id height 0 block.txs
