-- ===== src/Ledger/Branch/Joined.antt =====
-- ledger/mod.rs: what `apply_tx` records of a transaction of the EVM that succeeds.
use mathlib.Core.Path.{subst}
use ovr.Prelude.{
  sym, ℕ, zero, suc, ◌+◌, ◌≡◌, refl, ◌∙◌, true, false, some, List, [], ◌∷◌, ◌++◌, ok, err, length,
  get_elem?, arith, Option-cases, inl, inr,
}
use ovr.Primitives.{HashValue}
use ovr.BTree.{get}
use ovr.BTree.Keys.{same, bytes_key}
use ovr.BTree.Laws.{get-insert}
use ovr.Evm as Evm
use ovr.Vsdb.{VsVersion}
use ovr.Ethvm.Backend.Changes.{same_refl}
use ovr.Ethvm.Tx.{TransactionAny, ledger_logs, gen_logs, gen_receipt}
use ovr.Ethvm.Tx.Exec as Exec
use ovr.Ledger.Receipt.{Log, Receipt, add_logs, number_logs}
use ovr.Ledger.Block.{Tx, evm_tx, LedgerCrates, tx_hash_of}
use ovr.Ledger.Branch.{Shared, StateBranch}
use ovr.Ledger.Branch.Apply.{Ret, apply_tx, apply_versioned, record_tx, refuse_tx, evm_state}

-- A log of the transaction `hash`, at a position.
pub record IsLogOf (hash : HashValue) (index : ℕ) (log : Log) : Type 0 where
  pub its_hash : log.tx_hash ≡ hash
  pub in_tx : log.log_index_in_tx ≡ index
  pub no_tx_index : log.tx_index ≡ 0

number_logs-IsLogOf :
    (hash : HashValue) (start i : ℕ) (logs : List Evm.Log) (log : Log)
    → get_elem? (number_logs 0 start (ledger_logs hash logs)) i ≡ some log
    → IsLogOf hash (start + i) log
unfolding number_logs
number_logs-IsLogOf hash start i [] log h = cc
number_logs-IsLogOf hash start zero (l ∷ ls) log h = record {
  its_hash = ground (arith, h);
  in_tx = ground (arith, h);
  no_tx_index = ground (arith, h);
}
number_logs-IsLogOf hash start (suc i) (l ∷ ls) log h =
    let k = number_logs-IsLogOf hash (start + 1) i ls log h in
    record { its_hash = k.its_hash; in_tx = k.in_tx ∙ (omega arith); no_tx_index = k.no_tx_index }

module _ (c : LedgerCrates) where
  open c use {crates}

  -- The transaction is the last one of the block, and its receipt is stored.
  pub record Joined (tx : Tx) (sb sb' : StateBranch c) : Type 0 where
    pub hashes : sb'.tx_hashes_in_process ≡ sb.tx_hashes_in_process ++ (tx_hash_of c tx ∷ [])
    pub txs : sb'.block_in_process.txs ≡ sb.block_in_process.txs ++ (tx ∷ [])
    pub receipt : Receipt
    pub stored : get (tx_hash_of c tx) sb'.block_in_process.header.receipts ≡ some receipt
    pub its_hash : receipt.tx_hash ≡ tx_hash_of c tx
    pub index : receipt.tx_index ≡ length sb.tx_hashes_in_process
    pub succeeded : receipt.status_code ≡ true
    pub logs :
        (i : ℕ) (log : Log) → get_elem? receipt.logs i ≡ some log → IsLogOf (tx_hash_of c tx) i log
    pub others :
        (q : HashValue)
        → same q (tx_hash_of c tx) ≡ false
        → get q sb'.block_in_process.header.receipts ≡ get q sb.block_in_process.header.receipts

  fresh_receipt :
      (tx : TransactionAny) (st st' : _) (b : HashValue) (ret : Ret c) (receipt : Receipt)
      → Exec.apply crates tx st b false ≡ some (ok (ret, receipt), st')
      → (receipt.tx_index ≡ 0) × (receipt.status_code ≡ true)
  unfolding Exec.apply gen_receipt
  fresh_receipt tx st st' b ret receipt h = (ground (arith, h), ground (arith, h))

  -- The receipt as it is stored.
  abbrev completed : Tx → Ret c → Receipt → StateBranch c → Receipt
  completed tx ret receipt sb =
      let hash = tx_hash_of c tx in
      record (add_logs (gen_logs ret hash) receipt) {
        tx_hash = hash;
        tx_index = length sb.tx_hashes_in_process;
      }

  record_tx-Joined :
      (tx : Tx) (ret : Ret c) (receipt : Receipt) (sb : StateBranch c)
      → receipt.tx_index ≡ 0
      → receipt.status_code ≡ true
      → Joined tx sb (record_tx c tx ret receipt sb)
  unfolding record_tx add_logs gen_logs
  record_tx-Joined tx ret receipt sb zero-index good =
      let hash = tx_hash_of c tx in
      let done = completed tx ret receipt sb in
      let rs = sb.block_in_process.header.receipts in
      record {
        hashes = refl;
        txs = refl;
        receipt = done;
        stored = get-insert hash hash done rs ∙ rw (same_refl hash) refl;
        its_hash = refl;
        index = refl;
        succeeded = good;
        logs = λ i log h.
            subst (λ n. IsLogOf hash n log) (omega arith)
              (number_logs-IsLogOf hash 0 i ret.logs log (
                subst (λ n. get_elem? (number_logs n 0 (ledger_logs hash ret.logs)) i ≡ some log)
                  zero-index h));
        others = λ q n. get-insert q hash done rs ∙ rw n refl;
      }

  apply_versioned-Joined :
      (tx : TransactionAny) (w w' : Shared c) (sb sb' : StateBranch c)
      → apply_versioned c (evm_tx tx) w sb ≡ some (ok tt, w', sb')
      → Joined (evm_tx tx) sb sb'
  unfolding apply_versioned refuse_tx
  apply_versioned-Joined tx w w' sb sb' h =
      elim (Option-cases (Exec.apply crates tx (evm_state c w sb) sb.branch false)) [
        | inl panic ↦ absurd (ground (arith, panic))
        | inr ((err e, st), applied) ↦ absurd (ground (arith, applied))
        | inr ((ok (ret, receipt), st), applied) ↦
            let (zero-index, good) =
              fresh_receipt tx (evm_state c w sb) st sb.branch ret receipt applied in
            let e : sb' ≡ record_tx c (evm_tx tx) ret receipt sb = ground (arith, applied) in
            subst (Joined (evm_tx tx) sb) (sym e)
              (record_tx-Joined (evm_tx tx) ret receipt sb zero-index good)
      ]

  -- A transaction of the EVM that `apply_tx` accepts is the last of its block, in the list of
  -- transactions and in that of the hashes; a receipt of a success is stored under its hash, with
  -- its position, and the logs of the receipt are numbered from 0 on and carry the hash, but all
  -- of them have 0 for the position of the transaction; the other receipts stay.
  pub apply_tx-Joined :
      (tx : TransactionAny) (w w' : Shared c) (sb sb' : StateBranch c)
      → apply_tx c (evm_tx tx) (w, sb) ≡ some (ok tt, w', sb')
      → Joined (evm_tx tx) sb sb'
  unfolding apply_tx
  apply_tx-Joined tx w w' sb sb' h =
      let ver : VsVersion = record {
        block_height = sb.block_in_process.header.height;
        tx_position = 1 + length sb.tx_hashes_in_process;
      } in
      elim (Option-cases (crates.db.version_create (c.encode_version ver) sb.branch w.store)) [
        | inl refused ↦ absurd (ground (arith, refused))
        | inr (s, created) ↦
            apply_versioned-Joined tx (record w { store = s }) w' sb sb' (ground (arith, created))
      ]
