-- ===== src/Rpc/Transactions/Last.antt =====
-- rpc/eth.rs: which receipt a query by hash shows.
use mathlib.Core.Path.{subst}
use ovr.Prelude.{
  ◌≡◌, refl, sym, Option, none, some, List, [], ◌∷◌, ◌⊎◌, inl, inr, All, arith, Option-cases,
}
use ovr.Primitives.{H256, BlockHeight}
use ovr.BTree.{get}
use ovr.BTree.Keys.{bytes_key}
use ovr.Ledger.Block.{Block, LedgerCrates, block_hash_to_evm_format}
use ovr.Ledger.Heights.{bytes_of}
use ovr.Ledger.Receipt as Ledger
use ovr.Rpc.{EthApiImpl}
use ovr.Rpc.Transactions.ShownLogs.{ShownLogs, web3_logs-ShownLogs}
use ovr.Rpc.Transactions.{StoredBlock, Receipt, web3_receipt, receipt_from, transaction_receipt}

module _ (c : LedgerCrates) where
  open c use {MerkleTreeStore, blocks}

  -- The hash of a stored block has the length that the queries ask for.
  abbrev pub Readable : StoredBlock c → Type 0
  Readable e = (hash : H256) × (block_hash_to_evm_format e.1.header_hash ≡ some hash)

  abbrev pub Missing : H256 → StoredBlock c → Type 0
  Missing wanted e = get (bytes_of 32 wanted) e.1.header.receipts ≡ none

  -- The receipt of this hash in the last block that has one.
  pub data LastIn (wanted : H256)
      : List (StoredBlock c) → BlockHeight → Block MerkleTreeStore → Ledger.Receipt → Type 0 where
    here :
        (h : BlockHeight) (b : Block MerkleTreeStore) (rest : List (StoredBlock c))
        (r : Ledger.Receipt)
        → get (bytes_of 32 wanted) b.header.receipts ≡ some r
        → All (Missing wanted) rest
        → LastIn wanted ((h, b) ∷ rest) h b r
    there :
        (e : StoredBlock c) (rest : List (StoredBlock c)) (h : BlockHeight)
        (b : Block MerkleTreeStore) (r : Ledger.Receipt)
        → LastIn wanted rest h b r
        → LastIn wanted (e ∷ rest) h b r

  -- What a receipt of a block is shown as.
  pub record IsShownReceipt (wanted : H256) (h : BlockHeight) (b : Block MerkleTreeStore)
      (r : Ledger.Receipt) (t : Receipt) : Type 0 where
    pub hash : H256
    pub its_hash : block_hash_to_evm_format b.header_hash ≡ some hash
    pub block_hash : t.block_hash ≡ some hash
    pub transaction_hash : t.transaction_hash ≡ some wanted
    pub block_number : t.block_number ≡ some h
    pub transaction_index : t.transaction_index ≡ some r.tx_index
    pub gas_used : t.gas_used ≡ some r.tx_gas_used
    pub cumulative_gas_used : t.cumulative_gas_used ≡ r.block_gas_used
    pub contract_address : t.contract_address ≡ r.contract_addr
    pub logs : ShownLogs hash wanted h r.logs t.logs

  -- The answer over these blocks.
  pub data Found (wanted : H256) (entries : List (StoredBlock c)) : Option Receipt → Type 0 where
    found :
        (h : BlockHeight) (b : Block MerkleTreeStore) (r : Ledger.Receipt) (t : Receipt)
        → LastIn wanted entries h b r
        → IsShownReceipt wanted h b r t
        → Found wanted entries (some t)
    absent : All (Missing wanted) entries → Found wanted entries none

  -- The loop, from what was found before.
  abbrev After : H256 → Option Receipt → List (StoredBlock c) → Option Receipt → Type 0
  After wanted before entries op =
      ((h : BlockHeight) × (b : Block MerkleTreeStore) × (r : Ledger.Receipt) × (t : Receipt) × (op
          ≡ some t)
        × LastIn wanted entries h b r
        × IsShownReceipt wanted h b r t)
      ⊎ ((op ≡ before) × All (Missing wanted) entries)

  receipt_from-After :
      (wanted : H256) (before : Option Receipt) (entries : List (StoredBlock c))
      → All Readable entries
      → (op : Option Receipt) × (receipt_from c wanted before entries ≡ some op)
        × After wanted before entries op
  unfolding receipt_from
  receipt_from-After wanted before [] all = (before, refl, inr (refl, tt))
  receipt_from-After wanted before ((h, b) ∷ rest) ((hash, its), all) =
      elim (Option-cases (get (bytes_of 32 wanted) b.header.receipts)) [
        | inl missing ↦
            let (op, e, after) = receipt_from-After wanted before rest all in
            (
              op,
              ground (arith, its, missing, e),
              elim after [
                | inl (k, a, r, t, same, last, shown) ↦
                    inl (k, a, r, t, same, there (h, b) rest k a r last, shown)
                | inr (same, none-there) ↦ inr (same, (missing, none-there))
              ],
            )
        | inr (r, is) ↦
            let t = web3_receipt hash wanted h r in
            let its_shown : IsShownReceipt wanted h b r t = record {
              hash = hash;
              its_hash = its;
              block_hash = refl;
              transaction_hash = refl;
              block_number = refl;
              transaction_index = refl;
              gas_used = refl;
              cumulative_gas_used = refl;
              contract_address = refl;
              logs = web3_logs-ShownLogs hash wanted h r.logs;
            } in
            let (op, e, after) = receipt_from-After wanted (some t) rest all in
            (
              op,
              ground (arith, its, is, e),
              elim after [
                | inl (k, a, r', t', same, last, shown) ↦
                    inl (k, a, r', t', same, there (h, b) rest k a r' last, shown)
                | inr (same, none-there) ↦
                    inl (h, b, r, t, same, here h b rest r is none-there, its_shown)
              ],
            )
      ]

  -- Over stored blocks whose hashes have the length that a query asks for, the query of a receipt
  -- never panics, and shows the receipt of this hash in the last of the blocks that has one, with
  -- the height and the hash of this block, the gas, the contract and all the logs of the receipt, in
  -- order and each with all its fields;
  -- it shows none only where no block has a receipt of this hash.
  pub transaction_receipt-Found :
      (wanted : H256) (api : EthApiImpl c)
      → All Readable (blocks.entries api.shared.blocks)
      → (op : Option Receipt) × (transaction_receipt c wanted api ≡ some op)
        × Found wanted (blocks.entries api.shared.blocks) op
  unfolding transaction_receipt
  transaction_receipt-Found wanted api all =
      let entries = blocks.entries api.shared.blocks in
      let (op, e, after) = receipt_from-After wanted none entries all in
      (
        op,
        e,
        elim after [
          | inl (h, b, r, t, same, last, shown) ↦
              subst (Found wanted entries) (sym same) (found h b r t last shown)
          | inr (same, missing) ↦ subst (Found wanted entries) (sym same) (absent missing)
        ],
      )
