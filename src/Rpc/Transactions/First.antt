-- ===== src/Rpc/Transactions/First.antt =====
-- rpc/eth.rs, rpc/utils.rs: which transaction a query by hash shows.
use ovr.Prelude.{
  ℕ, suc, ◌+◌, ◌≡◌, refl, true, false, Option, none, some, List, [], ◌∷◌, ◌⊎◌, inl, inr, ok, All,
  arith, Option-cases, Bool-cases, bind_some,
}
use ovr.Primitives.{H256, BlockHeight}
use ovr.BTree.Keys.{same, bytes_key}
use ovr.Ethvm.Tx.{TransactionAny}
use ovr.Ethvm.Tx.Checks.{get_from_to}
use ovr.Ledger.Block.{Tx, evm_tx, native_tx, NativeTx, Block, LedgerCrates, tx_hash_of}
use ovr.Ledger.Heights.{bytes_of}
use ovr.BTree.{get}
use ovr.Ledger.Receipt.{Receipt}
use ovr.Rpc.{EthApiImpl, from_slice}
use ovr.Rpc.Web3.{Transaction, tx_to_web3_tx, shown}
use ovr.Rpc.Transactions.{StoredBlock, find_tx, find_in_blocks, transaction_by_hash}

module _ (c : LedgerCrates) where
  open c use {crates, MerkleTreeStore, blocks}

  -- No transaction of the list has this hash.
  abbrev pub Absent : H256 → List Tx → Type 0
  Absent wanted txs = All (λ tx. same (tx_hash_of c tx) (bytes_of 32 wanted) ≡ false) txs

  -- The transaction is the first of this hash, with so many before it.
  pub data FirstTx (wanted : H256) : List Tx → ℕ → Tx → Type 0 where
    here :
        (tx : Tx) (txs : List Tx)
        → same (tx_hash_of c tx) (bytes_of 32 wanted) ≡ true
        → FirstTx wanted (tx ∷ txs) 0 tx
    there :
        (other tx : Tx) (txs : List Tx) (i : ℕ)
        → same (tx_hash_of c other) (bytes_of 32 wanted) ≡ false
        → FirstTx wanted txs i tx
        → FirstTx wanted (other ∷ txs) (suc i) tx

  -- The same over the transactions of the blocks, in their order.
  pub data FirstIn (wanted : H256)
      : List (StoredBlock c) → BlockHeight → Block MerkleTreeStore → ℕ → Tx → Type 0 where
    in_block :
        (h : BlockHeight) (b : Block MerkleTreeStore) (rest : List (StoredBlock c)) (i : ℕ)
        (tx : Tx)
        → FirstTx wanted b.txs i tx
        → FirstIn wanted ((h, b) ∷ rest) h b i tx
    later :
        (k h : BlockHeight) (a b : Block MerkleTreeStore) (rest : List (StoredBlock c)) (i : ℕ)
        (tx : Tx)
        → Absent wanted a.txs
        → FirstIn wanted rest h b i tx
        → FirstIn wanted ((k, a) ∷ rest) h b i tx

  find_tx-FirstTx :
      (wanted : H256) (start : ℕ) (txs : List Tx)
      → ((find_tx c wanted start txs ≡ none) × Absent wanted txs)
        ⊎ ((i : ℕ) × (tx : Tx) × (find_tx c wanted start txs ≡ some (start + i, tx))
            × FirstTx wanted txs i tx)
  unfolding find_tx
  find_tx-FirstTx wanted start [] = inl (refl, tt)
  find_tx-FirstTx wanted start (tx ∷ txs) =
      elim (Bool-cases (same (tx_hash_of c tx) (bytes_of 32 wanted))) [
        | inl its ↦ inr (0, tx, ground (arith, its), here tx txs its)
        | inr not-its ↦ elim (find_tx-FirstTx wanted (suc start) txs) [
          | inl (e, absent) ↦ inl (rw not-its e, (not-its, absent))
          | inr (i, found, e, f) ↦
              inr (suc i, found, ground (arith, not-its, e), there tx found txs i not-its f)
        ]
      ]

  -- What a transaction of the EVM is shown as, at its place in a block.
  pub record IsShownAs (block : Block MerkleTreeStore) (height : BlockHeight) (index : ℕ)
      (tx : TransactionAny) (t : Transaction) : Type 0 where
    pub block_number : t.block_number ≡ some height
    pub transaction_index : t.transaction_index ≡ some index
    pub hash : from_slice 32 (tx_hash_of c (evm_tx tx)) ≡ some t.hash
    pub block_hash : from_slice 32 block.header_hash ≡ t.block_hash
    pub sender : (get_from_to crates tx).0 ≡ some t.from
    pub receipt : Receipt
    pub stored : get (tx_hash_of c (evm_tx tx)) block.header.receipts ≡ some receipt
    pub creates : t.creates ≡ receipt.contract_addr

  -- The answer to a query by this hash over these blocks.
  pub data Found (wanted : H256) (entries : List (StoredBlock c))
      : Option Transaction → Type 0 where
    found :
        (height : BlockHeight) (block : Block MerkleTreeStore) (index : ℕ) (tx : TransactionAny)
        (t : Transaction)
        → FirstIn wanted entries height block index (evm_tx tx)
        → IsShownAs block height index tx t
        → Found wanted entries (some t)
    native :
        (height : BlockHeight) (block : Block MerkleTreeStore) (index : ℕ) (tx : NativeTx)
        → FirstIn wanted entries height block index (native_tx tx)
        → Found wanted entries none
    absent : All (λ e. Absent wanted e.1.txs) entries → Found wanted entries none

  pub evm-IsShownAs :
      (tx : TransactionAny) (block : Block MerkleTreeStore) (height : BlockHeight)
      (index chain_id : ℕ) (op : Option Transaction)
      → tx_to_web3_tx c (evm_tx tx) block height index chain_id ≡ some (ok op)
      → (t : Transaction) × (op ≡ some t) × IsShownAs block height index tx t
  unfolding tx_to_web3_tx
  evm-IsShownAs tx block height index chain_id op h =
      elim (Option-cases ((get_from_to crates tx).0)) [
        | inl none' ↦ absurd (ground (arith, none'))
        | inr (from, e) ↦
            elim (Option-cases (get (tx_hash_of c (evm_tx tx)) block.header.receipts)) [
              | inl none' ↦ absurd (ground (arith, e, none'))
              | inr (receipt, f) ↦ elim (Option-cases (from_slice 32 (tx_hash_of c (evm_tx tx)))) [
                | inl panic ↦ absurd (ground (arith, e, f, panic))
                | inr (hash, g) ↦ elim (Option-cases (from_slice 32 block.header_hash)) [
                  | inl panic ↦ absurd (ground (arith, e, f, g, panic))
                  | inr (block_hash, k) ↦ (
                    shown c tx hash block_hash height index chain_id from receipt,
                    ground (arith, e, f, g, k),
                    record {
                      block_number = refl;
                      transaction_index = refl;
                      hash = g;
                      block_hash = k;
                      sender = e;
                      receipt = receipt;
                      stored = f;
                      creates = refl;
                    },
                  )
                ]
              ]
            ]
      ]

  web3_tx-Found :
      (wanted : H256) (tx : Tx) (height : BlockHeight) (block : Block MerkleTreeStore)
      (index chain_id : ℕ) (entries : List (StoredBlock c)) (op : Option Transaction)
      → FirstIn wanted entries height block index tx
      → tx_to_web3_tx c tx block height index chain_id ≡ some (ok op)
      → Found wanted entries op
  unfolding tx_to_web3_tx
  web3_tx-Found wanted (native_tx tx) height block index chain_id entries op first h =
      let e : op ≡ none = ground arith in rw e (native height block index tx first)
  web3_tx-Found wanted (evm_tx tx) height block index chain_id entries op first h =
      let (t, e, s) = evm-IsShownAs tx block height index chain_id op h in
      rw e (found height block index tx t first s)

  Found-later :
      (wanted : H256) (k : BlockHeight) (a : Block MerkleTreeStore) (rest : List (StoredBlock c))
      (op : Option Transaction)
      → Absent wanted a.txs
      → Found wanted rest op
      → Found wanted ((k, a) ∷ rest) op
  Found-later wanted k a rest _ none-here (found height block index tx t first s) =
      found height block index tx t (later k height a block rest index (evm_tx tx) none-here first)
        s
  Found-later wanted k a rest _ none-here (native height block index tx first) =
      native height block index tx
        (later k height a block rest index (native_tx tx) none-here first)
  Found-later wanted k a rest _ none-here (absent all) = absent (none-here, all)

  find_in_blocks-Found :
      (wanted : H256) (chain_id : Option ℕ) (entries : List (StoredBlock c))
      (op : Option Transaction)
      → find_in_blocks c wanted chain_id entries ≡ some (ok op)
      → Found wanted entries op
  unfolding find_in_blocks
  find_in_blocks-Found wanted chain_id [] op h =
      let e : op ≡ none = ground arith in rw e (absent tt)
  find_in_blocks-Found wanted chain_id ((k, a) ∷ rest) op h =
      elim (find_tx-FirstTx wanted 0 a.txs) [
        | inl (e, none-here) ↦
            Found-later wanted k a rest op none-here
              (find_in_blocks-Found wanted chain_id rest op (ground (arith, e)))
        | inr (i, tx, e, first) ↦
            let (id, ids, shown) =
              bind_some chain_id (tx_to_web3_tx c tx a k i) (ok op) (ground (arith, e)) in
            web3_tx-Found wanted tx k a i id ((k, a) ∷ rest) op (in_block k a rest i tx first) shown
      ]

  -- Where a query by hash answers, it shows the first transaction of this hash in the order of the
  -- stored blocks, with its height, its position, its own hash and that of its block, its signer
  -- and the contract of its receipt; it shows none only where the first such transaction is a
  -- native one, or where no block has one.
  pub transaction_by_hash-Found :
      (wanted : H256) (api : EthApiImpl c) (op : Option Transaction)
      → transaction_by_hash c wanted api ≡ some (ok op)
      → Found wanted (blocks.entries api.shared.blocks) op
  unfolding transaction_by_hash
  transaction_by_hash-Found wanted api op h = find_in_blocks-Found wanted _ _ op h
