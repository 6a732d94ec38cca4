-- ===== src/Ledger/Branch/Invariant.antt =====
-- ledger/mod.rs: the block in process, its transactions, their hashes and their receipts.
use ovr.Prelude.{
  ℕ, zero, suc, ◌+◌, ◌≡◌, refl, true, false, none, some, List, [], ◌∷◌, ◌++◌, ◌⊎◌, ok, err, length,
  get_elem?, length-append, arith, Option-cases, inl, inr,
}
use ovr.Primitives.{HashValue}
use ovr.BTree.{get, insert}
use ovr.BTree.Keys.{same, bytes_key}
use ovr.BTree.Laws.{get-insert}
use ovr.Vsdb.{VsVersion}
use ovr.Ethvm.Tx.Exec as Exec
use ovr.Ledger.Receipt.{Receipt, add_logs}
use ovr.Ledger.Block.{Tx, evm_tx, native_tx, LedgerCrates, tx_hash_of, new_block}
use ovr.Ledger.Branch.{
  Shared, StateBranch, next_block, prepare_next_block, update_evm_aux, update_vicinity,
}
use ovr.Ledger.Branch.OnTop.{OnTop, next_block-OnTop}
use ovr.Ledger.Branch.Apply.{
  Ret, evm_state, apply_native, apply_tx, apply_versioned, record_tx, push_tx, refuse_tx,
}

get_elem?-append :
    (xs : List HashValue) (y : HashValue) → get_elem? (xs ++ (y ∷ [])) (length xs) ≡ some y
get_elem?-append [] y = refl
get_elem?-append (x ∷ xs) y = get_elem?-append xs y

get_elem?-grow :
    (xs ys : List HashValue) (i : ℕ) (x : HashValue)
    → get_elem? xs i ≡ some x
    → get_elem? (xs ++ ys) i ≡ some x
get_elem?-grow [] ys i x h = cc
get_elem?-grow (z ∷ xs) ys zero x h = h
get_elem?-grow (z ∷ xs) ys (suc i) x h = get_elem?-grow xs ys i x h

same_eq : (p q : HashValue) → same p q ≡ true → p ≡ q
same_eq p q h = ground (arith, bytes_key.eq_of_cmp p q)

none-some : {A : Type 0} {a : A} → none ≡ some a → ⊥
none-some h = cc

module _ (c : LedgerCrates) where
  -- The block and the list of hashes are in step, and each receipt stands under the hash of its
  -- transaction and gives its position.
  pub record IsConsistent (sb : StateBranch c) : Type 0 where
    pub in_step : length sb.block_in_process.txs ≡ length sb.tx_hashes_in_process
    pub hashed :
        (h : HashValue) (r : Receipt)
        → get h sb.block_in_process.header.receipts ≡ some r
        → r.tx_hash ≡ h
    pub placed :
        (h : HashValue) (r : Receipt)
        → get h sb.block_in_process.header.receipts ≡ some r
        → get_elem? sb.tx_hashes_in_process r.tx_index ≡ some h

  push_tx-IsConsistent :
      (tx : Tx) (hash : HashValue) (sb : StateBranch c)
      → IsConsistent sb
      → IsConsistent (push_tx c tx hash sb)
  push_tx-IsConsistent tx hash sb h = record {
    in_step = grind (
      arith,
      length-append sb.block_in_process.txs (tx ∷ []),
      length-append sb.tx_hashes_in_process (hash ∷ []),
      h.in_step,
    );
    hashed = h.hashed;
    placed = λ q r e. get_elem?-grow sb.tx_hashes_in_process _ r.tx_index q (h.placed q r e);
  }

  abbrev with_receipt : HashValue → Receipt → StateBranch c → StateBranch c
  with_receipt hash r sb =
      let block = sb.block_in_process in
      let header = record block.header { receipts = insert hash r block.header.receipts } in
      record sb { block_in_process = record block { header = header } }

  with_receipt-IsConsistent :
      (hash : HashValue) (r : Receipt) (sb : StateBranch c)
      → IsConsistent sb
      → r.tx_hash ≡ hash
      → get_elem? sb.tx_hashes_in_process r.tx_index ≡ some hash
      → IsConsistent (with_receipt hash r sb)
  with_receipt-IsConsistent hash r sb k e i = record {
    in_step = k.in_step;
    hashed = λ q r' e'. ground (
      arith,
      get-insert q hash r sb.block_in_process.header.receipts,
      same_eq q hash,
      k.hashed q r',
    );
    placed = λ q r' e'. ground (
      arith,
      get-insert q hash r sb.block_in_process.header.receipts,
      same_eq q hash,
      k.placed q r',
    );
  }

  record_tx-IsConsistent :
      (tx : Tx) (ret : Ret c) (receipt : Receipt) (sb : StateBranch c)
      → IsConsistent sb
      → IsConsistent (record_tx c tx ret receipt sb)
  unfolding record_tx add_logs
  record_tx-IsConsistent tx ret receipt sb h =
      let hash = tx_hash_of c tx in
      with_receipt-IsConsistent hash _ (push_tx c tx hash sb) (push_tx-IsConsistent tx hash sb h)
        refl (get_elem?-append sb.tx_hashes_in_process hash)

  -- What becomes of the block: nothing, or the transaction joins it.
  abbrev pub Ends : Tx → StateBranch c → StateBranch c → Type 0
  Ends tx sb sb' =
      (sb' ≡ sb) ⊎ ((ret : Ret c) × (receipt : Receipt) × (sb' ≡ record_tx c tx ret receipt sb))

  apply_versioned-Ends :
      (tx : Tx) (w w' : Shared c) (sb sb' : StateBranch c) (r : _)
      → apply_versioned c tx w sb ≡ some (r, w', sb')
      → Ends tx sb sb'
  unfolding apply_versioned apply_native refuse_tx
  apply_versioned-Ends (native_tx tx) w w' sb sb' r h = inl (ground arith)
  apply_versioned-Ends (evm_tx tx) w w' sb sb' r h =
      elim (Option-cases (Exec.apply c.crates tx (evm_state c w sb) sb.branch false)) [
        | inl panic ↦ absurd (ground (arith, panic))
        | inr ((err e, st), applied) ↦ inl (ground (arith, applied))
        | inr ((ok (ret, receipt), st), applied) ↦ inr (ret, receipt, ground (arith, applied))
      ]

  pub apply_tx-Ends :
      (tx : Tx) (w w' : Shared c) (sb sb' : StateBranch c) (r : _)
      → apply_tx c tx (w, sb) ≡ some (r, w', sb')
      → Ends tx sb sb'
  unfolding apply_tx
  apply_tx-Ends tx w w' sb sb' r h =
      let ver : VsVersion = record {
        block_height = sb.block_in_process.header.height;
        tx_position = 1 + length sb.tx_hashes_in_process;
      } in
      elim (Option-cases (c.crates.db.version_create (c.encode_version ver) sb.branch w.store)) [
        | inl none' ↦ inl (ground (arith, none'))
        | inr (s, created) ↦
            apply_versioned-Ends tx (record w { store = s }) w' sb sb' r (ground (arith, created))
      ]

  -- Whatever comes of a transaction, where `apply_tx` does not panic: a block in process with
  -- as many transactions as hashes, and with receipts that stand under the hash of their
  -- transaction and give its position in the list of hashes, stays such a block.
  pub apply_tx-IsConsistent :
      (tx : Tx) (w w' : Shared c) (sb sb' : StateBranch c) (r : _)
      → IsConsistent sb
      → apply_tx c tx (w, sb) ≡ some (r, w', sb')
      → IsConsistent sb'
  apply_tx-IsConsistent tx w w' sb sb' r h e = elim (apply_tx-Ends tx w w' sb sb' r e) [
    | inl same ↦ rw same h
    | inr (ret, receipt, joined) ↦ rw joined (record_tx-IsConsistent tx ret receipt sb h)
  ]

  -- What a prepared branch holds.
  pub prepare_next_block_lem :
      (proposer : List ℕ) (timestamp : ℕ) (w w' : Shared c) (sb sb' : StateBranch c)
      → prepare_next_block c proposer timestamp (w, sb) ≡ some (ok (w', sb'))
      → (sb'.block_in_process ≡ next_block c w proposer timestamp)
        × (sb'.tx_hashes_in_process ≡ [])
        × (w'.blocks ≡ w.blocks)
  unfolding prepare_next_block update_evm_aux update_vicinity next_block new_block
  prepare_next_block_lem proposer timestamp w w' sb sb' e =
      (ground arith, ground arith, ground arith)

  -- A branch whose next block is prepared holds an empty block, of the proposer and the time that
  -- are given, on top of the last one stored, at the next height and with its hash, or at the
  -- height 1 and without a hash where none is stored; no transaction is hashed yet, and its
  -- transactions, hashes and receipts agree.
  pub prepare_next_block-IsConsistent :
      (proposer : List ℕ) (timestamp : ℕ) (w w' : Shared c) (sb sb' : StateBranch c)
      → prepare_next_block c proposer timestamp (w, sb) ≡ some (ok (w', sb'))
      → IsConsistent sb'
        × OnTop c w proposer timestamp sb'.block_in_process
        × (sb'.tx_hashes_in_process ≡ [])
  unfolding next_block new_block get
  prepare_next_block-IsConsistent proposer timestamp w w' sb sb' e =
      let (b, h, _) = prepare_next_block_lem proposer timestamp w w' sb sb' e in
      (
        record {
          in_step = rw (b, h) refl;
          hashed = λ q r f. absurd (none-some {a = r} (rw b at f));
          placed = λ q r f. absurd (none-some {a = r} (rw b at f));
        },
        rw b (next_block-OnTop c w proposer timestamp),
        h,
      )
