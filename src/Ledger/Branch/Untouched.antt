-- ===== src/Ledger/Branch/Untouched.antt =====
-- ledger/mod.rs: what no transaction changes.
use ovr.Prelude.{◌+◌, ◌≡◌, refl, false, some, length, ok, err, arith, Option-cases, inl, inr}
use ovr.Vsdb.{VsVersion}
use ovr.Ethvm.Tx.Exec as Exec
use ovr.Ledger.Block.{Tx, evm_tx, native_tx, LedgerCrates}
use ovr.Ledger.Branch.{Shared, StateBranch}
use ovr.Ledger.Branch.Apply.{
  apply_tx, apply_versioned, apply_native, refuse_tx, record_tx, evm_state,
}
use ovr.Ledger.Branch.Invariant.{IsConsistent, apply_tx-IsConsistent, Ends, apply_tx-Ends}

module _ (c : LedgerCrates) where
  open c use {crates}

  -- Transactions leave the stored blocks alone.
  apply_versioned-blocks :
      (tx : Tx) (w w' : Shared c) (sb sb' : StateBranch c) (r : _)
      → apply_versioned c tx w sb ≡ some (r, w', sb')
      → w'.blocks ≡ w.blocks
  unfolding apply_versioned apply_native refuse_tx
  apply_versioned-blocks (native_tx tx) w w' sb sb' r h = ground arith
  apply_versioned-blocks (evm_tx tx) w w' sb sb' r h =
      elim (Option-cases (Exec.apply crates tx (evm_state c w sb) sb.branch false)) [
        | inl panic ↦ absurd (ground (arith, panic))
        | inr ((err e, st), applied) ↦ ground (arith, applied)
        | inr ((ok (ret, receipt), st), applied) ↦ ground (arith, applied)
      ]

  pub apply_tx-blocks :
      (tx : Tx) (w w' : Shared c) (sb sb' : StateBranch c) (r : _)
      → apply_tx c tx (w, sb) ≡ some (r, w', sb')
      → w'.blocks ≡ w.blocks
  unfolding apply_tx
  apply_tx-blocks tx w w' sb sb' r h =
      let ver : VsVersion = record {
        block_height = sb.block_in_process.header.height;
        tx_position = 1 + length sb.tx_hashes_in_process;
      } in
      elim (Option-cases (crates.db.version_create (c.encode_version ver) sb.branch w.store)) [
        | inl none' ↦ ground (arith, none')
        | inr (s, created) ↦
            apply_versioned-blocks tx (record w { store = s }) w' sb sb' r (ground (arith, created))
      ]

  Ends-header :
      (tx : Tx) (sb sb' : StateBranch c)
      → Ends c tx sb sb'
      → (sb'.block_in_process.header.height ≡ sb.block_in_process.header.height)
        × (sb'.block_in_process.header.prev_hash ≡ sb.block_in_process.header.prev_hash)
  unfolding record_tx
  Ends-header tx sb sb' (inl e) = rw e (refl, refl)
  Ends-header tx sb sb' (inr (ret, receipt, e)) = rw e (refl, refl)

  -- Whatever comes of a transaction, the stored blocks stay, and so do the height and the link of
  -- the block in process, which stays consistent.
  pub record Kept (w w' : Shared c) (sb sb' : StateBranch c) : Type 0 where
    pub blocks : w'.blocks ≡ w.blocks
    pub height : sb'.block_in_process.header.height ≡ sb.block_in_process.header.height
    pub link : sb'.block_in_process.header.prev_hash ≡ sb.block_in_process.header.prev_hash
    pub consistent : IsConsistent c sb'

  pub apply_tx-Kept :
      (tx : Tx) (w w' : Shared c) (sb sb' : StateBranch c) (r : _)
      → IsConsistent c sb
      → apply_tx c tx (w, sb) ≡ some (r, w', sb')
      → Kept w w' sb sb'
  apply_tx-Kept tx w w' sb sb' r h e =
      let (height, link) = Ends-header tx sb sb' (apply_tx-Ends c tx w w' sb sb' r e) in
      record {
        blocks = apply_tx-blocks tx w w' sb sb' r e;
        height = height;
        link = link;
        consistent = apply_tx-IsConsistent c tx w w' sb sb' r h e;
      }
