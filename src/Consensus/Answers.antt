-- ===== src/Consensus/Answers.antt =====
-- consensus/mod.rs, rpc/eth.rs: what is answered about the chain after a round.
use ovr.Prelude.{ℕ, ◌+◌, ◌≡◌, refl, sym, ap, ◌∙◌, true, some, ok, ltb, arith, if◌then◌else◌, []}
use ovr.Primitives.{Bytes, HashValue}
use ovr.Vsdb.{MapxOrdLaws}
use ovr.Ledger.Block.{Block, LedgerCrates}
use ovr.Ledger.Branch.{Shared, last_block}
use ovr.Ledger.Chain.{Ledger}
use ovr.Consensus.{AppCrates, commit, info}
use ovr.Consensus.Rounds.{idle, in_block, Run, top, IsSound}
use ovr.Consensus.Linked.{commit-Grown}
use ovr.Rpc.{EthApiImpl}
use ovr.Rpc.Accounts.{block_number}
use ovr.Ledger.Rollback.{Management}

module _ (c : LedgerCrates) (a : AppCrates c) (hash_laws : MapxOrdLaws c.crates.hashes)
    (block_laws : MapxOrdLaws c.blocks) where
  open c use {MerkleTreeStore, crates}

  above_zero : (n : ℕ) (x y : Bytes) → (if ltb 0 (1 + n) then x else y) ≡ x
  above_zero n x y = let e : ltb 0 (1 + n) ≡ true = ground arith in rw e refl

  block_number-last :
      (evm ledger : Management crates.db.Store) (api : EthApiImpl c) (w : Shared c) (height : ℕ)
      (block : Block c.MerkleTreeStore)
      → c.blocks.last w.blocks ≡ some (height, block)
      → api.shared ≡ w
      → block_number c evm ledger api ≡ ok height
  unfolding block_number
  block_number-last evm ledger api w height block e same =
      let e' = ap (λ (x : Shared c). c.blocks.last x.blocks) same ∙ e in rw (e', block_number) refl

  -- Over maps of blocks that do what their documentation says, and from a ledger between two
  -- blocks as the invariant of the rounds asks: after the commit of a block, Tendermint is told the
  -- height of this block, which is the next one, and the hash that the commit answered; and a
  -- query for the number of the last block, over the same collections, answers this height.
  pub info-commit :
      (evm ledger : Management crates.db.Store) (l0 l l' : Ledger c) (hash : HashValue)
      (api : EthApiImpl c)
      → IsSound c a idle l0
      → Run c a idle l0 in_block l
      → commit c a l ≡ some (hash, l')
      → api.shared ≡ l'.shared
      → (info c a l' ≡ (1 + (top c a l).header.height, hash))
        × (block_number c evm ledger api ≡ ok (1 + (top c a l).header.height))
  unfolding info last_block block_number
  info-commit evm ledger l0 l l' hash api start run h shared =
      let g = commit-Grown c a hash_laws block_laws l0 l l' hash start run h in
      let n = (top c a l).header.height in
      (
        rw g.stored (
            ap (λ (m : ℕ). (m, if ltb 0 m then g.block.header_hash else [])) g.height
            ∙ ap (λ (x : Bytes). (1 + n, x))
                (above_zero n g.block.header_hash [] ∙ sym g.answered)),
        block_number-last evm ledger api l'.shared _ g.block g.stored shared,
      )
