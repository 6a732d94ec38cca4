-- ===== src/Ledger/Chain/Rounds.antt =====
-- ledger/mod.rs: the three branches at the start of a block.
use mathlib.Core.Path.{subst}
use mathlib.Core.Option.{some-injective}
use ovr.Prelude.{ℕ, ◌≡◌, refl, ap, ◌∙◌, some, [], Result, ok, err, bind_some}
use ovr.Primitives.{Bytes}
use ovr.Ledger.Block.{Block, LedgerCrates}
use ovr.Ledger.Branch.{Shared, StateBranch, next_block, prepare_next_block}
use ovr.Ledger.Branch.OnTop.{OnTop, next_block-OnTop}
use ovr.Ledger.Branch.Invariant.{
  IsConsistent, prepare_next_block_lem, prepare_next_block-IsConsistent,
}
use ovr.Ledger.Chain.{
  Ledger, stop_on_err, prepare_all, refresh_inner, consensus_refresh, refresh_branches, follow_main,
}

stop_on_err-some : {A E : Type 0} (r : Result A E) (a : A) → stop_on_err r ≡ some a → r ≡ ok a
stop_on_err-some (ok x) a h = ap ok (some-injective _ _ h)
stop_on_err-some (err e) a h = cc

module _ (c : LedgerCrates) where
  -- A branch works on this block, and on no transaction yet.
  pub record Starts (block : Block c.MerkleTreeStore) (sb : StateBranch c) : Type 0 where
    pub its_block : sb.block_in_process ≡ block
    pub no_hashes : sb.tx_hashes_in_process ≡ []
    pub consistent : IsConsistent c sb

  next_block-blocks :
      (w w' : Shared c) (proposer : Bytes) (timestamp : ℕ)
      → w'.blocks ≡ w.blocks
      → next_block c w' proposer timestamp ≡ next_block c w proposer timestamp
  unfolding next_block
  next_block-blocks w w' proposer timestamp h = rw h refl

  prepared-Starts :
      (proposer : Bytes) (timestamp : ℕ) (w0 w w' : Shared c) (sb sb' : StateBranch c) (r : _)
      → w.blocks ≡ w0.blocks
      → prepare_next_block c proposer timestamp (w, sb) ≡ some r
      → stop_on_err r ≡ some (w', sb')
      → Starts (next_block c w0 proposer timestamp) sb' × (w'.blocks ≡ w0.blocks)
  prepared-Starts proposer timestamp w0 w w' sb sb' r b h k =
      let e = h ∙ ap some (stop_on_err-some r (w', sb') k) in
      let (block, hashes, same) = prepare_next_block_lem c proposer timestamp w w' sb sb' e in
      (
        record {
          its_block = block ∙ next_block-blocks w0 w proposer timestamp b;
          no_hashes = hashes;
          consistent = (prepare_next_block-IsConsistent c proposer timestamp w w' sb sb' e).0;
        },
        same ∙ b,
      )

  -- All branches of a ledger work on the block.
  pub record AllStart (block : Block c.MerkleTreeStore) (l : Ledger c) : Type 0 where
    pub main : Starts block l.main
    pub deliver_tx : Starts block l.deliver_tx
    pub check_tx : Starts block l.check_tx

  prepare_all-AllStart :
      (proposer : Bytes) (timestamp : ℕ) (l l' : Ledger c)
      → prepare_all c proposer timestamp l ≡ some l'
      → AllStart (next_block c l.shared proposer timestamp) l'
        × (l'.shared.blocks ≡ l.shared.blocks)
  prepare_all-AllStart proposer timestamp l l' h =
      let (r1, e1, h1) = bind_some _ _ l' h in
      let (p1, f1, h2) = bind_some _ _ l' h1 in
      let (r2, e2, h3) = bind_some _ _ l' h2 in
      let (p2, f2, h4) = bind_some _ _ l' h3 in
      let (r3, e3, h5) = bind_some _ _ l' h4 in
      let (p3, f3, h6) = bind_some _ _ l' h5 in
      let (s1, b1) =
        prepared-Starts proposer timestamp l.shared l.shared p1.0 l.main p1.1 r1 refl e1 f1 in
      let (s2, b2) =
        prepared-Starts proposer timestamp l.shared p1.0 p2.0 l.deliver_tx p2.1 r2 b1 e2 f2 in
      let (s3, b3) =
        prepared-Starts proposer timestamp l.shared p2.0 p3.0 l.check_tx p3.1 r3 b2 e3 f3 in
      subst
        (λ x.
          AllStart (next_block c l.shared proposer timestamp) x
          × (x.shared.blocks ≡ l.shared.blocks))
        (some-injective _ _ h6) (record { main = s1; deliver_tx = s2; check_tx = s3 }, b3)

  pub consensus_refresh-next_block :
      (proposer : Bytes) (timestamp : ℕ) (l l' : Ledger c)
      → consensus_refresh c proposer timestamp l ≡ some l'
      → AllStart (next_block c l.shared proposer timestamp) l'
        × (l'.shared.blocks ≡ l.shared.blocks)
  unfolding consensus_refresh refresh_inner
  consensus_refresh-next_block proposer timestamp l l' h =
      let (s, es, h1) = bind_some (refresh_branches c l.shared.store) _ l' h in
      let (d, ed, h2) = bind_some (follow_main c l.main l.deliver_tx s) _ l' h1 in
      let (k, ek, h3) = bind_some (follow_main c l.main l.check_tx s) _ l' h2 in
      prepare_all-AllStart proposer timestamp
        (record l { shared = record l.shared { store = s }; deliver_tx = d; check_tx = k }) l' h3

  -- Where a block is begun without an error, all three branches work on the same empty block, of
  -- the proposer and the time that are given: it stands at the next height after the last one
  -- stored and has its hash, or at the height 1 without a hash where none is stored; no
  -- transaction is hashed yet, and the stored blocks stay.
  pub consensus_refresh-AllStart :
      (proposer : Bytes) (timestamp : ℕ) (l l' : Ledger c)
      → consensus_refresh c proposer timestamp l ≡ some l'
      → (block : Block c.MerkleTreeStore) × OnTop c l.shared proposer timestamp block
        × AllStart block l'
        × (l'.shared.blocks ≡ l.shared.blocks)
  consensus_refresh-AllStart proposer timestamp l l' h =
      let (starts, blocks') = consensus_refresh-next_block proposer timestamp l l' h in
      (
        next_block c l.shared proposer timestamp,
        next_block-OnTop c l.shared proposer timestamp,
        starts,
        blocks',
      )
