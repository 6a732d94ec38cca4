-- ===== src/Consensus/Linked.antt =====
-- consensus/mod.rs: the chain of blocks that the rounds of Tendermint build.
use mathlib.Core.Path.{subst}
use mathlib.Core.Option.{some-injective}
use ovr.Prelude.{
  ℕ, ◌+◌, ◌≡◌, refl, sym, ap, ◌∙◌, false, Option, some, arith, bind_some, unwrap_or, ◌==◌,
}
use ovr.Primitives.{BlockHeight, HashValue}
use ovr.Vsdb.{MapxOrdLaws}
use ovr.Ledger.Block.{Block, LedgerCrates, default_block, header_hash_of}
use ovr.Ledger.Branch.{StateBranch, last_block, last_block_hash, deliver_tx_branch_name}
use ovr.Ledger.Branch.Invariant.{IsConsistent}
use ovr.Ledger.Branch.Sealed.{Extended, commit-Extended}
use ovr.Ledger.Branch.Commit as Commit
use ovr.Ledger.Chain as Chain
use ovr.Ledger.Chain.{Ledger}
use ovr.Consensus.{AppCrates, commit}
use ovr.Consensus.Rounds.{
  Phase, idle, in_block, Step, checked, begun, delivered, committed, Run, done, next, top, IsSound,
  checked-IsSound, delivered-IsSound, begun-IsSound,
}

module _ (c : LedgerCrates) (a : AppCrates c) (hash_laws : MapxOrdLaws c.crates.hashes)
    (block_laws : MapxOrdLaws c.blocks) where
  open c use {crates, MerkleTreeStore, blocks}
  open crates use {db}

  -- The last entry of the chain is its top.
  top-last :
      (l : Ledger c) (h : BlockHeight) (b : Block MerkleTreeStore)
      → blocks.last l.shared.blocks ≡ some (h, b)
      → top c a l ≡ b
  unfolding last_block
  top-last l h b e = rw e refl

  -- What `Ledger::commit` commits: the main branch with the block that was delivered.
  abbrev delivered_main : Ledger c → StateBranch c
  delivered_main l = record l.main {
    block_in_process = l.deliver_tx.block_in_process;
    tx_hashes_in_process = l.deliver_tx.tx_hashes_in_process;
  }

  -- A commit, taken apart.
  record Committed (l l' : Ledger c) (answer : HashValue) : Type 0 where
    pub store : db.Store
    pub main : StateBranch c
    pub inner :
        Commit.commit c (record l.shared { store = store }, delivered_main l)
        ≡ some (l'.shared, main)
    pub deliver_block : l'.deliver_tx.block_in_process ≡ l.main.block_in_process
    pub deliver_hashes : l'.deliver_tx.tx_hashes_in_process ≡ l.main.tx_hashes_in_process
    pub check : l'.check_tx ≡ l.check_tx
    pub its_hash : answer ≡ last_block_hash c l'.shared

  commit-Committed :
      (l l' : Ledger c) (hash : HashValue) → commit c a l ≡ some (hash, l') → Committed l l' hash
  unfolding commit Chain.commit
  commit-Committed l l' hash h =
      let (r, e, h1) = bind_some (Chain.commit c l) _ (hash, l') h in
      let (s, merged, e1) =
        bind_some (db.branch_merge_to_parent deliver_tx_branch_name l.shared.store) _ r e in
      let (q, inner, e2) =
        bind_some (Commit.commit c (record l.shared { store = s }, delivered_main l)) _ r e1 in
      let same : r.1 ≡ l' = ap (λ x. x.1) (some-injective _ _ h1) in
      let made = ap (λ x. x.1) (some-injective _ _ e2) ∙ same in
      record {
        store = s;
        main = q.1;
        inner = inner ∙ ap (λ (x : Ledger c). some (x.shared, q.1)) made;
        deliver_block = sym (ap (λ (x : Ledger c). x.deliver_tx.block_in_process) made);
        deliver_hashes = sym (ap (λ (x : Ledger c). x.deliver_tx.tx_hashes_in_process) made);
        check = sym (ap (λ (x : Ledger c). x.check_tx) made);
        its_hash =
            sym (ap (λ x. x.0) (some-injective _ _ h1))
            ∙ ap (λ (x : Ledger c). last_block_hash c x.shared) same;
      }

  deliver_kept :
      (l l' : Ledger c) (hash : HashValue)
      → IsConsistent c l.main
      → Committed l l' hash
      → IsConsistent c l'.deliver_tx
  deliver_kept l l' hash k d = record {
    in_step = rw (d.deliver_block, d.deliver_hashes) k.in_step;
    hashed = rw d.deliver_block k.hashed;
    placed = rw (d.deliver_block, d.deliver_hashes) k.placed;
  }

  extended :
      (l l' : Ledger c) (hash : HashValue)
      → IsSound c a in_block l
      → (d : Committed l l' hash)
      → Extended c (record l.shared { store = d.store }) l'.shared (delivered_main l)
  extended l l' hash k d =
      commit-Extended c hash_laws block_laws (record l.shared { store = d.store }) l'.shared
        (delivered_main l) d.main
        (λ h b e. omega (
          arith,
          k.keyed h b e,
          k.phase.height,
          ap (λ (x : Block MerkleTreeStore). x.header.height) (top-last l h b e),
        ))
        d.inner

  committed-IsSound :
      (hash : HashValue) (l l' : Ledger c)
      → IsSound c a in_block l
      → commit c a l ≡ some (hash, l')
      → IsSound c a idle l'
  committed-IsSound hash l l' k h =
      let d = commit-Committed l l' hash h in
      let x = extended l l' hash k d in
      record {
        keyed = λ h b e.
            let same = some-injective _ _ (sym x.entry ∙ e) in
            sym (ap (λ (y : BlockHeight × Block MerkleTreeStore). y.1.header.height) same)
            ∙ ap (λ y. y.0) same;
        deliver = deliver_kept l l' hash k.phase.main d;
        check = subst (IsConsistent c) (sym d.check) k.check;
        phase = tt;
      }

  step-IsSound :
      (p q : Phase) (l l' : Ledger c) → IsSound c a p l → Step c a p l q l' → IsSound c a q l'
  step-IsSound _ _ _ _ k (checked p type code tx l l' h) =
      checked-IsSound c a p type code tx l l' k h
  step-IsSound _ _ _ _ k (begun header l l' h) = begun-IsSound c a header l l' k h
  step-IsSound _ _ _ _ k (delivered code tx l l' h) = delivered-IsSound c a code tx l l' k h
  step-IsSound _ _ _ _ k (committed hash l l' h) = committed-IsSound hash l l' k h

  -- Over maps of blocks that do what their documentation says, and from a ledger between two
  -- blocks whose last block stands under its own height and whose branches of deliveries and
  -- checks are consistent: so it is after any calls in Tendermint's order, and within a block the
  -- one that is delivered to has the next height and the hash of the last block stored.
  pub run-IsSound :
      (p q : Phase) (l l' : Ledger c) → IsSound c a p l → Run c a p l q l' → IsSound c a q l'
  run-IsSound _ _ _ _ k (done p l) = k
  run-IsSound _ _ _ _ k (next p q r l m n run step) =
      step-IsSound q r m n (run-IsSound p q l m k run) step

  -- The chain after a round, which is one block longer.
  pub record Grown (l l' : Ledger c) (answer : HashValue) : Type 0 where
    pub block : Block MerkleTreeStore
    pub stored : blocks.last l'.shared.blocks ≡ some (1 + (top c a l).header.height, block)
    pub height : block.header.height ≡ 1 + (top c a l).header.height
    pub link : block.header.prev_hash ≡ (top c a l).header_hash
    pub its_hash : block.header_hash ≡ header_hash_of c block.header
    pub answered : answer ≡ block.header_hash
    pub txs : block.txs ≡ l.deliver_tx.block_in_process.txs
    pub others :
        (h : ℕ)
        → (h == 1 + (top c a l).header.height) ≡ false
        → blocks.get l'.shared.blocks h ≡ blocks.get l.shared.blocks h

  -- Over maps of blocks that do what their documentation says, and from a ledger between two
  -- blocks as the invariant of the rounds asks: the commit of a block that was begun after any
  -- rounds stores one block, whose height is the next after the last one stored and whose link is
  -- the hash of that; it has the transactions that were delivered, and its own hash, which is
  -- answered; all other stored blocks stay.
  pub commit-Grown :
      (l0 l l' : Ledger c) (hash : HashValue)
      → IsSound c a idle l0
      → Run c a idle l0 in_block l
      → commit c a l ≡ some (hash, l')
      → Grown l l' hash
  unfolding last_block_hash last_block
  commit-Grown l0 l l' hash start run h =
      let k = run-IsSound idle in_block l0 l start run in
      let d = commit-Committed l l' hash h in
      let x = extended l l' hash k d in
      let height = x.sealed.height ∙ k.phase.height in
      record {
        block = x.block;
        stored = x.entry ∙ ap (λ n. some (n, x.block)) height;
        height = height;
        link = x.sealed.prev_hash ∙ k.phase.link;
        its_hash = x.sealed.its_hash;
        answered =
            d.its_hash
            ∙ ap
                (λ (b : Option (Block MerkleTreeStore)).
                  (unwrap_or (default_block c) b).header_hash)
                x.last;
        txs = x.sealed.txs;
        others = λ n e. x.kept n (subst (λ m. (n == m) ≡ false) (sym k.phase.height) e);
      }
