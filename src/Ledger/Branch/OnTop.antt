-- ===== src/Ledger/Branch/OnTop.antt =====
-- ledger/mod.rs: where the next block of a chain stands.
use ovr.Prelude.{ℕ, ◌+◌, ◌≡◌, refl, none, some, [], arith, Option-cases, inl, inr}
use ovr.Primitives.{Bytes, BlockHeight, HashValue}
use ovr.Ledger.Block.{Block, LedgerCrates}
use ovr.Ledger.Branch.{Shared, last_block, next_block}

module _ (c : LedgerCrates) where
  open c use {MerkleTreeStore, blocks}

  -- The height and the hash of the last block that is stored: none is as one of height 0.
  pub data LastStored (w : Shared c) : BlockHeight → HashValue → Type 0 where
    no_block : blocks.last w.blocks ≡ none → LastStored w 0 []
    last_one :
        (h : BlockHeight) (b : Block MerkleTreeStore)
        → blocks.last w.blocks ≡ some (h, b)
        → LastStored w b.header.height b.header_hash

  -- An empty block, of this proposer and time, that follows the last one.
  pub record OnTop (w : Shared c) (proposer : Bytes) (timestamp : ℕ) (block : Block MerkleTreeStore)
      : Type 0 where
    pub last_height : BlockHeight
    pub last_hash : HashValue
    pub last : LastStored w last_height last_hash
    pub height : block.header.height ≡ 1 + last_height
    pub prev_hash : block.header.prev_hash ≡ last_hash
    pub its_proposer : block.header.proposer ≡ proposer
    pub its_time : block.header.timestamp ≡ timestamp
    pub no_txs : block.txs ≡ []
    pub no_receipts : block.header.receipts ≡ []

  pub next_block-OnTop :
      (w : Shared c) (proposer : Bytes) (timestamp : ℕ)
      → OnTop w proposer timestamp (next_block c w proposer timestamp)
  unfolding next_block last_block
  next_block-OnTop w proposer timestamp = elim (Option-cases (blocks.last w.blocks)) [
    | inl e ↦ record {
      last_height = 0;
      last_hash = [];
      last = no_block e;
      height = ground (arith, e);
      prev_hash = ground (arith, e);
      its_proposer = refl;
      its_time = refl;
      no_txs = refl;
      no_receipts = refl;
    }
    | inr ((h, b), e) ↦ record {
      last_height = b.header.height;
      last_hash = b.header_hash;
      last = last_one h b e;
      height = ground (arith, e);
      prev_hash = ground (arith, e);
      its_proposer = refl;
      its_time = refl;
      no_txs = refl;
      no_receipts = refl;
    }
  ]
