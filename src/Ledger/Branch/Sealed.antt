-- ===== src/Ledger/Branch/Sealed.antt =====
-- ledger/mod.rs: the block that `commit` stores, and the next block on top of it.
use mathlib.Core.Path.{subst}
use ovr.Prelude.{
  ℕ, ◌+◌, ◌<◌, ◌≡◌, refl, ap, sym, ◌∙◌, Bool, true, false, Option, none, some, List, [], ◌∷◌, ◌++◌,
  arith, if◌then◌else◌, Option-cases, inl, inr, ◌||◌, ◌==◌,
}
use ovr.Primitives.{U256, Bytes, HashValue}
use ovr.BTree.{BTreeMap, get, insert}
use ovr.BTree.Keys.{same, bytes_key}
use ovr.BTree.Laws.{get-insert}
use ovr.Vsdb.{MapxOrdLaws}
use ovr.Ledger.Receipt.{Receipt}
use ovr.Ledger.Block.{
  Block, BlockHeader, LedgerCrates, header_hash_of, handle_bloom, block_hash_to_evm_format,
  new_block,
}
use ovr.Ledger.Branch.{Shared, StateBranch, last_block, next_block}
use ovr.Ledger.Branch.Commit.{gas_of_receipts, fill_receipts, seal, commit}

abbrev pub member : HashValue → List HashValue → Bool
member q [] = false
member q (h ∷ hs) = same q h || member q hs

abbrev pub with_gas : U256 → Option Receipt → Option Receipt
with_gas gas none = none
with_gas gas (some r) = some (record r { block_gas_used = gas })

same_eq : (p q : HashValue) → same p q ≡ true → p ≡ q
same_eq p q h = ground (arith, bytes_key.eq_of_cmp p q)

module _ (c : LedgerCrates) where
  open c use {crates, MerkleTreeStore, blocks, Bloom, sha3_256}

  -- The loop writes the gas into the receipts that the hashes name.
  get-fill_receipts :
      (q : HashValue) (gas : U256) (hs : List HashValue) (rs : BTreeMap HashValue Receipt)
      (b : Bloom)
      → get q (fill_receipts c gas hs (rs, b)).0
        ≡ (if member q hs then with_gas gas (get q rs) else get q rs)
  unfolding fill_receipts
  get-fill_receipts q gas [] rs b = refl
  get-fill_receipts q gas (h ∷ hs) rs b = elim (Option-cases (get h rs)) [
    | inl absent ↦ ground (arith, absent, get-fill_receipts q gas hs rs b, same_eq q h)
    | inr (r, e) ↦
        let r' = record r { block_gas_used = gas } in
        ground (
          arith,
          e,
          get-fill_receipts q gas hs (insert h r' rs) (handle_bloom c r.logs b),
          get-insert q h r' rs,
          same_eq q h,
        )
  ]

  abbrev pub gas_sum : BTreeMap HashValue Receipt → ℕ
  gas_sum [] = 0
  gas_sum ((hash, r) ∷ rs) = r.tx_gas_used + gas_sum rs

  gas_of_receipts-sum :
      (acc total : U256) (rs : BTreeMap HashValue Receipt)
      → gas_of_receipts acc rs ≡ some total
      → total ≡ acc + gas_sum rs
  unfolding gas_of_receipts
  gas_of_receipts-sum acc total [] h = ground arith
  gas_of_receipts-sum acc total ((hash, r) ∷ rs) h =
      ground (arith, gas_of_receipts-sum (acc + r.tx_gas_used) total rs)

  -- The stored block: its own hash, the height and the link of the block in process, and receipts
  -- that agree with it but for the gas of the whole block.
  pub record Sealed (hs : List HashValue) (block block' : Block MerkleTreeStore) : Type 0 where
    pub its_hash : block'.header_hash ≡ header_hash_of c block'.header
    pub height : block'.header.height ≡ block.header.height
    pub prev_hash : block'.header.prev_hash ≡ block.header.prev_hash
    pub txs : block'.txs ≡ block.txs
    pub receipts :
        (q : HashValue)
        → get q block'.header.receipts ≡ (
            if member q hs
            then with_gas (gas_sum block.header.receipts) (get q block.header.receipts)
            else get q block.header.receipts)

  abbrev sealed_header :
      List HashValue
      → U256
      → HashValue
      → BlockHeader MerkleTreeStore
      → Bytes
      → BlockHeader MerkleTreeStore
  sealed_header hs gas root header bloom = record header {
    tx_merkle = record { root_hash = root; tree = c.merkle_tree hs };
    receipts = (fill_receipts c gas hs (header.receipts, c.from_slice bloom)).0;
  }

  seal-Sealed :
      (hs : List HashValue) (block block' : Block MerkleTreeStore)
      → seal c hs block ≡ some block'
      → Sealed hs block block'
  unfolding seal
  seal-Sealed hs block block' h = elim (Option-cases (c.get_root (c.merkle_tree hs))) [
    | inl no-root ↦ absurd (ground (arith, no-root))
    | inr (root, e) ↦ elim (Option-cases (gas_of_receipts 0 block.header.receipts)) [
      | inl overflow ↦ absurd (ground (arith, e, overflow))
      | inr (gas, f) ↦
          let header = sealed_header hs gas root block.header block.bloom in
          let total = gas_of_receipts-sum 0 gas block.header.receipts f in
          let same-header : block'.header ≡ header = ground (arith, e, f) in
          record {
            its_hash = ground (arith, e, f);
            height = ap (λ k. k.height) same-header;
            prev_hash = ap (λ k. k.prev_hash) same-header;
            txs = ground (arith, e, f);
            receipts = λ q.
                ap (λ k. get q k.receipts) same-header
                ∙ get-fill_receipts q gas hs block.header.receipts (c.from_slice block.bloom)
                ∙ ap
                    (λ n.
                      if member q hs
                      then with_gas n (get q block.header.receipts)
                      else get q block.header.receipts)
                    (total ∙ (omega arith));
          }
    ]
  ]

  -- The chain after a commit: its last block is the sealed one, under its height, whose hash is in
  -- the map of hashes, and the next block is linked to it.
  pub record Extended (w w' : Shared c) (sb : StateBranch c) : Type 0 where
    pub block : Block MerkleTreeStore
    pub sealed : Sealed (sb.tx_hashes_in_process ++ (sha3_256 [] ∷ [])) sb.block_in_process block
    pub entry : blocks.last w'.blocks ≡ some (block.header.height, block)
    pub last : last_block c w' ≡ some block
    pub evm_hash :
        crates.hashes.get w'.block_hashes block.header.height
        ≡ block_hash_to_evm_format block.header_hash
    pub next_height :
        (proposer : Bytes) (timestamp : ℕ)
        → (next_block c w' proposer timestamp).header.height ≡ 1 + sb.block_in_process.header.height
    pub next_link :
        (proposer : Bytes) (timestamp : ℕ)
        → (next_block c w' proposer timestamp).header.prev_hash ≡ header_hash_of c block.header
    pub kept :
        (h : ℕ)
        → (h == sb.block_in_process.header.height) ≡ false
        → blocks.get w'.blocks h ≡ blocks.get w.blocks h

  -- Over maps of blocks that do what their documentation says: where the commit of a block
  -- above all stored ones does not panic, its block is the last one, under its height and with
  -- its hash in the map of hashes; every receipt that a hash of the block names holds the sum
  -- of the gas of all its receipts, and the header is hashed after that; the next block has
  -- the next height and this hash; the other stored blocks stay.
  pub commit-Extended :
      (hash_laws : MapxOrdLaws crates.hashes) (block_laws : MapxOrdLaws blocks) (w w' : Shared c)
      (sb sb' : StateBranch c)
      → ((h : ℕ) (b : Block MerkleTreeStore)
          → blocks.last w.blocks ≡ some (h, b)
          → h < sb.block_in_process.header.height)
      → commit c (w, sb) ≡ some (w', sb')
      → Extended w w' sb
  unfolding commit next_block new_block last_block
  commit-Extended hash_laws block_laws w w' sb sb' above e =
      let hs = sb.tx_hashes_in_process ++ (sha3_256 [] ∷ []) in
      elim (Option-cases (seal c hs sb.block_in_process)) [
        | inl panic ↦ absurd (ground (arith, panic))
        | inr (block, s) ↦ elim (Option-cases (block_hash_to_evm_format block.header_hash)) [
          | inl panic ↦ absurd (ground (arith, s, panic))
          | inr (hash, f) ↦
              let k = seal-Sealed hs sb.block_in_process block s in
              let bs : w'.blocks ≡ blocks.insert block.header.height block w.blocks =
                ground (arith, s, f) in
              let hs' : w'.block_hashes
                  ≡ crates.hashes.insert block.header.height hash w.block_hashes =
                ground (arith, s, f) in
              let last : blocks.last w'.blocks ≡ some (block.header.height, block) =
                ap blocks.last bs
                ∙ block_laws.last-insert block.header.height block w.blocks
                    (λ h b l. subst (λ n. h < n) (sym k.height) (above h b l)) in
              record {
                block = block;
                sealed = k;
                entry = last;
                last = rw last refl;
                evm_hash = ground (
                  arith,
                  f,
                  hs',
                  hash_laws.get-insert block.header.height block.header.height hash w.block_hashes,
                );
                next_height = λ p t. rw last (ap (λ n. 1 + n) k.height);
                next_link = λ p t. rw last k.its_hash;
                kept = λ h n. ground (
                  arith,
                  bs,
                  k.height,
                  block_laws.get-insert block.header.height h block w.blocks,
                );
              }
        ]
      ]
