-- ===== src/Ledger/Branch/Commit.antt =====
-- ledger/mod.rs: the block that `StateBranch::commit` seals and stores. `none` is a panic.
use ovr.Prelude.{Option, none, some, List, [], ◌∷◌, ◌++◌, ◌>>=◌}
use ovr.Primitives.{U256, HashValue, checked_add}
use ovr.BTree.{BTreeMap, get, insert}
use ovr.BTree.Keys.{bytes_key}
use ovr.Ledger.Receipt.{Receipt}
use ovr.Ledger.Block.{
  Block, LedgerCrates, default_block, header_hash_of, handle_bloom, block_hash_to_evm_format,
}
use ovr.Ledger.Branch.{Shared, StateBranch}

-- The sum over the receipts, which panics where it does not fit.
unfoldable pub gas_of_receipts : U256 → BTreeMap HashValue Receipt → Option U256
gas_of_receipts acc [] = some acc
gas_of_receipts acc ((hash, r) ∷ rs) = do
  acc' ← checked_add acc r.tx_gas_used
  gas_of_receipts acc' rs

module _ (c : LedgerCrates) where
  open c use {
    crates, MerkleTreeStore, merkle_tree, get_root, Bloom, from_slice, as_bytes, sha3_256, blocks,
  }
  open crates use {hashes}

  -- The loop over the hashes: the receipts get the gas of the block, the bloom filter their logs.
  unfoldable pub fill_receipts :
      U256
      → List HashValue
      → BTreeMap HashValue Receipt × Bloom
      → BTreeMap HashValue Receipt × Bloom
  unfolding handle_bloom get insert
  fill_receipts gas [] acc = acc
  fill_receipts gas (hash ∷ hs) (rs, b) = elim (get hash rs) [
    | none ↦ fill_receipts gas hs (rs, b)
    | some r ↦
        fill_receipts gas hs
          (insert hash (record r { block_gas_used = gas }) rs, handle_bloom c r.logs b)
  ]

  -- The block as it is stored, of the hashes of its transactions.
  unfoldable pub seal : List HashValue → Block MerkleTreeStore → Option (Block MerkleTreeStore)
  unfolding gas_of_receipts fill_receipts header_hash_of
  seal hashes block = do
    let tree = merkle_tree hashes
    root ← get_root tree
    gas ← gas_of_receipts 0 block.header.receipts
    let (receipts, bloom) = fill_receipts gas hashes (block.header.receipts, from_slice block.bloom)
    let header = record block.header {
      tx_merkle = record { root_hash = root; tree = tree };
      receipts = receipts;
    }
    some (record block {
      header = header;
      bloom = as_bytes bloom;
      header_hash = header_hash_of c header;
    })

  -- A hash that is no transaction's is added, so that the tree is never empty.
  unfoldable pub commit : Shared c × StateBranch c → Option (Shared c × StateBranch c)
  unfolding seal block_hash_to_evm_format
  commit (w, sb) = do
    let hs = sb.tx_hashes_in_process ++ (sha3_256 [] ∷ [])
    block ← seal hs sb.block_in_process
    hash ← block_hash_to_evm_format block.header_hash
    some (
      record w {
        block_hashes = hashes.insert block.header.height hash w.block_hashes;
        blocks = blocks.insert block.header.height block w.blocks;
      },
      record sb { tx_hashes_in_process = hs; block_in_process = default_block c },
    )
