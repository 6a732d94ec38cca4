-- ===== src/Ledger/Block.antt =====
-- ledger/mod.rs: `Block`, its header and the Merkle tree of its transactions; tx/mod.rs: `Tx`;
-- common/mod.rs: the formats of hashes and addresses, and the bloom filter.
use ovr.Prelude.{
  ℕ, zero, suc, ◌+◌, ◌*◌, Bool, Option, none, some, List, [], ◌∷◌, length, ltb, if◌then◌else◌,
}
use ovr.Primitives.{H160, H256, U256, Bytes, HashValue, BlockHeight}
use ovr.BTree.{BTreeMap}
use ovr.Vsdb.{MapxOrd, VsVersion}
use ovr.Ethvm.Tx.{TransactionAny, Crates}
use ovr.Ledger.Receipt.{Log, Receipt}

-- `native::Tx`, whose content is a mock.
pub record NativeTx : Type 0 where
  pub mock : List (List ℕ)

pub data Tx : Type 0 where
  evm_tx : TransactionAny → Tx
  native_tx : NativeTx → Tx

-- `native::ExecRet`
pub record NativeRet : Type 0 where
  pub success : Bool
  pub caller : H160
  pub fee_used : U256
  pub log : Bytes

module _ (MerkleTreeStore : Type 0) where
  pub record TxMerkle : Type 0 where
    pub root_hash : HashValue
    pub tree : MerkleTreeStore

  pub record BlockHeader : Type 0 where
    pub height : BlockHeight
    pub proposer : Bytes
    pub timestamp : ℕ
    pub tx_merkle : TxMerkle
    pub prev_hash : HashValue
    pub receipts : BTreeMap HashValue Receipt

  pub record Block : Type 0 where
    pub header : BlockHeader
    pub header_hash : HashValue
    pub txs : List Tx
    pub bloom : Bytes

-- `Contents`, what `BlockHeader::hash` encodes of a header.
pub record Contents : Type 0 where
  pub height : BlockHeight
  pub proposer : Bytes
  pub timestamp : ℕ
  pub merkle_root : HashValue
  pub prev_hash : HashValue
  pub receipts : BTreeMap HashValue Receipt

-- The crates of the ledger beside those of a transaction: SHA3, serde, the Merkle trees of vsdb,
-- the bloom filter of ethereum-types, and the map of the blocks.
pub record LedgerCrates : Type 1 where
  pub crates : Crates
  pub sha3_256 : Bytes → Bytes
  pub encode_tx : Tx → Bytes
  pub encode_contents : Contents → Bytes
  pub encode_version : VsVersion → Bytes
  pub MerkleTreeStore : Type 0
  pub empty_tree : MerkleTreeStore
  pub merkle_tree : List HashValue → MerkleTreeStore
  pub get_root : MerkleTreeStore → Option HashValue
  pub Bloom : Type 0
  pub default_bloom : Bloom
  pub from_slice : Bytes → Bloom
  pub as_bytes : Bloom → Bytes
  pub accrue_address : H160 → Bloom → Bloom
  pub accrue_topic : H256 → Bloom → Bloom
  pub blocks : MapxOrd (Block MerkleTreeStore)

-- The number that the bytes spell, after those that `n` spells.
abbrev pub big_endian : ℕ → Bytes → ℕ
big_endian n [] = n
big_endian n (x ∷ xs) = big_endian (n * 256 + x) xs

abbrev take : ℕ → Bytes → Bytes
take zero xs = []
take (suc n) [] = []
take (suc n) (x ∷ xs) = x ∷ take n xs

-- `copy_from_slice` panics where the slice is shorter than the buffer.
unfoldable pub fixed_size : ℕ → Bytes → Option ℕ
fixed_size n addr = if ltb (length addr) n then none else some (big_endian 0 (take n addr))

unfoldable pub tm_proposer_to_evm_format : Bytes → Option H160
unfolding fixed_size
tm_proposer_to_evm_format addr = fixed_size 20 addr

unfoldable pub block_hash_to_evm_format : HashValue → Option H256
unfolding fixed_size
block_hash_to_evm_format hash = fixed_size 32 hash

module _ (c : LedgerCrates) where
  open c use {
    sha3_256, encode_tx, encode_contents, MerkleTreeStore, empty_tree, Bloom, default_bloom,
    as_bytes, accrue_address, accrue_topic,
  }

  abbrev pub default_header : BlockHeader MerkleTreeStore
  default_header = record {
    height = 0;
    proposer = [];
    timestamp = 0;
    tx_merkle = record { root_hash = []; tree = empty_tree };
    prev_hash = [];
    receipts = [];
  }

  abbrev pub default_block : Block MerkleTreeStore
  default_block = record { header = default_header; header_hash = []; txs = []; bloom = [] }

  -- `Block::new`
  unfoldable pub new_block : BlockHeight → Bytes → ℕ → HashValue → Block MerkleTreeStore
  new_block height proposer timestamp prev_hash = record default_block {
    header = record default_header {
      height = height;
      proposer = proposer;
      timestamp = timestamp;
      prev_hash = prev_hash;
    };
    bloom = as_bytes default_bloom;
  }

  -- `BlockHeader::hash`
  unfoldable pub header_hash_of : BlockHeader MerkleTreeStore → HashValue
  header_hash_of h = sha3_256 (
      encode_contents (record {
        height = h.height;
        proposer = h.proposer;
        timestamp = h.timestamp;
        merkle_root = h.tx_merkle.root_hash;
        prev_hash = h.prev_hash;
        receipts = h.receipts;
      }))

  -- `Tx::hash`
  unfoldable pub tx_hash_of : Tx → HashValue
  tx_hash_of tx = sha3_256 (encode_tx tx)

  abbrev accrue_topics : List H256 → Bloom → Bloom
  accrue_topics [] b = b
  accrue_topics (topic ∷ topics) b = accrue_topics topics (accrue_topic topic b)

  unfoldable pub handle_bloom : List Log → Bloom → Bloom
  handle_bloom [] b = b
  handle_bloom (log ∷ logs) b =
      handle_bloom logs (accrue_topics log.topics (accrue_address log.address b))
