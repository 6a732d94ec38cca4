-- ===== src/Ledger/Heights.antt =====
-- common/mod.rs: the height that a query names a block by.
use ovr.Prelude.{
  ℕ, zero, suc, ◌/◌, ◌%◌, ◌≡◌, refl, Bool, true, false, Option, none, some, List, [], ◌∷◌, ◌++◌,
  ◌⊎◌, inl, inr, ◌==◌, if◌then◌else◌, All, Bool-cases,
}
use ovr.Primitives.{H256, Bytes, BlockHeight}
use ovr.BTree.Keys.{same, bytes_key}
use ovr.Ledger.Block.{Block, LedgerCrates}

-- `web3_rpc_core::types::BlockNumber`
pub data BlockNumber : Type 0 where
  hash : H256 → (require_canonical : Bool) → BlockNumber
  num : ℕ → BlockNumber
  latest earliest pending : BlockNumber

-- `as_bytes`: the last `n` bytes of a number.
abbrev pub bytes_of : ℕ → ℕ → Bytes
bytes_of zero x = []
bytes_of (suc n) x = bytes_of n (x / 256) ++ (x % 256 ∷ [])

module _ {V : Type 0} (test : V → Bool) where
  -- The height of the first entry that passes, or 0.
  unfoldable pub find_height : List (BlockHeight × V) → BlockHeight
  find_height [] = 0
  find_height ((h, x) ∷ rest) = let later = find_height rest in if test x then h else later

  -- The first entry that passes, after entries that do not.
  pub data First : List (BlockHeight × V) → BlockHeight → Type 0 where
    here :
        (h : BlockHeight) (x : V) (rest : List (BlockHeight × V))
        → test x ≡ true
        → First ((h, x) ∷ rest) h
    there :
        (h k : BlockHeight) (x : V) (rest : List (BlockHeight × V))
        → test x ≡ false
        → First rest h
        → First ((k, x) ∷ rest) h

  abbrev pub Fails : BlockHeight × V → Type 0
  Fails e = test e.1 ≡ false

  pub find_height_lem :
      (entries : List (BlockHeight × V))
      → First entries (find_height entries) ⊎ (All Fails entries × (find_height entries ≡ 0))
  unfolding find_height
  find_height_lem [] = inr (tt, refl)
  find_height_lem ((h, x) ∷ rest) = elim (Bool-cases (test x)) [
    | inl passes ↦ inl (rw passes (here h x rest passes))
    | inr fails ↦ elim (find_height_lem rest) [
      | inl found ↦ inl (rw fails (there (find_height rest) h x rest fails found))
      | inr (all, e) ↦ inr ((fails, all), rw fails e)
    ]
  ]

-- `iter().last()`
abbrev last_height : {V : Type 0} → List (BlockHeight × V) → BlockHeight
last_height [] = 0
last_height ((h, x) ∷ []) = h
last_height ((h, x) ∷ (e ∷ rest)) = last_height (e ∷ rest)

module _ (c : LedgerCrates) where
  open c use {crates, blocks, MerkleTreeStore}
  open crates use {hashes}

  abbrev pub is_hash : H256 → H256 → Bool
  is_hash wanted found = found == wanted

  abbrev pub is_block_of : H256 → Block MerkleTreeStore → Bool
  is_block_of wanted block = same block.header_hash (bytes_of 32 wanted)

  -- The state of the ledger, or that of the EVM, which is asked first; without a number, the
  -- latest block.
  unfoldable pub block_number_to_height :
      Option BlockNumber
      → (ledger_state : Option blocks.Map) (evm_state : Option hashes.Map) → BlockHeight
  unfolding find_height
  block_number_to_height (some (hash wanted _)) ledger_state (some m) =
      find_height (is_hash wanted) (hashes.entries m)
  block_number_to_height (some (hash wanted _)) (some m) none =
      find_height (is_block_of wanted) (blocks.entries m)
  block_number_to_height (some (hash wanted _)) none none = 0
  block_number_to_height (some (num n)) ledger_state evm_state = n
  block_number_to_height (some earliest) ledger_state evm_state = 1
  block_number_to_height (some pending) ledger_state evm_state = 0
  block_number_to_height _ ledger_state (some m) = last_height (hashes.entries m)
  block_number_to_height _ (some m) none = last_height (blocks.entries m)
  block_number_to_height _ none none = 0

  -- A query by a hash finds the first block that carries it in the map that is asked, which is
  -- that of the EVM where there is one; it answers 0 where no block does.
  pub block_number_to_height-First :
      (wanted : H256) (canonical : Bool) (ledger_state : blocks.Map) (evm_state : hashes.Map)
      → (First (is_hash wanted) (hashes.entries evm_state) (
            block_number_to_height
              (some (hash wanted canonical))
              (some ledger_state)
              (some evm_state))
          ⊎ (All (Fails (is_hash wanted)) (hashes.entries evm_state)
              × (block_number_to_height
                    (some (hash wanted canonical))
                    (some ledger_state)
                    (some evm_state)
                  ≡ 0)))
        × (First
              (is_block_of wanted)
              (blocks.entries ledger_state)
              (block_number_to_height (some (hash wanted canonical)) (some ledger_state) none)
            ⊎ (All (Fails (is_block_of wanted)) (blocks.entries ledger_state)
                × (block_number_to_height (some (hash wanted canonical)) (some ledger_state) none
                    ≡ 0)))
  unfolding block_number_to_height
  block_number_to_height-First wanted canonical ledger_state evm_state = (
    find_height_lem (is_hash wanted) (hashes.entries evm_state),
    find_height_lem (is_block_of wanted) (blocks.entries ledger_state),
  )
