-- ===== src/Ledger/Branch.antt =====
-- ledger/mod.rs: `StateBranch`, a branch of the state with the block that it works on. `none`
-- is a panic.
pub mod Apply
pub mod Commit
pub mod Invariant
pub mod Charge
pub mod Failure
pub mod Sealed
pub mod Joined
pub mod OnTop
pub mod Untouched
pub mod Elsewhere
use mathlib.Core.Option as Option
use ovr.Prelude.{
  ℕ, ◌+◌, Bool, true, false, Option, none, some, List, [], ◌∷◌, ◌++◌, Result, ok, err, length, ◌==◌,
  if◌then◌else◌, unwrap_or, ◌>>=◌,
}
use ovr.Primitives.{H160, H256, U256, Bytes, HashValue, BlockHeight, saturating_sub}
use ovr.BTree.{BTreeMap, insert}
use ovr.BTree.Keys.{same, bytes_key}
use ovr.Vsdb.{BranchName, OvrAccount, VsVersion, MapxOrd}
use ovr.Ethvm.Backend.{OvrVicinity}
use ovr.Ethvm.Tx.{Crates, EvmState, ExecRet, gen_logs}
use ovr.Ethvm.Tx.Exec as Exec
use ovr.Ledger.Receipt.{Receipt, Log, add_logs}
use ovr.Ledger.Block.{
  Tx, evm_tx, native_tx, NativeTx, NativeRet, Block, LedgerCrates, default_block, new_block,
  tx_hash_of, tm_proposer_to_evm_format,
}

-- `MAIN_BRANCH_NAME`, `DELIVER_TX_BRANCH_NAME` and `CHECK_TX_BRANCH_NAME`, in ASCII
abbrev pub main_branch_name : BranchName
main_branch_name = 77 ∷ 97 ∷ 105 ∷ 110 ∷ []

abbrev pub deliver_tx_branch_name : BranchName
deliver_tx_branch_name = 68 ∷ 101 ∷ 108 ∷ 105 ∷ 118 ∷ 101 ∷ 114 ∷ 84 ∷ 120 ∷ []

abbrev pub check_tx_branch_name : BranchName
check_tx_branch_name = 67 ∷ 104 ∷ 101 ∷ 99 ∷ 107 ∷ 84 ∷ 120 ∷ []

-- The collections that all branches share: the versioned store and the two maps of blocks.
pub record Shared (c : LedgerCrates) : Type 0 where
  pub store : c.crates.db.Store
  pub block_hashes : c.crates.hashes.Map
  pub blocks : c.blocks.Map

-- `StateBranch`; of its own copy of the state the default branch and the vicinity are its own.
pub record StateBranch (c : LedgerCrates) : Type 0 where
  pub default_branch : BranchName
  pub vicinity : OvrVicinity
  pub branch : BranchName
  pub tx_hashes_in_process : List HashValue
  pub block_in_process : Block c.MerkleTreeStore

module _ (c : LedgerCrates) where
  open c use {crates, MerkleTreeStore, encode_version, blocks}
  open crates use {db, hashes, evm}

  unfoldable pub last_block : Shared c → Option (Block MerkleTreeStore)
  last_block w = do (height, block) ← blocks.last w.blocks; some block

  unfoldable pub last_block_height : Shared c → BlockHeight
  last_block_height w = elim (blocks.last w.blocks) [ none ↦ 0 | some (height, block) ↦ height ]

  unfoldable pub last_block_hash : Shared c → HashValue
  unfolding last_block
  last_block_hash w = (unwrap_or (default_block c) (last_block w)).header_hash

  -- `ethvm::State::update_vicinity`
  unfoldable pub update_vicinity :
      Shared c
      → (chain_id : U256) (block_coinbase : H160) (block_timestamp : U256) → StateBranch c
      → Option (StateBranch c)
  update_vicinity w chain_id block_coinbase block_timestamp sb = do
    gas_price ← db.gas_price w.store sb.default_branch
    block_gas_limit ← db.block_gas_limit w.store sb.default_branch
    base_fee ← db.block_base_fee_per_gas w.store sb.default_branch
    some (record sb {
      vicinity = record {
        gas_price = gas_price;
        origin = 0;
        chain_id = chain_id;
        block_number = elim (hashes.last w.block_hashes) [ none ↦ 0 | some (h, _) ↦ h ];
        block_coinbase = block_coinbase;
        block_timestamp = block_timestamp;
        block_difficulty = 0;
        block_gas_limit = block_gas_limit;
        block_base_fee_per_gas = base_fee;
      };
    })

  unfoldable pub update_evm_aux : Shared c → BranchName → StateBranch c → Option (StateBranch c)
  unfolding update_vicinity tm_proposer_to_evm_format
  update_evm_aux w b sb = do
    chain_id ← db.chain_id w.store b
    coinbase ← tm_proposer_to_evm_format sb.block_in_process.header.proposer
    update_vicinity w chain_id coinbase sb.block_in_process.header.timestamp sb

  -- The next block, empty, on top of the last one.
  unfoldable pub next_block : Shared c → Bytes → ℕ → Block MerkleTreeStore
  unfolding last_block new_block
  next_block w proposer timestamp =
      let last = unwrap_or (default_block c) (last_block w) in
      new_block c (1 + last.header.height) proposer timestamp last.header_hash

  -- The outer option is a panic, the result a version that the database refuses.
  unfoldable pub prepare_next_block :
      Bytes → ℕ → Shared c × StateBranch c → Option (Result (Shared c × StateBranch c) (Unit {0}))
  unfolding next_block update_evm_aux
  prepare_next_block proposer timestamp (w, sb) =
      let block = next_block w proposer timestamp in
      let sb' = record sb { tx_hashes_in_process = []; block_in_process = block } in
      let ver : VsVersion = record { block_height = block.header.height; tx_position = 0 } in
      elim (db.version_create (encode_version ver) sb.branch w.store) [
        | none ↦ some (err tt)
        | some store ↦
            let w' = record w { store = store } in
            if same sb.branch main_branch_name
            then (do sb'' ← update_evm_aux w' sb.branch sb'; some (ok (w', sb'')))
            else some (ok (w', sb'))
      ]

  -- A version that an unfinished block left behind is dropped.
  unfoldable pub clean_up : Shared c → BranchName → Result (Shared c) (Unit {0})
  unfolding last_block_height
  clean_up w branch =
      let ver =
        encode_version (record { block_height = 1 + last_block_height w; tx_position = 0 }) in
      if db.version_exists w.store ver branch
      then elim (db.version_pop branch w.store) [
        | none ↦ err tt
        | some store ↦ ok (record w { store = store })
      ]
      else ok w
