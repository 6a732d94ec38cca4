-- ===== src/Ledger/Rollback.antt =====
-- common/mod.rs: `rollback_to_height`; rpc/utils.rs: `rollback_by_height` and
-- `remove_branch_by_name`. A query makes a branch of the state, and drops it when it has its
-- answer.
pub mod Names
pub mod Kept
use ovr.Prelude.{
  ℕ, zero, suc, ◌+◌, ◌/◌, ◌%◌, ◌^◌, ◌≡◌, Bool, true, false, Option, none, some, List, [], ◌∷◌, ◌++◌,
  Result, ok, err, ltb, ◌==◌, if◌then◌else◌,
}
use ovr.Primitives.{Bytes, BlockHeight}
use ovr.BTree.Keys.{same, bytes_key}
use ovr.Vsdb.{BranchName, VsVersion, Operations, SameOn}
use ovr.Ledger.Block.{LedgerCrates}
use ovr.Ledger.Branch.{Shared, main_branch_name}
use ovr.Ledger.Heights.{BlockNumber, block_number_to_height}

-- `VsMgmt` of a structure of versioned collections: those of the EVM, or those of the ledger,
-- which has the EVM's among them. `none` is an error, after which the store is as before.
pub record Management (Store : Type 0) : Type 0 where
  pub branch_exists : Store → BranchName → Bool
  pub branch_create_by_base_branch : (name parent : BranchName) → Store → Option Store
  pub version_create_by_branch : Bytes → BranchName → Store → Option Store
  pub branch_remove : BranchName → Store → Option Store

-- What a handle is asked for: the collections of the ledger, or those of the EVM.
pub data Target : Type 0 where
  ledger_state evm_state : Target

-- The digits of a number in ASCII, with fuel for each.
unfoldable pub digits : (fuel : ℕ) → ℕ → Bytes
digits zero n = []
digits (suc fuel) n =
    let more = digits fuel (n / 10) in
    if ltb n 10 then (48 + n) ∷ [] else more ++ ((48 + n % 10) ∷ [])

-- `u64` as `format!` prints it; a number has fewer digits than its own successor.
unfoldable pub decimal : ℕ → Bytes
unfolding digits
decimal n = digits (suc n) n

-- `height + 1` on 64 bits, which wraps in a release build
abbrev pub next_height : BlockHeight → BlockHeight
next_height height = (height + 1) % 2 ^ 64

-- `format!("{}_{}", prefix, height + 1)`
unfoldable pub branch_name : (prefix : Bytes) → BlockHeight → BranchName
unfolding decimal
branch_name prefix height = prefix ++ (95 ∷ decimal (next_height height))

pub data RollbackError : Type 0 where
  zero_height refused_branch refused_version : RollbackError

module _ (c : LedgerCrates) (evm ledger : Management c.crates.db.Store) where
  open c use {crates, blocks, encode_version}
  open crates use {db, hashes}

  abbrev pub management : Target → Management db.Store
  management ledger_state = ledger
  management evm_state = evm

  -- The name of the new branch, or an error, which may leave the branch behind.
  unfoldable pub rollback_to_height :
      BlockHeight
      → Target
      → (prefix : Bytes) → db.Store
      → Result BranchName RollbackError × db.Store
  unfolding branch_name
  rollback_to_height zero target prefix s = (err zero_height, s)
  rollback_to_height (suc n) target prefix s =
      let name = branch_name prefix (suc n) in
      let ver = encode_version (record { block_height = next_height (suc n); tx_position = 0 }) in
      let m = management target in
      elim (m.branch_create_by_base_branch name main_branch_name s) [
        | none ↦ (err refused_branch, s)
        | some s1 ↦ elim (m.version_create_by_branch ver name s1) [
          | none ↦ (err refused_version, s1)
          | some s2 ↦ (ok name, s2)
        ]
      ]

  -- The height that a query of a handle names.
  abbrev pub height_of : Target → Option BlockNumber → Shared c → BlockHeight
  height_of ledger_state bn w = block_number_to_height c bn (some w.blocks) none
  height_of evm_state bn w = block_number_to_height c bn none (some w.block_hashes)

  unfoldable pub rollback_by_height :
      Option BlockNumber
      → Target
      → (prefix : Bytes) → Shared c
      → Result BranchName RollbackError × db.Store
  unfolding rollback_to_height block_number_to_height
  rollback_by_height bn target prefix w =
      rollback_to_height (height_of target bn w) target prefix w.store

  unfoldable pub remove_branch_by_name : BranchName → Target → db.Store → Option db.Store
  remove_branch_by_name name target s = (management target).branch_remove name s
