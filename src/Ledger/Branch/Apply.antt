-- ===== src/Ledger/Branch/Apply.antt =====
-- ledger/mod.rs: `apply_tx`, what a branch does with a transaction, and the fee that it takes.
-- `none` is a panic.
use mathlib.Core.Option as Option
use ovr.Prelude.{
  ◌+◌, false, Option, none, some, [], ◌∷◌, ◌++◌, Result, ok, err, length, ◌==◌, if◌then◌else◌,
  ◌>>=◌,
}
use ovr.Primitives.{H160, U256, HashValue, saturating_sub}
use ovr.BTree.{insert}
use ovr.BTree.Keys.{bytes_key}
use ovr.Vsdb.{BranchName, VsVersion}
use ovr.Ethvm.Tx.{EvmState, ExecRet, gen_logs}
use ovr.Ethvm.Tx.Exec as Exec
use ovr.Ledger.Receipt.{Receipt, add_logs}
use ovr.Ledger.Block.{Tx, evm_tx, native_tx, NativeTx, NativeRet, LedgerCrates, tx_hash_of}
use ovr.Ledger.Branch.{Shared, StateBranch}

-- What a transaction of either kind was executed to.
pub data TxRet (ExitReason : Type 0) : Type 0 where
  evm_ret : ExecRet ExitReason → TxRet ExitReason
  native_ret : NativeRet → TxRet ExitReason

-- Why a transaction is not in the block: the database refused a version, or the transaction
-- failed, with what it is charged for where it was executed.
pub data ApplyError (ExitReason : Type 0) : Type 0 where
  refused_version : ApplyError ExitReason
  failed : Option (TxRet ExitReason) → ApplyError ExitReason

module _ {ExitReason : Type 0} where
  abbrev pub caller_of : TxRet ExitReason → H160
  caller_of (evm_ret ret) = ret.caller
  caller_of (native_ret ret) = ret.caller

  abbrev pub fee_of : TxRet ExitReason → U256
  fee_of (evm_ret ret) = ret.fee_used
  fee_of (native_ret ret) = ret.fee_used

-- `native::Tx::apply`, which is not written yet and refuses every transaction.
unfoldable pub apply_native : NativeTx → Result NativeRet (Option NativeRet)
apply_native tx = err none

module _ (c : LedgerCrates) where
  open c use {crates, MerkleTreeStore, encode_version, blocks}
  open crates use {db, hashes, evm}

  abbrev pub Ret : Type 0
  Ret = Exec.Ret crates

  -- The state of the EVM that a branch works on.
  abbrev pub evm_state : Shared c → StateBranch c → EvmState crates
  evm_state w sb = record {
    store = w.store;
    default_branch = sb.default_branch;
    block_hashes = w.block_hashes;
    vicinity = sb.vicinity;
  }

  -- Nothing is read where there is no fee; an account that is missing is a panic.
  unfoldable pub charge_fee : H160 → U256 → BranchName → db.Store → Option db.Store
  charge_fee caller amount b s = if amount == 0 then some s else elim (db.account s b caller) [
    | none ↦ none
    | some account ↦
        if db.writable s b
        then some (
            db.insert_account b caller
              (record account { balance = saturating_sub account.balance amount }) s)
        else none
  ]

  -- `create_version_if_first_tx_failed`
  unfoldable pub ensure_version : BranchName → db.Store → Option db.Store
  ensure_version b s =
      if db.has_versions s b
      then some s
      else db.version_create (encode_version (record { block_height = 0; tx_position = 0 })) b s

  -- The transaction, whose hash is given, joins the block.
  abbrev pub push_tx : Tx → HashValue → StateBranch c → StateBranch c
  push_tx tx hash sb = record sb {
    tx_hashes_in_process = sb.tx_hashes_in_process ++ (hash ∷ []);
    block_in_process = record sb.block_in_process { txs = sb.block_in_process.txs ++ (tx ∷ []) };
  }

  -- A transaction of the EVM joins the block with its receipt.
  unfoldable pub record_tx : Tx → Ret → Receipt → StateBranch c → StateBranch c
  unfolding tx_hash_of gen_logs add_logs
  record_tx tx ret receipt sb =
      let hash = tx_hash_of c tx in
      let receipt' = record (add_logs (gen_logs ret hash) receipt) {
        tx_hash = hash;
        tx_index = length sb.tx_hashes_in_process;
      } in
      let pushed = push_tx tx hash sb in
      let block = pushed.block_in_process in
      let header = record block.header { receipts = insert hash receipt' block.header.receipts } in
      record pushed { block_in_process = record block { header = header } }

  -- What a failed transaction leaves: its version is gone, and the fee of its gas is taken.
  unfoldable pub refuse_tx :
      BranchName
      → Option (TxRet evm.ExitReason)
      → db.Store
      → Option (ApplyError evm.ExitReason × db.Store)
  unfolding ensure_version charge_fee
  refuse_tx b e s = elim (db.version_pop b s) [
    | none ↦ none
    | some popped ↦ elim e [
      | none ↦ some (failed none, popped)
      | some ret ↦ elim (ensure_version b popped) [
        | none ↦ some (refused_version, popped)
        | some versioned ↦ do
          charged ← charge_fee (caller_of ret) (fee_of ret) b versioned
          some (failed (some ret), charged)
      ]
    ]
  ]

  abbrev pub Applied : Type 0
  Applied = Result (Unit {0}) (ApplyError evm.ExitReason) × Shared c × StateBranch c

  abbrev pub put_refused :
      Shared c → StateBranch c → Option (ApplyError evm.ExitReason × db.Store) → Option Applied
  put_refused w sb none = none
  put_refused w sb (some (e, store)) = some (err e, record w { store = store }, sb)

  abbrev refuse : Option (TxRet evm.ExitReason) → Shared c → StateBranch c → Option Applied
  refuse e w sb = put_refused w sb (refuse_tx sb.branch e w.store)

  -- `apply_tx`, after the version of the transaction is created
  unfoldable pub apply_versioned : Tx → Shared c → StateBranch c → Option Applied
  unfolding charge_fee record_tx refuse_tx apply_native tx_hash_of
  apply_versioned (evm_tx tx) w sb = elim (Exec.apply crates tx (evm_state w sb) sb.branch false) [
    | none ↦ none
    | some (ok (ret, receipt), st) ↦ do
      store ← charge_fee ret.caller ret.fee_used sb.branch st.store
      some (ok tt, record w { store = store }, record_tx (evm_tx tx) ret receipt sb)
    | some (err e, st) ↦ refuse (Option.map evm_ret e) (record w { store = st.store }) sb
  ]
  apply_versioned (native_tx tx) w sb = elim (apply_native tx) [
    | ok ret ↦ do
      store ← charge_fee ret.caller ret.fee_used sb.branch w.store
      some (
        ok tt,
        record w { store = store },
        push_tx (native_tx tx) (tx_hash_of c (native_tx tx)) sb,
      )
    | err e ↦ refuse (Option.map native_ret e) w sb
  ]

  unfoldable pub apply_tx : Tx → Shared c × StateBranch c → Option Applied
  unfolding apply_versioned
  apply_tx tx (w, sb) =
      let ver : VsVersion = record {
        block_height = sb.block_in_process.header.height;
        tx_position = 1 + length sb.tx_hashes_in_process;
      } in
      elim (db.version_create (encode_version ver) sb.branch w.store) [
        | none ↦ some (err refused_version, w, sb)
        | some store ↦ apply_versioned tx (record w { store = store }) sb
      ]
