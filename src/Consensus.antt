-- ===== src/Consensus.antt =====
-- consensus/mod.rs: `App`, the handlers that Tendermint calls, over the ledger. `none` is a panic;
-- of an answer only the code is kept, where 0 is a success. ethvm/tx/mod.rs: `inital_create2`.
pub mod Rounds
pub mod Linked
pub mod Answers
pub mod Apart
pub mod Genesis
use ovr.Prelude.{
  ℕ, zero, suc, ◌^◌, ◌==◌, Bool, true, false, not, Option, none, some, List, [], ◌∷◌, ◌||◌, ◌&&◌,
  Result, ok, err, ltb, leb, is_empty, length, if◌then◌else◌, unwrap_or, ◌>>=◌,
}
use ovr.Primitives.{H160, H256, U256, Bytes, HashValue, BlockHeight, u64_max}
use ovr.BTree.{BTreeMap}
use ovr.Vsdb.{BranchName}
use ovr.Ethvm.Backend as Backend
use ovr.Ethvm.Backend.{from_balance, as_backend}
use ovr.Ethvm.State as State
use ovr.Ethvm.Tx.{Executed, EvmState, AccessList}
use ovr.Ethvm.Tx.Exec.{get_backend_hdr, start}
use ovr.Ledger.Block.{Tx, LedgerCrates, default_block}
use ovr.Ledger.Branch.{Shared, StateBranch, last_block, last_block_hash}
use ovr.Ledger.Branch.Apply.{Applied, apply_tx, evm_state}
use ovr.Ledger.Chain as Chain
use ovr.Ledger.Chain.{Ledger}

-- common/mod.rs: `InitalContract` and `InitalState`
pub record InitalContract : Type 0 where
  pub from : H160
  pub salt : Bytes
  pub bytecode : Bytes

pub record InitalState : Type 0 where
  pub addr_to_amount : BTreeMap H160 U256
  pub inital_contracts : List InitalContract

-- The fields of `DaemonCfg` that the application reads.
pub record Cfg : Type 0 where
  pub chain_id : ℕ
  pub chain_name : Bytes
  pub chain_version : Bytes
  pub gas_price : Option ℕ
  pub block_gas_limit : Option ℕ
  pub block_base_fee_per_gas : Option ℕ

-- What the handlers use beside the ledger: serde, the hex crate, the executor's creation of a
-- contract under a given address, the directory of the database, and the file of the snapshot,
-- which can not be read (`none`), is not there, or holds the main branch.
pub record AppCrates (c : LedgerCrates) : Type 0 where
  pub deserialize : Bytes → Option Tx
  pub inital_state : Bytes → Option InitalState
  pub hex_decode : Bytes → Option Bytes
  pub transact_create2 :
      State.StackState c.crates.meta
      → (caller : H160) (value : U256) (init_code : Bytes) (salt : H256) (gas_limit : ℕ)
        (access_list : AccessList)
      → Option (Executed c.crates.meta.StackSubstateMetadata c.crates.evm.ExitReason)
  pub set_vsdb_base_dir : Bool
  pub snapshot : Option (Option (Shared c × StateBranch c))

-- `str::trim`, of ASCII
abbrev is_space : ℕ → Bool
is_space x = x == 32 || (leb 9 x && leb x 13)

abbrev trim_start : Bytes → Bytes
trim_start [] = []
trim_start (x ∷ xs) = if is_space x then trim_start xs else x ∷ xs

abbrev trim_end : Bytes → Bytes
trim_end [] = []
trim_end (x ∷ xs) = let rest = trim_end xs in if is_space x && is_empty rest then [] else x ∷ rest

abbrev pub trim : Bytes → Bytes
trim xs = trim_end (trim_start xs)

-- `[2..]` panics where the text is shorter.
abbrev pub drop_two : Bytes → Option Bytes
drop_two (x ∷ y ∷ rest) = some rest
drop_two _ = none

module _ (c : LedgerCrates) (a : AppCrates c) where
  open c use {crates}
  open crates use {db, evm, crypto}

  -- `inital_create2` with the bytes of the contract: a failure is an error, which panics in
  -- `init_chain`.
  unfoldable pub inital_create2 :
      InitalContract → EvmState crates → BranchName → Option (EvmState crates)
  inital_create2 contract st b = do
    text ← drop_two contract.bytecode
    bytecode ← a.hex_decode (trim text)
    let salt = crypto.keccak256 contract.salt
    out ← a.transact_create2 (start crates st b) contract.from 0 bytecode salt 800000000 []
    if evm.is_succeed out.exit_reason
        then (do
          (changes, logs) ← State.deconstruct out.state
          store ← Backend.apply db (get_backend_hdr crates st b) changes false st.store
          some (record st { store = store }))
        else none

  unfoldable pub insert_accounts : BranchName → BTreeMap H160 U256 → db.Store → Option db.Store
  insert_accounts b [] s = some s
  insert_accounts b ((addr, am) ∷ rest) s =
      if db.writable s b
      then insert_accounts b rest (db.insert_account b addr (from_balance am) s)
      else none

  unfoldable pub create_contracts :
      BranchName → List InitalContract → EvmState crates → Option (EvmState crates)
  unfolding inital_create2
  create_contracts b [] st = some st
  create_contracts b (contract ∷ rest) st = do
    st' ← inital_create2 contract st b
    create_contracts b rest st'

  abbrev with_store : db.Store → Ledger c → Ledger c
  with_store s l = record l { shared = record l.shared { store = s } }

  -- The state of the ledger, which the main branch has before the first block.
  unfoldable pub init_chain : (app_state_bytes : Bytes) → Ledger c → Option (Ledger c)
  unfolding insert_accounts create_contracts
  init_chain app_state_bytes l = if is_empty app_state_bytes then some l else (do
    inital_state ← a.inital_state app_state_bytes
    s ← insert_accounts l.main.default_branch inital_state.addr_to_amount l.shared.store
    st ←
        create_contracts l.main.branch inital_state.inital_contracts
          (evm_state c (record l.shared { store = s }) l.main)
    some (with_store st.store l))

  -- `App::new`
  unfoldable pub new : Cfg → Shared c → Option (Ledger c)
  unfolding Chain.new
  new cfg w =
      Chain.new c cfg.chain_id cfg.chain_name cfg.chain_version cfg.gas_price cfg.block_gas_limit
        cfg.block_base_fee_per_gas w

  unfoldable pub load_or_create : Cfg → Shared c → Option (Ledger c)
  unfolding new Chain.load
  load_or_create cfg w =
      if a.set_vsdb_base_dir
      then elim a.snapshot [
        | none ↦ none
        | some none ↦ new cfg w
        | some (some (w', main)) ↦ Chain.load c w' main
      ]
      else none

  -- The last height, and its hash above the height 0.
  unfoldable pub info : Ledger c → BlockHeight × Bytes
  unfolding last_block
  info l =
      let b = unwrap_or (default_block c) (last_block c l.shared) in
      let h = b.header.height in (h, if ltb 0 h then b.header_hash else [])

  -- `Tx::valid_in_abci`
  abbrev pub valid_in_abci : Tx → Bool
  valid_in_abci tx = true

  abbrev pub code_of : {A E : Type 0} → Result A E → ℕ
  code_of (ok x) = 0
  code_of (err e) = 1

  -- A transaction that can be read is applied to a branch.
  abbrev pub handle : Option Tx → Shared c × StateBranch c → Option (ℕ × Shared c × StateBranch c)
  handle none (w, sb) = some (1, w, sb)
  handle (some tx) (w, sb) =
      if valid_in_abci tx
      then (do (r, w', sb') ← apply_tx c tx (w, sb); some (code_of r, w', sb'))
      else some (1, w, sb)

  -- A check of a transaction that was checked before does nothing.
  unfoldable pub check_tx : (type : ℕ) → Bytes → Ledger c → Option (ℕ × Ledger c)
  unfolding apply_tx
  check_tx type tx l = if not (type == 0) then some (0, l) else (do
    (code, w, sb) ← handle (a.deserialize tx) (l.shared, l.check_tx)
    some (code, record l { shared = w; check_tx = sb }))

  unfoldable pub deliver_tx : Bytes → Ledger c → Option (ℕ × Ledger c)
  unfolding apply_tx
  deliver_tx tx l = do
    (code, w, sb) ← handle (a.deserialize tx) (l.shared, l.deliver_tx)
    some (code, record l { shared = w; deliver_tx = sb })

  -- The header, with the seconds of its time; what is missing is a panic. The snapshot of the disk
  -- that is taken at last is not part of the state.
  unfoldable pub begin_block : Option (Bytes × Option ℕ) → Ledger c → Option (Ledger c)
  unfolding Chain.consensus_refresh
  begin_block header l = do
    (proposer_address, time) ← header
    ts ← time
    Chain.consensus_refresh c proposer_address ts l

  unfoldable pub end_block : Ledger c → Ledger c
  end_block l = l

  -- The hash of the last block, and the ledger.
  unfoldable pub commit : Ledger c → Option (HashValue × Ledger c)
  unfolding Chain.commit last_block_hash
  commit l = do (hash, l') ← Chain.commit c l; some (last_block_hash c l'.shared, l')
