-- ===== src/Ledger/Chain.antt =====
-- ledger/mod.rs: `Ledger`, the three branches of the state, and how a block passes from one to
-- the next. `none` is an error, on which each caller stops, or a panic.
pub mod Rounds
use ovr.Prelude.{
  ℕ, ◌-◌, ◌^◌, Bool, true, false, Option, none, some, [], Result, ok, err, if◌then◌else◌, unwrap_or,
  ◌>>=◌,
}
use ovr.Primitives.{Bytes, HashValue}
use ovr.Vsdb.{BranchName}
use ovr.Ethvm.Backend.{OvrVicinity}
use ovr.Ethvm.Tx.{gas_price_min}
use ovr.Ledger.Block.{LedgerCrates, default_block}
use ovr.Ledger.Branch.{
  Shared, StateBranch, main_branch_name, deliver_tx_branch_name, check_tx_branch_name,
  prepare_next_block, clean_up, last_block_hash,
}
use ovr.Ledger.Branch.Commit as Commit

abbrev pub default_vicinity : OvrVicinity
default_vicinity = record {
  gas_price = 0;
  origin = 0;
  chain_id = 0;
  block_number = 0;
  block_coinbase = 0;
  block_timestamp = 0;
  block_difficulty = 0;
  block_gas_limit = 0;
  block_base_fee_per_gas = 0;
}

-- `Ledger`, with what its branches share.
pub record Ledger (c : LedgerCrates) : Type 0 where
  pub shared : Shared c
  pub main : StateBranch c
  pub deliver_tx : StateBranch c
  pub check_tx : StateBranch c

-- A result whose error stops the caller.
abbrev pub stop_on_err : {A E : Type 0} → Result A E → Option A
stop_on_err (ok a) = some a
stop_on_err (err e) = none

module _ (c : LedgerCrates) where
  open c use {crates}
  open crates use {db}

  abbrev check_branch : BranchName → db.Store → Option (Unit {0})
  check_branch b s = if db.branch_exists s b then some tt else none

  -- `StateBranch::new`
  unfoldable pub new_state_branch : BranchName → db.Store → Option (StateBranch c)
  new_state_branch branch s = do
    _ ← check_branch branch s
    some (record {
      default_branch = branch;
      vicinity = default_vicinity;
      branch = branch;
      tx_hashes_in_process = [];
      block_in_process = default_block c;
    })

  -- `Ledger::new`, on the empty collections.
  unfoldable pub new :
      (chain_id : ℕ) (chain_name chain_version : Bytes)
      (gas_price block_gas_limit block_base_fee_per_gas : Option ℕ)
      → Shared c
      → Option (Ledger c)
  unfolding new_state_branch
  new chain_id chain_name chain_version gas_price block_gas_limit base_fee w = do
    s1 ← db.branch_create db.initial_branch main_branch_name w.store
    _ ← check_branch main_branch_name s1
    s2 ← db.version_create db.initial_version main_branch_name s1
    s3 ← db.set_chain_id main_branch_name chain_id s2
    s4 ← db.set_chain_name main_branch_name chain_name s3
    s5 ← db.set_chain_version main_branch_name chain_version s4
    s6 ← db.set_gas_price main_branch_name (unwrap_or gas_price_min gas_price) s5
    s7 ← db.set_block_gas_limit main_branch_name (unwrap_or (2 ^ 128 - 1) block_gas_limit) s6
    s8 ← db.set_block_base_fee_per_gas main_branch_name (unwrap_or 0 base_fee) s7
    main ← new_state_branch main_branch_name s8
    s9 ← db.branch_create main_branch_name deliver_tx_branch_name s8
    s10 ← db.branch_create main_branch_name check_tx_branch_name s9
    deliver_tx ← new_state_branch deliver_tx_branch_name s10
    check_tx ← new_state_branch check_tx_branch_name s10
    some (record {
      shared = record w { store = s10 };
      main = main;
      deliver_tx = deliver_tx;
      check_tx = check_tx;
    })

  -- The two working branches are created again from the main one.
  unfoldable pub refresh_branches : db.Store → Option db.Store
  refresh_branches s = do
    s1 ← db.branch_remove check_tx_branch_name s
    s2 ←
        if db.branch_exists s1 deliver_tx_branch_name
        then db.branch_remove deliver_tx_branch_name s1
        else some s1
    s3 ← db.branch_create_by_base_branch deliver_tx_branch_name main_branch_name s2
    db.branch_create_by_base_branch check_tx_branch_name main_branch_name s3

  -- `state = main.state.clone()` and `branch_set_default`; the block in process stays.
  unfoldable pub follow_main : StateBranch c → StateBranch c → db.Store → Option (StateBranch c)
  follow_main main sb s = do
    _ ← check_branch sb.branch s
    some (record sb { default_branch = sb.branch; vicinity = main.vicinity })

  abbrev pub prepare_all : Bytes → ℕ → Ledger c → Option (Ledger c)
  prepare_all proposer timestamp l = do
    r1 ← prepare_next_block c proposer timestamp (l.shared, l.main)
    (w1, main) ← stop_on_err r1
    r2 ← prepare_next_block c proposer timestamp (w1, l.deliver_tx)
    (w2, deliver_tx) ← stop_on_err r2
    r3 ← prepare_next_block c proposer timestamp (w2, l.check_tx)
    (w3, check_tx) ← stop_on_err r3
    some (record { shared = w3; main = main; deliver_tx = deliver_tx; check_tx = check_tx })

  unfoldable pub refresh_inner : Bytes → ℕ → Bool → Ledger c → Option (Ledger c)
  unfolding clean_up prepare_next_block refresh_branches follow_main
  refresh_inner proposer timestamp is_loading l = do
    w ← if is_loading then stop_on_err (clean_up c l.shared l.main.branch) else some l.shared
    s ← refresh_branches w.store
    deliver_tx ← follow_main l.main l.deliver_tx s
    check_tx ← follow_main l.main l.check_tx s
    let l' : Ledger c = record l {
      shared = record w { store = s };
      deliver_tx = deliver_tx;
      check_tx = check_tx;
    }
    if is_loading then some l' else prepare_all proposer timestamp l'

  unfoldable pub consensus_refresh : Bytes → ℕ → Ledger c → Option (Ledger c)
  unfolding refresh_inner
  consensus_refresh proposer timestamp l = refresh_inner proposer timestamp false l

  unfoldable pub loading_refresh : Ledger c → Option (Ledger c)
  unfolding refresh_inner
  loading_refresh l = refresh_inner [] 0 true l

  -- The block of the transactions that were delivered becomes the main branch's.
  unfoldable pub commit : Ledger c → Option (HashValue × Ledger c)
  unfolding Commit.commit last_block_hash
  commit l = do
    s ← db.branch_merge_to_parent deliver_tx_branch_name l.shared.store
    let main = record l.main {
      block_in_process = l.deliver_tx.block_in_process;
      tx_hashes_in_process = l.deliver_tx.tx_hashes_in_process;
    }
    let deliver_tx = record l.deliver_tx {
      block_in_process = l.main.block_in_process;
      tx_hashes_in_process = l.main.tx_hashes_in_process;
    }
    (w, main') ← Commit.commit c (record l.shared { store = s }, main)
    some (last_block_hash c w, record l { shared = w; main = main'; deliver_tx = deliver_tx })

  -- `load_from_snapshot`, of the main branch that was read back.
  unfoldable pub load : Shared c → StateBranch c → Option (Ledger c)
  unfolding loading_refresh
  load w main = loading_refresh (record {
    shared = w;
    main = main;
    deliver_tx = record main { branch = deliver_tx_branch_name };
    check_tx = record main { branch = check_tx_branch_name };
  })
