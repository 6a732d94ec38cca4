-- ===== src/Tests/Blocks.antt =====
-- Transactions and blocks of the examples.
use ovr.Prelude.{◌≡◌, refl, false, some, [], ◌∷◌, arith, unwrap_or, if◌then◌else◌, ok}
use ovr.Primitives.{Bytes}
use ovr.BTree as BTree
use ovr.BTree.{get}
use ovr.BTree.Keys.{same, bytes_key}
use ovr.Ethvm.Stack as Stack
use ovr.Ethvm.State.Refinement as Refinement
use ovr.Ethvm.Stack.Frames as Frames
use ovr.Ethvm.Stack.Flush as Flush
use ovr.Ethvm.Backend as Backend
use ovr.Ethvm.State as State
use ovr.Ethvm.State.CallFrames as CallFrames
use ovr.Ledger.Block.{Block, evm_tx, new_block}
use ovr.Ledger.Branch.{prepare_next_block, next_block}
use ovr.Ledger.Branch.Apply.{apply_tx, apply_versioned, Applied, charge_fee, evm_state}
use ovr.Ledger.Branch.Charge.{Taken, charge_fee-Taken}
use ovr.Ledger.Branch.Joined.{Joined, apply_tx-Joined}
use ovr.Ledger.Chain.{Ledger, consensus_refresh, refresh_inner, refresh_branches, follow_main}
use ovr.Ledger.Chain.Rounds.{AllStart, consensus_refresh-AllStart}
use ovr.Ledger.Branch.OnTop.{OnTop}
use ovr.Ledger.Branch.Invariant.{
  IsConsistent, apply_tx-IsConsistent, prepare_next_block-IsConsistent,
}
use ovr.Ethvm.Tx as Tx
use ovr.Ethvm.Tx.Checks.{
  pre_exec, check_gas_price, check_nonce, check_balance, recover_signer, recover_pubkey,
}
use ovr.Ethvm.Tx.Exec as Exec
use ovr.Ethvm.Tx.Admission.{Admitted, pre_exec-Admitted, Admitted-pre_exec}
use ovr.Ledger.Branch.{
  Shared, StateBranch, main_branch_name, check_tx_branch_name, deliver_tx_branch_name,
}
use ovr.Memory.Store.{Memory, memory-WriteLaws}
use ovr.Ledger.Branch.Commit.{commit}
use ovr.Ledger.Branch.Sealed.{Extended, commit-Extended}
use ovr.Memory.Maps.{list_map-MapxOrdLaws}
use ovr.Memory.Machine.{machine, ledger_machine}
use ovr.Tests.Data.{
  sending, rich, reading, unversioned, memory_of_one, evm_of_one, shared, deliver_tx,
}

sending_accepted :
    pre_exec machine (sending []) evm_of_one deliver_tx_branch_name ≡ ok (1, rich, 10)
unfolding pre_exec check_gas_price check_nonce check_balance recover_signer recover_pubkey
sending_accepted = refl

pre_exec-Admitted_example :
    Admitted machine (sending []) evm_of_one deliver_tx_branch_name 1 rich 10
pre_exec-Admitted_example =
    pre_exec-Admitted machine (sending []) evm_of_one deliver_tx_branch_name 1 rich 10
      sending_accepted

Admitted-pre_exec_example :
    pre_exec machine (sending []) evm_of_one deliver_tx_branch_name ≡ ok (1, rich, 10)
Admitted-pre_exec_example =
    Admitted-pre_exec machine (sending []) evm_of_one deliver_tx_branch_name 1 rich 10 (
      pre_exec-Admitted machine (sending []) evm_of_one deliver_tx_branch_name 1 rich 10
        sending_accepted)

-- The version of the transaction is there.
abbrev versioned : Memory
versioned = record unversioned {
  versions = λ b. if same b deliver_tx_branch_name then ([], reading) ∷ [] else [];
}

abbrev failed_ret : Exec.Ret machine
failed_ret = record {
  success = false;
  gas_used = 21000;
  fee_used = 210000;
  exit_reason = false;
  extra_data = [];
  caller = 1;
  contract_addr = 2;
  logs = [];
}

abbrev failed_state : Tx.EvmState machine
failed_state = evm_state ledger_machine (record shared { store = versioned }) deliver_tx

charge_fee-Taken_example :
    (s : Memory) × (charge_fee ledger_machine 1 7 deliver_tx_branch_name memory_of_one ≡ some s)
    × Taken ledger_machine memory-WriteLaws deliver_tx_branch_name 1 7 memory_of_one s
charge_fee-Taken_example =
    charge_fee-Taken ledger_machine memory-WriteLaws 1 7 deliver_tx_branch_name memory_of_one refl
      (omega arith)

-- The block that is worked on: one of a transaction that succeeded, at height 1.
abbrev empty_branch : StateBranch ledger_machine
empty_branch = record deliver_tx { block_in_process = next_block ledger_machine shared [] 7 }

empty_branch-IsConsistent : IsConsistent ledger_machine empty_branch
unfolding next_block new_block get
empty_branch-IsConsistent = record { in_step = refl; hashed = λ h r e. cc; placed = λ h r e. cc }

prepared :
    prepare_next_block ledger_machine [] 7 (shared, deliver_tx)
    ≡ some (ok (record shared { store = versioned }, empty_branch))
unfolding prepare_next_block
prepared = refl

prepare_next_block-IsConsistent_example :
    IsConsistent ledger_machine empty_branch
    × OnTop ledger_machine shared [] 7 empty_branch.block_in_process
    × (empty_branch.tx_hashes_in_process ≡ [])
prepare_next_block-IsConsistent_example =
    prepare_next_block-IsConsistent ledger_machine [] 7 shared (record shared { store = versioned })
      deliver_tx empty_branch prepared

-- The transaction is delivered on the empty block.
abbrev delivered : Applied ledger_machine
delivered =
    unwrap_or (ok tt, shared, empty_branch)
      (apply_tx ledger_machine (evm_tx (sending [])) (shared, empty_branch))

delivered-some :
    apply_tx ledger_machine (evm_tx (sending [])) (shared, empty_branch)
    ≡ some (ok tt, delivered.1, delivered.2)
unfolding apply_tx Exec.apply pre_exec recover_signer Exec.exec Exec.settle State.deconstruct
    Flush.deconstruct CallFrames.exec Refinement.run State.inc_nonce Stack.inc_nonce
    Stack.account_mut get State.new Stack.new Stack.known_account Backend.as_backend BTree.insert
    BTree.contains BTree.append Backend.apply Backend.apply_change Backend.modify_account
    Backend.reset_storage Backend.write_slots Flush.account_addresses Flush.deletions
    Flush.modifications Flush.slot_addresses Flush.storage_of Frames.transfer Stack.set_account
    State.transfer check_balance check_gas_price check_nonce recover_pubkey Exec.get_backend_hdr
    apply_versioned charge_fee
delivered-some = refl

apply_tx-IsConsistent_example : IsConsistent ledger_machine delivered.2
apply_tx-IsConsistent_example =
    apply_tx-IsConsistent ledger_machine (evm_tx (sending [])) shared delivered.1 empty_branch
      delivered.2 (ok tt) empty_branch-IsConsistent delivered-some

-- The empty block at height 1 is committed on the empty chain.
abbrev committed : Shared ledger_machine × StateBranch ledger_machine
committed = unwrap_or (shared, empty_branch) (commit ledger_machine (shared, empty_branch))

committed-some : commit ledger_machine (shared, empty_branch) ≡ some committed
unfolding commit next_block
committed-some = refl

commit-Extended_example : Extended ledger_machine shared committed.0 empty_branch
commit-Extended_example =
    commit-Extended ledger_machine list_map-MapxOrdLaws list_map-MapxOrdLaws shared committed.0
      empty_branch committed.1 (λ h b e. cc) committed-some

apply_tx-Joined_example : Joined ledger_machine (evm_tx (sending [])) empty_branch delivered.2
apply_tx-Joined_example =
    apply_tx-Joined ledger_machine (sending []) shared delivered.1 empty_branch delivered.2
      delivered-some

abbrev pub proposer : Bytes
proposer =
    1 ∷ 2 ∷ 3 ∷ 4 ∷ 5 ∷ 6 ∷ 7 ∷ 8 ∷ 9 ∷ 10 ∷ 11 ∷ 12 ∷ 13 ∷ 14 ∷ 15 ∷ 16 ∷ 17 ∷ 18 ∷ 19 ∷ 20 ∷ []

abbrev pub ledger : Ledger ledger_machine
ledger = record {
  shared = shared;
  main = record deliver_tx { branch = main_branch_name; default_branch = main_branch_name };
  deliver_tx = deliver_tx;
  check_tx = record deliver_tx { branch = check_tx_branch_name };
}

abbrev pub begun : Ledger ledger_machine
begun = unwrap_or ledger (consensus_refresh ledger_machine proposer 9 ledger)

pub begun-some : consensus_refresh ledger_machine proposer 9 ledger ≡ some begun
unfolding consensus_refresh refresh_inner refresh_branches follow_main prepare_next_block
begun-some = refl

consensus_refresh-AllStart_example :
    (block : Block ledger_machine.MerkleTreeStore) × OnTop ledger_machine shared proposer 9 block
    × AllStart ledger_machine block begun
    × (begun.shared.blocks ≡ [])
consensus_refresh-AllStart_example =
    consensus_refresh-AllStart ledger_machine proposer 9 ledger begun begun-some
