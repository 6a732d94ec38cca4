-- ===== src/Tests/Rounds.antt =====
-- A round of the examples: a block is begun, a transaction is delivered, and it is committed.
use ovr.Prelude.{ℕ, ◌≡◌, refl, true, false, none, some, ok, [], ◌∷◌, ◌+◌, unwrap_or}
use ovr.Primitives.{HashValue}
use ovr.BTree as BTree
use ovr.BTree.{get}
use ovr.Ethvm.Stack as Stack
use ovr.Ethvm.State.Refinement as Refinement
use ovr.Ethvm.Stack.Frames as Frames
use ovr.Ethvm.Stack.Flush as Flush
use ovr.Ethvm.Backend as Backend
use ovr.Ethvm.State.CallFrames as CallFrames
use ovr.Ethvm.Tx.Checks.{
  pre_exec, check_gas_price, check_nonce, check_balance, recover_signer, recover_pubkey,
}
use ovr.Ethvm.Tx.{gen_receipt}
use ovr.Ethvm.Tx.Exec as Exec
use ovr.Ledger.Branch.Apply.{apply_versioned, charge_fee}
use ovr.Ethvm.State as State
use ovr.Ledger.Block.{evm_tx}
use ovr.Ledger.Chain.{Ledger, consensus_refresh, default_vicinity}
use ovr.Consensus.{AppCrates, InitalState, begin_block, check_tx, deliver_tx, commit, info}
use ovr.Consensus.Answers.{info-commit}
use ovr.Rpc.{EthApiImpl}
use ovr.Rpc.Accounts.{block_number}
use ovr.Ledger.Branch.{main_branch_name}
use ovr.Memory.Management.{evm_branches, ledger_branches}
use ovr.Memory.Store.{memory-WriteLaws, memory-VersionLaws}
use ovr.Consensus.Apart.{Works, check_tx-Works, deliver_tx-Works}
use ovr.Consensus.Rounds.{
  Run, done, next, begun, delivered, committed, idle, in_block, IsSound, top,
}
use ovr.Consensus.Linked.{Grown, run-IsSound, commit-Grown}
use ovr.Memory.Maps.{list_map-MapxOrdLaws}
use ovr.Memory.Machine.{ledger_machine}
use ovr.Tests.Data.{sending, memory_of_one}
use ovr.Tests.Blocks as Blocks
use ovr.Tests.Blocks.{ledger, proposer}

abbrev app : AppCrates ledger_machine
app = record {
  deserialize = λ bytes. some (evm_tx (sending bytes));
  inital_state = λ bytes. none;
  hex_decode = λ text. some text;
  transact_create2 = λ s caller value code salt limit access.
      some (record { exit_reason = false; output = []; used_gas = 0; state = s });
  set_vsdb_base_dir = true;
  snapshot = some none;
}

ledger-IsSound : IsSound ledger_machine app idle ledger
unfolding get
ledger-IsSound = record {
  keyed = λ h b e. cc;
  deliver = record { in_step = refl; hashed = λ h r e. cc; placed = λ h r e. cc };
  check = record { in_step = refl; hashed = λ h r e. cc; placed = λ h r e. cc };
  phase = tt;
}

begun-step : begin_block ledger_machine app (some (proposer, some 9)) ledger ≡ some Blocks.begun
unfolding begin_block
begun-step = Blocks.begun-some

-- The transaction moves some value.
abbrev taken : ℕ × Ledger ledger_machine
taken = unwrap_or (0, ledger) (deliver_tx ledger_machine app [] Blocks.begun)

taken-some : deliver_tx ledger_machine app [] Blocks.begun ≡ some (0, taken.1)
unfolding deliver_tx consensus_refresh Exec.apply pre_exec recover_signer Exec.exec Exec.settle
    State.deconstruct Flush.deconstruct CallFrames.exec Refinement.run State.inc_nonce
    Stack.inc_nonce Stack.account_mut get State.new Stack.new Stack.known_account Backend.as_backend
    BTree.insert BTree.contains BTree.append Backend.apply Backend.apply_change
    Backend.modify_account Backend.reset_storage Backend.write_slots Flush.account_addresses
    Flush.deletions Flush.modifications Flush.slot_addresses Flush.storage_of Frames.transfer
    Stack.set_account State.transfer check_balance check_gas_price check_nonce recover_pubkey
    Exec.get_backend_hdr apply_versioned charge_fee
taken-some = refl

abbrev ended : HashValue × Ledger ledger_machine
ended = unwrap_or ([], ledger) (commit ledger_machine app taken.1)

ended-some : commit ledger_machine app taken.1 ≡ some (ended.0, ended.1)
unfolding commit deliver_tx consensus_refresh Exec.apply pre_exec recover_signer Exec.exec
    Exec.settle State.deconstruct Flush.deconstruct CallFrames.exec Refinement.run State.inc_nonce
    Stack.inc_nonce Stack.account_mut get State.new Stack.new Stack.known_account Backend.as_backend
    BTree.insert BTree.contains BTree.append Backend.apply Backend.apply_change
    Backend.modify_account Backend.reset_storage Backend.write_slots Flush.account_addresses
    Flush.deletions Flush.modifications Flush.slot_addresses Flush.storage_of Frames.transfer
    Stack.set_account State.transfer check_balance check_gas_price check_nonce recover_pubkey
    Exec.get_backend_hdr apply_versioned charge_fee gen_receipt
ended-some = refl

in_the_block : Run ledger_machine app idle ledger in_block taken.1
in_the_block =
    next idle in_block in_block ledger Blocks.begun taken.1
      (next idle idle in_block ledger ledger Blocks.begun (done idle ledger)
        (begun (some (proposer, some 9)) ledger Blocks.begun begun-step))
      (delivered 0 [] Blocks.begun taken.1 taken-some)

run-IsSound_example : IsSound ledger_machine app idle ended.1
run-IsSound_example =
    run-IsSound ledger_machine app list_map-MapxOrdLaws list_map-MapxOrdLaws idle idle ledger
      ended.1 ledger-IsSound
      (next idle in_block idle ledger taken.1 ended.1 in_the_block
        (committed ended.0 taken.1 ended.1 ended-some))

commit-Grown_example :
    Grown ledger_machine app list_map-MapxOrdLaws list_map-MapxOrdLaws taken.1 ended.1 ended.0
commit-Grown_example =
    commit-Grown ledger_machine app list_map-MapxOrdLaws list_map-MapxOrdLaws ledger taken.1 ended.1
      ended.0 ledger-IsSound in_the_block ended-some

-- The blocks that the queries see after the round.
abbrev serving : EthApiImpl ledger_machine
serving = record {
  shared = ended.1.shared;
  default_branch = main_branch_name;
  vicinity = default_vicinity;
}

info-commit_example :
    (info ledger_machine app ended.1
      ≡ (1 + (top ledger_machine app taken.1).header.height, ended.0))
    × (block_number ledger_machine evm_branches ledger_branches serving
        ≡ ok (1 + (top ledger_machine app taken.1).header.height))
info-commit_example =
    info-commit ledger_machine app list_map-MapxOrdLaws list_map-MapxOrdLaws evm_branches
      ledger_branches ledger taken.1 ended.1 ended.0 serving ledger-IsSound in_the_block ended-some
      refl

-- A genesis that funds two addresses, one of them twice.
abbrev genesis : InitalState
genesis = record { addr_to_amount = (5, 100) ∷ (6, 200) ∷ (5, 300) ∷ []; inital_contracts = [] }

abbrev genesis_app : AppCrates ledger_machine
genesis_app = record app { inital_state = λ bytes. some genesis }

abbrev fresh : Ledger ledger_machine
fresh = record ledger { shared = record ledger.shared { store = memory_of_one } }

-- The same transaction is checked only.
abbrev checked_ledger : ℕ × Ledger ledger_machine
checked_ledger = unwrap_or (0, ledger) (check_tx ledger_machine app 0 [] Blocks.begun)

checked-some :
    check_tx ledger_machine app 0 [] Blocks.begun ≡ some (checked_ledger.0, checked_ledger.1)
unfolding check_tx consensus_refresh Exec.apply pre_exec recover_signer Exec.exec Exec.settle
    State.deconstruct Flush.deconstruct CallFrames.exec Refinement.run State.inc_nonce
    Stack.inc_nonce Stack.account_mut get State.new Stack.new Stack.known_account Backend.as_backend
    BTree.insert BTree.contains BTree.append Backend.apply Backend.apply_change
    Backend.modify_account Backend.reset_storage Backend.write_slots Flush.account_addresses
    Flush.deletions Flush.modifications Flush.slot_addresses Flush.storage_of Frames.transfer
    Stack.set_account State.transfer check_balance check_gas_price check_nonce recover_pubkey
    Exec.get_backend_hdr apply_versioned charge_fee
checked-some = refl

check_tx-Works_example :
    Works ledger_machine app memory-WriteLaws memory-VersionLaws main_branch_name
      (λ x. x.deliver_tx)
      Blocks.begun
      checked_ledger.1
unfolding consensus_refresh
check_tx-Works_example =
    check_tx-Works ledger_machine app memory-WriteLaws memory-VersionLaws main_branch_name 0
      checked_ledger.0 [] Blocks.begun checked_ledger.1 refl refl checked-some

deliver_tx-Works_example :
    Works ledger_machine app memory-WriteLaws memory-VersionLaws main_branch_name
      (λ x. x.check_tx)
      Blocks.begun
      taken.1
unfolding consensus_refresh
deliver_tx-Works_example =
    deliver_tx-Works ledger_machine app memory-WriteLaws memory-VersionLaws main_branch_name 0 []
      Blocks.begun taken.1 refl refl taken-some
