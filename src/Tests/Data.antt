-- ===== src/Tests/Data.antt =====
-- Transactions, stores and branches for the examples.
use ovr.Prelude.{false, none, some, [], ◌∷◌, ◌==◌, if◌then◌else◌}
use ovr.Primitives.{Bytes}
use ovr.Vsdb.{OvrAccount}
use ovr.Ethvm.Tx.{TransactionAny, legacy, call, EvmState}
use ovr.Ledger.Block.{default_block}
use ovr.Ledger.Branch.{Shared, StateBranch, deliver_tx_branch_name}
use ovr.Ledger.Chain.{default_vicinity}
use ovr.Memory.Store.{Memory, Reading}
use ovr.Memory.Machine.{machine, ledger_machine}

-- A transaction of the sender 1 to the address 2, with some input.
abbrev pub sending : Bytes → TransactionAny
sending input = legacy (record {
  nonce = 0;
  gas_price = 10;
  gas_limit = 30000;
  action = call 2;
  value = 5;
  input = input;
  r = 1;
  s = 0;
  standard_v = 0;
})

abbrev pub rich : OvrAccount
rich = record { nonce = 0; balance = 1000000; code = [] }

abbrev pub reading : Reading
reading = record {
  account = λ a. if a == 1 then some rich else none;
  slot = λ a k. if a == 7 then some 9 else none;
}

abbrev pub unversioned : Memory
unversioned = record {
  now = λ b. reading;
  versions = λ b. [];
  gas_price = some 10;
  chain_branches = λ b. false;
}

abbrev pub memory_of_one : Memory
memory_of_one = record unversioned { versions = λ b. ([], reading) ∷ [] }

abbrev pub evm_of_one : EvmState machine
evm_of_one = record {
  store = memory_of_one;
  default_branch = deliver_tx_branch_name;
  block_hashes = [];
  vicinity = default_vicinity;
}

abbrev pub shared : Shared ledger_machine
shared = record { store = unversioned; block_hashes = []; blocks = [] }

abbrev pub deliver_tx : StateBranch ledger_machine
deliver_tx = record {
  default_branch = deliver_tx_branch_name;
  vicinity = default_vicinity;
  branch = deliver_tx_branch_name;
  tx_hashes_in_process = [];
  block_in_process = default_block ledger_machine;
}
