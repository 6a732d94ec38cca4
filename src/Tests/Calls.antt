-- ===== src/Tests/Calls.antt =====
-- Queries of logs, and calls of contracts, over the chain of the examples.
use ovr.Prelude.{
  ℕ, ◌≡◌, refl, Bool, true, false, Option, some, none, [], ◌∷◌, ok, ◌==◌, ◌||◌, unwrap_or,
}
use ovr.Primitives.{H160, H256, Bytes}
use ovr.Vsdb.{SameOn}
use ovr.Ledger.Branch.{main_branch_name}
use ovr.Ledger.Heights.{block_number_to_height}
use ovr.Rpc.{Answer}
use ovr.Rpc.Logs.{FilteredParams, Filter}
use ovr.Ethvm.Tx.Exec as Exec
use ovr.Rpc.Calls.{CallRequest, call_contract, call_gas_limit, Resp}
use ovr.Rpc.Calls.Current.{current, call_contract-current}
use ovr.Memory.Store.{Memory, memory}
use ovr.Memory.Machine.{ledger_machine}
use ovr.Memory.Management.{evm_branches, ledger_branches, evm_branches-ManagementLaws}
use ovr.Tests.Data.{unversioned}
use ovr.Tests.Queries.{api}

-- Filters by one address, and blooms that are the list of what they hold.
abbrev holds : Bytes → Option H160 → Bool
holds b none = true
holds [] (some a) = false
holds (x ∷ xs) (some a) = x == a || holds xs (some a)

abbrev params : FilteredParams Bytes
params = record {
  Addresses = H160;
  Topics = H256;
  filter_address = λ a log. log.address == a;
  filter_topics = λ t log. true;
  address_in_bloom = holds;
  topics_in_bloom = λ b t. true;
}

abbrev filter : Filter params
filter = record {
  from_block = none;
  to_block = none;
  block_hash = none;
  address = some 7;
  topics = none;
}

abbrev request : CallRequest
request = record {
  from = some 1;
  to = some 2;
  gas_price = some 2;
  gas = some 100000;
  value = some 5;
  bytes = none;
}

abbrev called : Option (
    Answer ledger_machine evm_branches ledger_branches
      (Resp ledger_machine evm_branches ledger_branches))
called = call_contract ledger_machine evm_branches ledger_branches main_branch_name request none api

abbrev answer : Resp ledger_machine evm_branches ledger_branches
answer =
    unwrap_or (record { evm_resp = false; bytes = []; gas_used = 0 })
      (current ledger_machine evm_branches ledger_branches api main_branch_name request 50000)

abbrev after_call : Memory
after_call = elim called [ some (r, s) ↦ s | none ↦ unversioned ]

called-some : called ≡ some (ok answer, after_call)
unfolding call_contract block_number_to_height
called-some = refl

call_contract-current_example :
    (gas_limit : ℕ) × (call_gas_limit request ≡ some gas_limit)
    × (current ledger_machine evm_branches ledger_branches api main_branch_name request gas_limit
        ≡ some answer)
    × SameOn memory main_branch_name unversioned after_call
call_contract-current_example =
    call_contract-current ledger_machine evm_branches ledger_branches request none api answer
      after_call evm_branches-ManagementLaws called-some
