-- ===== src/Tests/Queries.antt =====
-- Queries of the examples.
use ovr.Prelude.{
  ℕ, ◌≡◌, refl, true, false, Option, some, none, List, [], ◌∷◌, ok, err, unwrap_or, codes, arith,
}
use ovr.Primitives.{Bytes}
use ovr.BTree.{get}
use ovr.Ethvm.Tx.Checks.{recover_signer}
use ovr.Ledger.Receipt.{Receipt}
use ovr.Ledger.Block.{evm_tx, Block, default_header, block_hash_to_evm_format}
use ovr.Ledger.Branch.{main_branch_name}
use ovr.Ledger.Chain.{default_vicinity}
use ovr.Ledger.Heights.{num, block_number_to_height}
use ovr.Ledger.Rollback.{refused_branch}
use ovr.Ledger.Rollback.Names.{branch_name_injective}
use ovr.Rpc.{EthApiImpl, Answer, rollback}
use ovr.Rpc.Web3.{Transaction}
use ovr.Rpc.Transactions.{Log, transaction_by_hash, transaction_by_block_number_and_index}
use ovr.Rpc.Transactions.First.{Found, transaction_by_hash-Found}
use ovr.Rpc.Transactions.Leftover.{after, refused-transaction_by_block_number_and_index}
use ovr.Rpc.Blocks as Blocks
use ovr.Rpc.Blocks.Numbered.{block_by_number}
use ovr.Rpc.Blocks.Shown.{IsShownBlock, block_by_number-IsShownBlock}
use ovr.Memory.Store.{Memory}
use ovr.Memory.Machine.{ledger_machine, zeros}
use ovr.Rpc.Transactions as Shown
use ovr.Rpc.Transactions.{transaction_receipt}
use ovr.Rpc.Transactions.Last as Last
use ovr.Rpc.Transactions.Last.{transaction_receipt-Found}
use ovr.Memory.Management.{evm_branches, ledger_branches, ledger_branches-ManagementLaws, apart}
use ovr.Tests.Data.{sending, shared, unversioned}

abbrev height : ℕ
height = 5

branch_name_injective_example : height ≡ height
branch_name_injective_example =
    branch_name_injective (codes "balance") height height (omega arith) (omega arith) refl

-- A chain of one block, of one transaction with one log.
abbrev receipt : Receipt
receipt = record {
  tx_hash = zeros 32;
  tx_index = 0;
  from = some 1;
  to = some 2;
  block_gas_used = 21000;
  tx_gas_used = 21000;
  contract_addr = none;
  state_root = none;
  status_code = true;
  logs =
      record {
        address = 7;
        topics = [];
        bytes = [];
        tx_hash = zeros 32;
        tx_index = 0;
        log_index_in_block = 0;
        log_index_in_tx = 0;
        removed = false;
      }
      ∷ [];
}

abbrev pub block : Block (List Bytes)
block = record {
  header = record (default_header ledger_machine) {
    height = 1;
    proposer = zeros 20;
    tx_merkle = record { root_hash = zeros 32; tree = [] };
    receipts = (zeros 32, receipt) ∷ [];
  };
  header_hash = zeros 32;
  txs = evm_tx (sending []) ∷ [];
  bloom = 7 ∷ [];
}

abbrev pub api : EthApiImpl ledger_machine
api = record {
  shared = record shared { block_hashes = (1, 0) ∷ []; blocks = (1, block) ∷ [] };
  default_branch = main_branch_name;
  vicinity = default_vicinity;
}

abbrev seen : Option Transaction
seen = elim (transaction_by_hash ledger_machine 0 api) [ some (ok op) ↦ op | _ ↦ none ]

seen-some : transaction_by_hash ledger_machine 0 api ≡ some (ok seen)
unfolding transaction_by_hash recover_signer get
seen-some = refl

transaction_by_hash-Found_example : Found ledger_machine 0 ((1, block) ∷ []) seen
transaction_by_hash-Found_example = transaction_by_hash-Found ledger_machine 0 api seen seen-some

block-Readable : Last.Readable ledger_machine (1, block)
unfolding block_hash_to_evm_format
block-Readable = (0, refl)

transaction_receipt-Found_example :
    (op : Option Shown.Receipt) × (transaction_receipt ledger_machine 0 api ≡ some op)
    × Last.Found ledger_machine 0 ((1, block) ∷ []) op
transaction_receipt-Found_example =
    transaction_receipt-Found ledger_machine 0 api (block-Readable, tt)

abbrev asked : Answer ledger_machine evm_branches ledger_branches (Option Transaction)
asked =
    unwrap_or (ok none, unversioned)
      (transaction_by_block_number_and_index ledger_machine evm_branches ledger_branches (num 1) 0
        api)

asked-some :
    transaction_by_block_number_and_index ledger_machine evm_branches ledger_branches (num 1) 0 api
    ≡ some (ok seen, asked.1)
unfolding transaction_by_block_number_and_index transaction_by_hash block_number_to_height
    recover_signer get
asked-some = refl

refused-transaction_by_block_number_and_index_example :
    transaction_by_block_number_and_index ledger_machine evm_branches ledger_branches
      (num 1)
      5
      (after ledger_machine evm_branches ledger_branches api asked.1)
    ≡ some (err (rollback refused_branch), asked.1)
refused-transaction_by_block_number_and_index_example =
    refused-transaction_by_block_number_and_index ledger_machine evm_branches ledger_branches
      ledger_branches-ManagementLaws apart 0 0 5 api asked.1 (ok seen) asked-some tt

abbrev shown_block :
    Option (Answer ledger_machine evm_branches ledger_branches (Option (Blocks.Block Bytes)))
shown_block = block_by_number ledger_machine evm_branches ledger_branches (num 1) true api

abbrev complete_block : Option (Blocks.Block Bytes)
complete_block = elim shown_block [ some (ok op, s) ↦ op | _ ↦ none ]

abbrev after_block : Memory
after_block = elim shown_block [ some (r, s) ↦ s | none ↦ unversioned ]

shown_block-some : shown_block ≡ some (ok complete_block, after_block)
unfolding block_by_number block_number_to_height recover_signer get
shown_block-some = refl

block_by_number-IsShownBlock_example : IsShownBlock ledger_machine api 1 true complete_block
block_by_number-IsShownBlock_example =
    block_by_number-IsShownBlock ledger_machine evm_branches ledger_branches 1 true api
      complete_block after_block shown_block-some
