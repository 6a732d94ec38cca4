-- ===== src/Lib.antt =====
-- Overeality (OVR), a blockchain node that executes Ethereum transactions over a versioned
-- database and is driven by Tendermint. This library models its core: the journal and the backend
-- of the virtual machine, the transactions, and the branches of the ledger.
--
-- The parts, and how they work together. A block passes through three branches of one database
-- (`Ledger`, ledger/mod.rs): the main one, one that transactions are delivered to and one that
-- they are checked on. A branch (`StateBranch`) applies each transaction: it creates a version,
-- lets the transaction check itself (`pre_exec`, ethvm/tx/mod.rs) and run in the executor of the
-- evm crate, which works on a journal of call frames (`OvrStackState`, ethvm/impls/stack.rs) over
-- a reading of the branch (`OvrBackend`, ethvm/impls/backend.rs); the journal of a success becomes
-- a list of changes that the backend writes to the branch; then the branch takes the fee and
-- records the receipt, or drops the version and takes the fee.
--
-- The files:
-- - Prelude, BTree, Primitives: the library names that are shared, the ordered maps and sets of
--   the standard library as sorted association lists, hashes and 256-bit words as numbers.
-- - Evm, Vsdb: the crates evm and vsdb, which are not part of the repository, as records of
--   operations with the laws that are documented of them. A store is one value that all handles
--   share and that each operation passes on.
-- - Ethvm/Stack (src/ethvm/impls/stack.rs, `OvrStackSubstate`): a journal is a root frame or a
--   child frame over its parent. Stack/Frames has the calls, Stack/Flush `deconstruct`,
--   Stack/Addresses the sets that it builds.
-- - Ethvm/State (`OvrStackState`): the two traits of the evm crate. State/View is what can be
--   observed of a state, with the effect of each write; State/Accounts, State/Slots and
--   State/Refinement compare the journal with it; State/CallFrames runs nested code, which writes,
--   changes the metadata of its frame by `metadata_mut`, and calls.
-- - Ethvm/Backend (src/ethvm/impls/backend.rs): reading a branch and applying changes to it.
--   Backend/Changes is one change, Backend/Plan and Backend/Flush all those of a journal,
--   Backend/Elsewhere what other branches keep.
-- - Ethvm/Tx (src/ethvm/tx/mod.rs, src/ethvm/mod.rs): Tx/Checks is `pre_exec`, Tx/Exec is `exec`
--   and `apply`; Tx/Admission, Tx/Effects and Tx/Answers are about them.
-- - Ledger (src/ledger/mod.rs, src/tx, src/common/mod.rs): Ledger/Receipt, Ledger/Block,
--   Ledger/Branch with Apply (`apply_tx`, `charge_fee`) and Commit, and Ledger/Chain (`Ledger`);
--   Branch/Invariant, Branch/Charge, Branch/Failure, Branch/Sealed and Branch/Joined are about them,
--   and Chain/Rounds about the start of a block. Ledger/Heights is
--   `block_number_to_height`.
--   Ledger/Rollback is `rollback_to_height` with what src/rpc/utils.rs makes of it; Rollback/Names
--   and Rollback/Kept are about the branch that it makes. Branch/Untouched is what no transaction
--   changes, Branch/Elsewhere what it leaves to other branches, Branch/OnTop where a new block
--   stands.
-- - Consensus (src/consensus/mod.rs, `App`): the handlers that Tendermint calls, with
--   `inital_create2` of src/ethvm/tx/mod.rs. Consensus/Rounds has the order of the calls as a
--   relation and what each keeps, Consensus/Linked the chain that they build,
--   Consensus/Genesis the accounts that it starts with, Consensus/Answers what is told about it,
--   Consensus/Apart how the branches of a round stay apart.
-- - Rpc (src/rpc/eth.rs, src/rpc/utils.rs): the queries. Rpc/Accounts, Rpc/Blocks,
--   Rpc/Transactions, Rpc/Logs and Rpc/Calls (with `call_contract` of src/ethvm/mod.rs) each have
--   a module of what they answer; Rpc/Web3 is how a transaction is shown,
--   Transactions/ShownLogs how a log is, Logs/Asked what a query of logs asks for, and
--   Accounts/Reversed which slot an index names. The branches of the EVM's
--   collections and those of the ledger's are managed by two parameters, since one contains the
--   other.
-- - Dev (src/bins/ovr/dev.rs): Dev/Ports is the allocation of ports with its cache, Dev/Nodes the
--   nodes of a local network.
-- - Memory: a database, maps and crates in memory for the examples; Tests runs the program
--   and the theorems on them.
--
-- Conventions. A panic is `none`; an error of the program is `err`, or `none` where the caller
-- stops on it as on a panic. A method that changes its object returns the new one. Numbers are
-- natural numbers, with the bound of 256 bits written out at each checked operation; a sum or a
-- product that does not fit panics, as it does in the crate. The loops run over lists or over a
-- count that the source counts down: `alloc_ports` gives up after 10000 rounds. Only the digits
-- of a number are printed with fuel, its successor, which is more than their count. The default
-- branch of a database handle is part of the handle.
--
-- Not modelled: the executor, its gas meter and its precompiled contracts, signature recovery and
-- hashes, the Merkle tree and the bloom filter, which are parameters; files, sockets, processes,
-- locks and printing; of the queries `send_raw_transaction` and `syncing`, which ask Tendermint over
-- HTTP, and those with a constant answer; the genesis and the files of Tendermint in src/bins, and
-- the options on the command line. The executor answers none where it panics, as it may where
-- `block_hash` of the backend does; its root frame has `u64::MAX` of gas, as in the source, and
-- no gas that it uses is taken to be below the limit of a transaction.
pub mod Prelude
pub mod BTree
pub mod Primitives
pub mod Evm
pub mod Vsdb
pub mod Ethvm
pub mod Ledger
pub mod Consensus
pub mod Dev
pub mod Rpc
pub mod Memory
pub mod Tests
