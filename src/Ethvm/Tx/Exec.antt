-- ===== src/Ethvm/Tx/Exec.antt =====
-- ethvm/tx/mod.rs: the execution of a transaction by the executor of the evm crate, what it
-- writes to the branch, and `apply`. `none` is a panic.
use ovr.Prelude.{
  ℕ, Bool, false, Option, none, some, List, [], Result, ok, err, leb, if◌then◌else◌, ◌>>=◌,
}
use ovr.Primitives.{H160, U256, u64_max, checked_mul}
use ovr.Evm.{Log}
use ovr.Vsdb.{BranchName}
use ovr.Ethvm.Backend.{OvrBackend, as_backend}
use ovr.Ethvm.Backend as Backend
use ovr.Ethvm.State.{OvrStackState}
use ovr.Ethvm.State as State
use ovr.Ethvm.Tx.{
  TransactionAny, TransactionAction, call, create, Crates, EvmState, Executed, ExecRet, gas_limit,
  value, input, action, access_list, gen_receipt,
}
use ovr.Ethvm.Tx.Checks.{pre_exec, get_from_to}
use ovr.Ledger.Receipt.{Receipt}

-- `gas_limit.try_into().unwrap_or(u64::MAX)`
abbrev pub clamp_u64 : U256 → ℕ
clamp_u64 x = if leb x u64_max then x else u64_max

module _ (c : Crates) where
  open c use {meta, db, hashes, evm}

  abbrev pub Out : Type 0
  Out = Executed meta.StackSubstateMetadata evm.ExitReason

  abbrev pub Ret : Type 0
  Ret = ExecRet evm.ExitReason

  unfoldable pub get_backend_hdr : EvmState c → BranchName → OvrBackend
  get_backend_hdr st b = record {
    branch = b;
    default_branch = st.default_branch;
    block_hashes = hashes.get st.block_hashes;
    vicinity = st.vicinity;
  }

  -- The address of the contract, and what the executor returns. A creation has no output.
  abbrev pub transact :
      TransactionAction → Bool → State.StackState meta → H160 → TransactionAny → Option (H160 × Out)
  transact (call target) estimate s addr tx = do
    out ←
        evm.transact_call estimate s addr target (value tx) (input tx) (clamp_u64 (gas_limit tx))
          (access_list tx)
    some (target, out)
  transact create estimate s addr tx = do
    out ←
        evm.transact_create estimate s addr (value tx) (input tx) (clamp_u64 (gas_limit tx))
          (access_list tx)
    some (evm.create_address s addr, record out { output = [] })

  -- The state that the executor starts from.
  abbrev pub start : EvmState c → BranchName → State.StackState meta
  start st b = State.new (evm.new_metadata u64_max) (as_backend db (get_backend_hdr st b) st.store)

  abbrev pub exec_ret : H160 → H160 → U256 → List Log → Out → Ret
  exec_ret addr contract_addr fee_used logs out = record {
    success = evm.is_succeed out.exit_reason;
    gas_used = out.used_gas;
    fee_used = fee_used;
    exit_reason = out.exit_reason;
    extra_data = out.output;
    caller = addr;
    contract_addr = contract_addr;
    logs = logs;
  }

  -- After the executor has run: the changes of a success are written to the branch.
  unfoldable pub settle :
      EvmState c → BranchName → H160 → U256 → H160 × Out → Option (Ret × EvmState c)
  settle st b addr gas_price (contract_addr, out) = do
    (changes, logs) ← State.deconstruct out.state
    let written = if evm.is_succeed out.exit_reason then changes else []
    store ← Backend.apply db (get_backend_hdr st b) written false st.store
    fee_used ← checked_mul out.used_gas gas_price
    some (exec_ret addr contract_addr fee_used logs out, record st { store = store })

  unfoldable pub exec :
      TransactionAny → H160 → EvmState c → BranchName → U256 → Bool → Option (Ret × EvmState c)
  exec tx addr st b gas_price estimate = do
    ran ← transact (action tx) estimate (start st b) addr tx
    settle st b addr gas_price ran

  -- The receipt of a success; what was charged for, of a failure.
  abbrev pub outcome : TransactionAny → Ret → Result (Ret × Receipt) (Option Ret)
  outcome tx ret =
      let (from, to) = get_from_to c tx in
      if ret.success then ok (ret, gen_receipt ret from to) else err (some ret)

  unfoldable pub apply :
      TransactionAny
      → EvmState c
      → BranchName
      → Bool
      → Option (Result (Ret × Receipt) (Option Ret) × EvmState c)
  apply tx st b estimate = elim (pre_exec c tx st b) [
    | err e ↦ some (err none, st)
    | ok (addr, account, gas_price) ↦ do
      (ret, st') ← exec tx addr st b gas_price estimate
      some (outcome tx ret, st')
  ]
