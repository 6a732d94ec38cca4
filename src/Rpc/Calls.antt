-- ===== src/Rpc/Calls.antt =====
-- ethvm/mod.rs: `call_contract`, a call that is executed and thrown away; rpc/eth.rs: the queries
-- that make one.
pub mod Current
use ovr.Prelude.{
  ℕ, ◌+◌, ◌/◌, ◌%◌, ◌^◌, ◌==◌, Bool, false, Option, none, some, List, [], Result, ok, err, leb,
  if◌then◌else◌, unwrap_or, ◌>>=◌, codes,
}
use ovr.Primitives.{H160, U256, Bytes, u64_max}
use ovr.Vsdb.{BranchName}
use ovr.Ethvm.State as State
use ovr.Ethvm.Tx.{EvmState}
use ovr.Ethvm.Tx.Exec as Exec
use ovr.Ledger.Block.{LedgerCrates}
use ovr.Ledger.Branch.{main_branch_name}
use ovr.Ledger.Heights.{BlockNumber}
use ovr.Ledger.Rollback.{
  Management, RollbackError, evm_state, rollback_to_height, remove_branch_by_name, height_of,
}
use ovr.Rpc.{EthApiImpl, RpcError, call_failed, Answer}

-- `web3_rpc_core::types::CallRequest`, of which the call reads these fields
pub record CallRequest : Type 0 where
  pub from : Option H160
  pub to : Option H160
  pub gas_price : Option U256
  pub gas : Option U256
  pub value : Option U256
  pub bytes : Option Bytes

pub record CallContractResp (ExitReason : Type 0) : Type 0 where
  pub evm_resp : ExitReason
  pub bytes : Bytes
  pub gas_used : ℕ

-- `as_u64` panics where the number does not fit.
abbrev as_u64 : U256 → Option ℕ
as_u64 x = if leb x u64_max then some x else none

-- `checked_div` and its `unwrap`
abbrev checked_div : ℕ → ℕ → Option ℕ
checked_div a b = if b == 0 then none else some (a / b)

abbrev gas_of : Option U256 → Option ℕ
gas_of none = some u64_max
gas_of (some gas) = as_u64 gas

-- The gas of a call: what is given, divided by its price.
unfoldable pub call_gas_limit : CallRequest → Option ℕ
call_gas_limit req = do
  gas_price ← as_u64 (unwrap_or 1 req.gas_price)
  gas ← gas_of req.gas
  checked_div gas gas_price

-- `BASE_GAS`
abbrev pub base_gas : ℕ
base_gas = 21000

module _ (c : LedgerCrates) (evm ledger : Management c.crates.db.Store) where
  open c use {crates}
  open crates use {db}

  abbrev pub Resp : Type 0
  Resp = CallContractResp crates.evm.ExitReason

  -- The state of the EVM that a handle shares.
  abbrev pub evm_of : EthApiImpl c → db.Store → EvmState crates
  evm_of api s = record {
    store = s;
    default_branch = api.default_branch;
    block_hashes = api.shared.block_hashes;
    vicinity = api.vicinity;
  }

  -- What the executor answers on a state.
  abbrev pub respond : CallRequest → (gas_limit : ℕ) → State.StackState crates.meta → Option Resp
  respond req gas_limit s = do
    out ←
        crates.evm.transact_call false s (unwrap_or 0 req.from) (unwrap_or 0 req.to)
          (unwrap_or 0 req.value) (unwrap_or [] req.bytes) gas_limit []
    some (record { evm_resp = out.exit_reason; bytes = out.output; gas_used = out.used_gas })

  abbrev pub call_between :
      Result BranchName RollbackError × db.Store
      → (db.Store → Option Resp)
      → Option (Answer c evm ledger Resp)
  call_between (err e, s) run = some (err call_failed, s)
  call_between (ok name, s) run = do
    resp ← run s
    some (elim (remove_branch_by_name c evm ledger name evm_state s) [
      | none ↦ (err call_failed, s)
      | some s' ↦ (ok resp, s')
    ])

  -- The branch is made, but the call reads the branch that is passed.
  unfoldable pub call_contract :
      BranchName
      → CallRequest
      → Option BlockNumber
      → EthApiImpl c
      → Option (Answer c evm ledger Resp)
  unfolding call_gas_limit rollback_to_height remove_branch_by_name
  call_contract branch req bn api = do
    gas_limit ← call_gas_limit req
    let height = height_of c evm ledger evm_state bn api.shared
    call_between
        (rollback_to_height c evm ledger height evm_state (codes "call_contract") api.shared.store)
        λ s. respond req gas_limit (Exec.start crates (evm_of api s) branch)

  abbrev on_ok : {A B : Type 0} → (A → B) → Answer c evm ledger A → Answer c evm ledger B
  on_ok f (ok a, s) = (ok (f a), s)
  on_ok f (err e, s) = (err e, s)

  unfoldable pub call :
      CallRequest → Option BlockNumber → EthApiImpl c → Option (Answer c evm ledger Bytes)
  unfolding call_contract
  call req bn api = do
    r ← call_contract main_branch_name req bn api
    some (on_ok (λ resp. resp.bytes) r)

  -- The sum of 64 bits wraps in a release build.
  unfoldable pub estimate_gas :
      CallRequest → Option BlockNumber → EthApiImpl c → Option (Answer c evm ledger U256)
  unfolding call_contract
  estimate_gas req bn api = do
    r ← call_contract main_branch_name req bn api
    some (on_ok (λ resp. (resp.gas_used + base_gas) % 2 ^ 64) r)
