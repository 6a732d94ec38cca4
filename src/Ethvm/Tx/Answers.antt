-- ===== src/Ethvm/Tx/Answers.antt =====
-- ethvm/tx/mod.rs: the answers of `apply`.
use ovr.Prelude.{
  ◌+◌, ◌*◌, ◌≤◌, ◌≡◌, ◌≢◌, Bool, true, false, Option, none, some, Result, ok, err, unwrap_or,
}
use ovr.Primitives.{H160}
use ovr.Vsdb.{BranchName, WriteLaws}
use ovr.Ethvm.Stack.{Frame, root, parent}
use ovr.Ethvm.Stack as Stack
use ovr.Ethvm.Backend.{default_account}
use ovr.Ethvm.Backend.Flush.{Stored}
use ovr.Ethvm.State as State
use ovr.Ethvm.Tx.{TransactionAny, Crates, EvmState, price, gas_limit, value, action, gen_receipt}
use ovr.Ethvm.Tx.Checks.{recover_signer, get_from_to}
use ovr.Ethvm.Tx.Exec as Exec
use ovr.Ethvm.Tx.Exec.{Out, Ret, start, transact, settle, get_backend_hdr, clamp_u64}
use ovr.Ledger.Receipt.{Receipt}

module _ (c : Crates) (laws : WriteLaws c.db) (tx : TransactionAny) (st : EvmState c)
    (b : BranchName) (estimate : Bool) where
  open c use {meta, db, evm}

  -- What a transaction that was executed is charged.
  pub record Paid (ret : Ret c) : Type 0 where
    pub signer : recover_signer c tx ≡ some ret.caller
    pub fee : ret.fee_used ≡ ret.gas_used * price tx
    pub has_gas : gas_limit tx ≢ 0
    pub affordable :
        value tx + price tx * gas_limit tx
        ≤ (unwrap_or default_account (db.account st.store b ret.caller)).balance

  abbrev pub ran : H160 → Option (H160 × Out c)
  ran addr = transact c (action tx) estimate (start c st b) addr tx

  -- The store reads as the journal that the executor ends with says.
  pub record Written (addr : H160) (st' : EvmState c) : Type 0 where
    pub out : H160 × Out c
    pub ended : ran addr ≡ some out
    pub journal : Frame meta.StackSubstateMetadata
    pub is_root : out.1.state.substate ≡ root journal
    pub stored : Stored db laws (get_backend_hdr c st b) st.store journal st'.store

  -- An answer, and the state that is left.
  abbrev pub Answer : Result (Ret c × Receipt) (Option (Ret c)) × EvmState c → Type 0
  Answer (err none, st') = st' ≡ st
  Answer (err (some ret), st') = Paid ret × (ret.success ≡ false) × (st' ≡ st)
  Answer (ok (ret, receipt), st') =
      Paid ret
      × (ret.success ≡ true)
      × (receipt ≡ gen_receipt ret (get_from_to c tx).0 (get_from_to c tx).1)
      × Written ret.caller st'
