-- ===== src/Ethvm/Tx/Effects.antt =====
-- ethvm/tx/mod.rs: the run of an executor that changes its state by the methods of
-- ethvm/impls/stack.rs alone, and its settlement.
use native.Mathlib.Nat.{mul-le-mul_right}
use ovr.Prelude.{
  ℕ, ◌*◌, ◌≤◌, ◌<◌, ◌≡◌, refl, ap, ◌∙◌, Bool, true, false, none, some, List, [], ok, arith,
  if◌then◌else◌, Bool-cases, inl, inr,
}
use ovr.Primitives.{u64_max, H160, U256, u256_mod, checked_mul}
use ovr.Evm as Evm
use ovr.Evm.{Apply, Log}
use ovr.Vsdb.{BranchName, WriteLaws}
use ovr.Ethvm.Stack.{Frame, OvrStackSubstate, root, child, parent}
use ovr.Ethvm.Backend.{default_account, as_backend}
use ovr.Ethvm.Backend as Backend
use ovr.Ethvm.Backend.Flush.{Stored, apply-deconstruct}
use ovr.Ethvm.State.{OvrStackState}
use ovr.Ethvm.State as State
use ovr.Ethvm.State.CallFrames.{Code, exec}
use ovr.Ethvm.State.CallFrames.Balance as Balance
use ovr.Ethvm.State.CallFrames.Balance.{Below, Ends, exec-Below}
use ovr.Ethvm.State.CallFrames.Sorted.{IsSortedFrame, IsSortedStack, IsSortedState, exec-IsSorted}
use ovr.Ethvm.Tx.{TransactionAny, TransactionAction, Crates, EvmState}
use ovr.Ethvm.Tx.Exec.{Out, Ret, start, transact, settle, exec_ret, get_backend_hdr}

module _ (c : Crates) where
  open c use {meta, db, evm}

  -- A run of the executor that has come to its end. The gas that it used is a number of 64 bits;
  -- the meter of its root frame has `u64::MAX` of it, whatever the limit of the transaction.
  pub record Ran (s : State.StackState meta) (out : Out c) : Type 0 where
    pub code : Code meta.StackSubstateMetadata
    pub ran : exec meta code s ≡ some (out.state, ok tt)
    pub used : out.used_gas ≤ u64_max

  -- The executor changes its state through the trait and balances its frames.
  abbrev pub ExecutorLaws : Type 0
  ExecutorLaws =
      (to : TransactionAction) (estimate : Bool) (s : State.StackState meta) (addr : H160)
      (tx : TransactionAny) (ran : H160 × Out c)
      → transact c to estimate s addr tx ≡ some ran
      → Ran s ran.1

  -- A run from the state of a new transaction ends in one sorted journal over the same backend.
  pub record Journal (s : State.StackState meta) (t : State.StackState meta) : Type 0 where
    pub frame : Frame meta.StackSubstateMetadata
    pub is_root : t.substate ≡ root frame
    pub backend : t.backend ≡ s.backend
    pub sorted : IsSortedFrame frame

  root_of :
      (s : State.StackState meta) (t : OvrStackSubstate meta.StackSubstateMetadata)
      → parent t ≡ none
      → IsSortedStack t
      → (f : Frame meta.StackSubstateMetadata) × (t ≡ root f) × IsSortedFrame f
  root_of s (root f) h k = (f, refl, k)
  root_of s (child f p) h k = cc

  Ends-some :
      (o : Balance.Out meta) (P : State.StackState meta → Type 0) (t : State.StackState meta)
      → o ≡ some (t, ok tt)
      → Ends meta o P
      → P t
  Ends-some o P t h e = rw (h) at e

  pub Ran-Journal :
      (s : State.StackState meta) (out : Out c)
      → parent s.substate ≡ none
      → IsSortedState meta s
      → Ran s out
      → Journal s out.state
  Ran-Journal s out p k r =
      let below =
        Ends-some (exec meta r.code s) (Below meta s) out.state r.ran (exec-Below meta r.code s) in
      let sorted =
        Ends-some (exec meta r.code s) (IsSortedState meta) out.state r.ran
          (exec-IsSorted meta r.code s k) in
      let (f, e, h) = root_of s out.state.substate (below.0 ∙ p) sorted in
      record { frame = f; is_root = e; backend = below.1; sorted = h }

module _ (c : Crates) (laws : WriteLaws c.db) (st : EvmState c) (b : BranchName) where
  open c use {meta, db, evm}

  -- The fee is the price of the gas that was used.
  pub record Charged (addr : H160) (gas_price : U256) (ret : Ret c) : Type 0 where
    pub caller : ret.caller ≡ addr
    pub fee : ret.fee_used ≡ ret.gas_used * gas_price

  -- A success leaves in the store what the journal of the executor says, a failure leaves the
  -- state of the chain alone.
  pub record Settled (addr : H160) (gas_price : U256) (ran : H160 × Out c) (ret : Ret c)
      (st' : EvmState c) : Type 0 where
    pub charged : Charged addr gas_price ret
    pub failure : ret.success ≡ false → st' ≡ st
    pub success :
        ret.success ≡ true
        → (f : Frame meta.StackSubstateMetadata) × (ran.1.state.substate ≡ root f)
          × Stored db laws (get_backend_hdr c st b) st.store f st'.store

  settle-writes :
      (addr : H160) (gas_price : U256) (contract : H160) (out : Out c)
      (changes : List Apply × List Log) (s' : db.Store)
      → State.deconstruct out.state ≡ some changes
      → Backend.apply db
          (get_backend_hdr c st b)
          (if evm.is_succeed out.exit_reason then changes.0 else [])
          false
          st.store
        ≡ some s'
      → checked_mul out.used_gas gas_price ≡ some (out.used_gas * gas_price)
      → settle c st b addr gas_price (contract, out)
        ≡ some (
          exec_ret c addr contract (out.used_gas * gas_price) changes.1 out,
          record st { store = s' },
        )
  unfolding settle
  settle-writes addr gas_price contract out changes s' e w f = rw (e, w, f) refl

  fee-fits :
      (used gas_price : ℕ)
      → used ≤ u64_max
      → u64_max * gas_price < u256_mod
      → checked_mul used gas_price ≡ some (used * gas_price)
  fee-fits used gas_price u h = ground (arith, mul-le-mul_right gas_price u)

  nothing-written :
      (bad : Bool) (xs : List Apply) (s : db.Store)
      → bad ≡ false
      → Backend.apply db (get_backend_hdr c st b) (if bad then xs else []) false s ≡ some s
  unfolding Backend.apply
  nothing-written bad xs s h = rw h refl

  state-eq :
      (t : State.StackState meta) (f : Frame meta.StackSubstateMetadata) (k : Evm.Backend)
      → t.backend ≡ k
      → t.substate ≡ root f
      → t ≡ record { backend = k; substate = root f }
  state-eq t f k h e = cc

  module _ (d : st.default_branch ≡ b) (w : db.writable st.store b ≡ true) where
    -- The settlement of a run that ended in one sorted journal does not panic.
    pub settle-Settled :
        (addr : H160) (gas_price : U256) (contract : H160) (out : Out c)
        → Journal c (start c st b) out.state
        → out.used_gas ≤ u64_max
        → u64_max * gas_price < u256_mod
        → (ret : Ret c) × (st' : EvmState c) × (settle c st b addr gas_price (contract, out)
            ≡ some (ret, st'))
          × Settled addr gas_price (contract, out) ret st'
    unfolding get_backend_hdr State.new
    settle-Settled addr gas_price contract out j used fits =
        let hdr = get_backend_hdr c st b in
        let (changes, e, s', e', stored) =
          apply-deconstruct db laws hdr st.store j.frame d w j.sorted in
        let same = state-eq out.state j.frame (as_backend db hdr st.store) j.backend j.is_root in
        let e = ap State.deconstruct same ∙ e in
        let fee = fee-fits out.used_gas gas_price used fits in
        elim (Bool-cases (evm.is_succeed out.exit_reason)) [
          | inl good ↦ (
            exec_ret c addr contract (out.used_gas * gas_price) changes.1 out,
            record st { store = s' },
            settle-writes addr gas_price contract out changes s' e (rw good e') fee,
            record {
              charged = record { caller = refl; fee = refl };
              failure = λ h. cc;
              success = λ h. (j.frame, j.is_root, stored);
            },
          )
          | inr bad ↦ (
            exec_ret c addr contract (out.used_gas * gas_price) changes.1 out,
            st,
            settle-writes addr gas_price contract out changes st.store e
                (nothing-written (evm.is_succeed out.exit_reason) changes.0 st.store bad) fee,
            record {
              charged = record { caller = refl; fee = refl };
              failure = λ h. refl;
              success = λ h. cc;
            },
          )
        ]
