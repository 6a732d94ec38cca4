-- ===== src/Rpc/Calls/Current.antt =====
-- ethvm/mod.rs, rpc/eth.rs: the state that a call of a query runs on, and the gas that it is
-- estimated to use.
use ovr.Prelude.{
  ℕ, ◌≡◌, refl, sym, ap, ◌∙◌, fun_ext, false, Option, some, Result, ok, err, leb, if◌then◌else◌,
  none, is_some, unwrap_or, bind_some, arith, Option-cases, inl, inr, codes,
}
use ovr.Primitives.{H160, H256, Bytes, u64_max, BlockHeight}
use ovr.BTree.Keys.{same, bytes_key}
use ovr.Evm.{Backend}
use ovr.Vsdb.{BranchName, OvrAccount, SameOn}
use ovr.Ethvm.Backend.{OvrBackend, as_backend, account_basic, account_code}
use ovr.Ethvm.State as State
use ovr.Ethvm.Tx.Exec as Exec
use ovr.Ledger.Block.{LedgerCrates}
use ovr.Ledger.Branch.{main_branch_name}
use ovr.Ledger.Heights.{BlockNumber}
use ovr.Ledger.Rollback.{
  Management, RollbackError, evm_state, rollback_to_height, remove_branch_by_name, branch_name,
  height_of,
}
use ovr.Ledger.Rollback.Kept.{
  ManagementLaws, SameOn-trans, Made, made, rollback_to_height-Made, Made-SameOn,
}
use ovr.Rpc.{EthApiImpl}
use ovr.Rpc.Calls.{CallRequest, call_gas_limit, Resp, evm_of, respond, call_between, call_contract}

-- The backend over what a branch reads.
abbrev backend_of : OvrBackend → (H160 → Option OvrAccount) → (H160 → H256 → Option H256) → Backend
backend_of b account slot = record {
  gas_price = b.vicinity.gas_price;
  origin = b.vicinity.origin;
  block_hash =
      λ number. if leb number u64_max then some (unwrap_or 0 (b.block_hashes number)) else none;
  block_number = b.vicinity.block_number;
  block_coinbase = b.vicinity.block_coinbase;
  block_timestamp = b.vicinity.block_timestamp;
  block_difficulty = b.vicinity.block_difficulty;
  block_gas_limit = b.vicinity.block_gas_limit;
  block_base_fee_per_gas = b.vicinity.block_base_fee_per_gas;
  chain_id = b.vicinity.chain_id;
  exists = λ a. is_some (account a);
  basic = λ a. account_basic (account a);
  code = λ a. account_code (account a);
  storage = λ a k. unwrap_or 0 (slot a k);
  original_storage = λ a k. some (unwrap_or 0 (slot a k));
}

module _ (c : LedgerCrates) (evm ledger : Management c.crates.db.Store) where
  open c use {crates}
  open crates use {db}

  -- Stores that read the same on a branch are the same to the executor on it.
  start-SameOn :
      (api : EthApiImpl c) (b : BranchName) (s t : db.Store)
      → SameOn db b s t
      → Exec.start crates (evm_of c evm ledger api t) b
        ≡ Exec.start crates (evm_of c evm ledger api s) b
  unfolding as_backend Exec.get_backend_hdr
  start-SameOn api b s t h =
      let o = Exec.get_backend_hdr crates (evm_of c evm ledger api s) b in
      let m = crates.evm.new_metadata u64_max in
      ap (λ f. State.new m (backend_of o f (db.slot t b))) (fun_ext (λ a. sym (h.account a)))
      ∙ ap (λ f. State.new m (backend_of o (db.account s b) f))
          (fun_ext (λ a. fun_ext (λ k. sym (h.slot a k))))

  -- What the call answers on the state of a branch as it is.
  abbrev pub current : EthApiImpl c → BranchName → CallRequest → ℕ → Option (Resp c evm ledger)
  current api branch req gas_limit =
      respond c evm ledger req gas_limit
        (Exec.start crates (evm_of c evm ledger api api.shared.store) branch)

  call_between_ok :
      (height : BlockHeight) (prefix : Bytes) (s s1 t : db.Store)
      (o : Result BranchName RollbackError) (run : db.Store → Option (Resp c evm ledger))
      (resp : Resp c evm ledger)
      → ManagementLaws db evm
      → same main_branch_name (branch_name prefix height) ≡ false
      → Made c evm ledger height evm_state prefix s o s1
      → call_between c evm ledger (o, s1) run ≡ some (ok resp, t)
      → (run s1 ≡ some resp) × SameOn db main_branch_name s s1 × SameOn db main_branch_name s t
  unfolding remove_branch_by_name
  call_between_ok height prefix s s1 t (err e) run resp laws other m h = absurd (ground arith)
  call_between_ok height prefix s s1 t (ok name) run resp laws other (made a b f g) h =
      let kept =
        Made-SameOn c evm ledger height evm_state prefix main_branch_name s b _ laws other
          (made a b f g) in
      let (found, ran, h1) = bind_some (run b) _ (ok resp, t) h in
      elim (Option-cases (evm.branch_remove (branch_name prefix height) b)) [
        | inl e ↦ absurd (ground (arith, e))
        | inr (u, e) ↦
            let same-store : u ≡ t = ground (arith, e) in
            let same-resp : found ≡ resp = ground (arith, e) in
            (
              ran ∙ ap some same-resp,
              kept,
              SameOn-trans db main_branch_name s b t kept
                  (laws.same_at_remove _ main_branch_name b t (e ∙ ap some same-store) other),
            )
      ]

  -- Over collections of the EVM whose branches do what their documentation says: whatever block a
  -- call of a query names, where it answers, it is executed on the main branch as it is now, and
  -- not as it was at that block; the main branch reads the same afterwards.
  pub call_contract-current :
      (req : CallRequest) (bn : Option BlockNumber) (api : EthApiImpl c) (resp : Resp c evm ledger)
      (t : db.Store)
      → ManagementLaws db evm
      → call_contract c evm ledger main_branch_name req bn api ≡ some (ok resp, t)
      → (gas_limit : ℕ) × (call_gas_limit req ≡ some gas_limit)
        × (current api main_branch_name req gas_limit ≡ some resp)
        × SameOn db main_branch_name api.shared.store t
  unfolding call_contract branch_name
  call_contract-current req bn api resp t laws h =
      let (gas_limit, e, h1) = bind_some (call_gas_limit req) _ (ok resp, t) h in
      let height = height_of c evm ledger evm_state bn api.shared in
      let s = api.shared.store in
      let prefix = codes "call_contract" in
      let r = rollback_to_height c evm ledger height evm_state prefix s in
      let run : db.Store → Option (Resp c evm ledger) = λ s.
        respond c evm ledger req gas_limit
          (Exec.start crates (evm_of c evm ledger api s) main_branch_name) in
      let (ran, before, after) =
        call_between_ok height prefix s r.1 t r.0 run resp laws refl
          (rollback_to_height-Made c evm ledger height evm_state prefix s) h1 in
      (
        gas_limit,
        e,
        ap (respond c evm ledger req gas_limit)
              (sym (start-SameOn api main_branch_name s r.1 before))
            ∙ ran,
        after,
      )
