-- ===== src/Ledger/Branch/Elsewhere.antt =====
-- ledger/mod.rs, ethvm/tx/mod.rs: what a transaction leaves to the branches that it does not
-- work on.
use mathlib.Core.Option.{some-injective}
use mathlib.Core.Path.{subst}
use mathlib.Core.Option as Option
use ovr.Prelude.{
  ◌≡◌, refl, sym, ap, ◌∙◌, ◌==◌, Bool, true, false, Option, none, some, List, [], arith, bind_some,
  ◌>>=◌, if◌then◌else◌, Bool-cases, Option-cases, Result-cases, inl, inr, Result, ok, err,
}
use ovr.Primitives.{H160, U256, Bytes, checked_mul, saturating_sub}
use ovr.BTree.Keys.{same, bytes_key}
use ovr.Evm.{Apply}
use ovr.Vsdb.{BranchName, WriteLaws, VersionLaws}
use ovr.Ethvm.Backend as Backend
use ovr.Ethvm.Backend.Elsewhere.{
  SameState, same_state, chain, of_same, insert_account-SameState, apply-SameState,
}
use ovr.Ethvm.State as State
use ovr.Ethvm.Tx.{TransactionAny, EvmState, action}
use ovr.Ethvm.Tx.Checks.{pre_exec}
use ovr.Ethvm.Tx.Exec as Exec
use ovr.Ethvm.Tx.Exec.{get_backend_hdr}
use ovr.Ledger.Block.{Tx, evm_tx, native_tx, LedgerCrates}
use ovr.Ledger.Branch.{Shared, StateBranch}
use ovr.Ledger.Branch.Apply.{
  evm_ret, put_refused, TxRet, caller_of, fee_of, failed, ApplyError, apply_tx, apply_versioned,
  apply_native, refuse_tx, ensure_version, charge_fee, evm_state,
}
use ovr.Ledger.Branch.Failure.{next_version, ensure_version-Same}

module _ (c : LedgerCrates) (laws : WriteLaws c.crates.db) (versions : VersionLaws c.crates.db)
    (q : BranchName) where
  open c use {crates, encode_version}
  open crates use {db, evm}

  abbrev Same : db.Store → db.Store → Type 0
  Same s t = SameState db q s t

  -- A failure writes nothing, and a success only elsewhere.
  abbrev Left : Bool → db.Store → db.Store → Type 0
  Left true s t = Same s t
  Left false s t = t ≡ s

  written-Left :
      (good : Bool) (o : Backend.OvrBackend) (changes : List Apply) (s t : db.Store)
      → same q o.branch ≡ false
      → same q o.default_branch ≡ false
      → Backend.apply db o (if good then changes else []) false s ≡ some t
      → Left good s t
  unfolding Backend.apply
  written-Left true o changes s t other other_default h =
      apply-SameState db laws q o other other_default changes false s t h
  written-Left false o changes s t other other_default h = ground (arith, h)

  settle-Left :
      (st st' : EvmState crates) (b : BranchName) (addr : H160) (price : U256)
      (ran : H160 × Exec.Out crates) (ret : Exec.Ret crates)
      → same q b ≡ false
      → same q st.default_branch ≡ false
      → Exec.settle crates st b addr price ran ≡ some (ret, st')
      → Left ret.success st.store st'.store
  unfolding Exec.settle get_backend_hdr
  settle-Left st st' b addr price ran ret other other_default h =
      let (changes, e1, h1) = bind_some (State.deconstruct ran.1.state) _ (ret, st') h in
      let (s, e2, h2) =
        bind_some
          (Backend.apply db (get_backend_hdr crates st b)
            (if evm.is_succeed ran.1.exit_reason then changes.0 else []) false st.store)
          _ (ret, st') h1 in
      let (fee, e3, h3) = bind_some (checked_mul ran.1.used_gas price) _ (ret, st') h2 in
      let e = some-injective _ _ h3 in
      subst (λ (x : Exec.Ret crates × EvmState crates). Left x.0.success st.store x.1.store) e
        (written-Left (evm.is_succeed ran.1.exit_reason) (get_backend_hdr crates st b) changes.0
          st.store s other other_default e2)

  charge_fee-Same :
      (caller : H160) (amount : U256) (b : BranchName) (s t : db.Store)
      → same q b ≡ false
      → charge_fee c caller amount b s ≡ some t
      → Same s t
  unfolding charge_fee
  charge_fee-Same caller amount b s t other h = elim (Bool-cases (amount == 0)) [
    | inl free ↦ same_state db q s t (ground (arith, free))
    | inr costs ↦ elim (Option-cases (db.account s b caller)) [
      | inl missing ↦ absurd (ground (arith, costs, missing))
      | inr (account, e) ↦ elim (Bool-cases (db.writable s b)) [
        | inr closed ↦ absurd (ground (arith, costs, e, closed))
        | inl open' ↦
            let charged = record account { balance = saturating_sub account.balance amount } in
            chain db q s (db.insert_account b caller charged s) t
              (insert_account-SameState db laws q b other caller charged s open')
              (same_state db q _ t (ground (arith, costs, e, open')))
      ]
    ]
  ]

  abbrev charge :
      TxRet evm.ExitReason → BranchName → db.Store → Option (ApplyError evm.ExitReason × db.Store)
  charge ret b versioned = do
    charged ← charge_fee c (caller_of ret) (fee_of ret) b versioned
    some (failed (some ret), charged)

  -- What a refused transaction that was charged leaves.
  charged-Same :
      (b : BranchName) (ret : TxRet evm.ExitReason) (popped versioned t : db.Store)
      (answer : ApplyError evm.ExitReason)
      → same q b ≡ false
      → ensure_version c b popped ≡ some versioned
      → charge ret b versioned ≡ some (answer, t)
      → Same popped t
  charged-Same b ret popped versioned t answer other h k =
      let (same', w) = ensure_version-Same c laws versions b popped versioned h in
      let (u, e, h1) =
        bind_some (charge_fee c (caller_of ret) (fee_of ret) b versioned) _ (answer, t) k in
      chain db q popped versioned t (of_same db q popped versioned (same' q)) (
        chain db q versioned u t
          (charge_fee-Same (caller_of ret) (fee_of ret) b versioned u other e)
          (same_state db q u t
            (ap (λ (x : ApplyError evm.ExitReason × db.Store). x.1) (some-injective _ _ h1))))

  -- The version that is dropped is the one that was created, with nothing written to it.
  refuse_tx-Same :
      (ver : Bytes) (b : BranchName) (e : Option (TxRet evm.ExitReason)) (s s1 t : db.Store)
      (answer : ApplyError evm.ExitReason)
      → same q b ≡ false
      → db.version_create ver b s ≡ some s1
      → refuse_tx c b e s1 ≡ some (answer, t)
      → Same s t
  unfolding refuse_tx
  refuse_tx-Same ver b e s s1 t answer other created h =
      let (popped, pop, back) = versions.pop-create ver b s s1 created in
      let dropped = of_same db q s popped (back q) in
      elim (Option-cases e) [
        | inl none' ↦
            chain db q s popped t dropped (same_state db q popped t (ground (arith, pop, none', h)))
        | inr (ret, is) ↦ elim (Option-cases (ensure_version c b popped)) [
          | inl refused ↦
              chain db q s popped t dropped
                (same_state db q popped t (ground (arith, pop, is, refused, h)))
          | inr (versioned, v) ↦ chain db q s popped t dropped (
              charged-Same b ret popped versioned t answer other v
                (rw (refuse_tx, pop, is, v) at h))
        ]
      ]

  -- What the execution of a transaction leaves: nothing is written where it failed.
  abbrev After : {A E : Type 0} → Result A E → db.Store → db.Store → Type 0
  After (ok r) s t = Same s t
  After (err e) s t = t ≡ s

  outcome-After :
      (tx : TransactionAny) (ret : Exec.Ret crates) (s t : db.Store)
      → Left ret.success s t
      → After (Exec.outcome crates tx ret) s t
  outcome-After tx ret s t h = elim (Bool-cases ret.success) [
    | inl good ↦ let h' : Left true s t = rw good at h in rw good h'
    | inr bad ↦ let h' : Left false s t = rw bad at h in rw bad h'
  ]

  Exec_apply-After :
      (tx : TransactionAny) (st st' : EvmState crates) (b : BranchName) (r : Result _ _)
      → same q b ≡ false
      → same q st.default_branch ≡ false
      → Exec.apply crates tx st b false ≡ some (r, st')
      → After r st.store st'.store
  unfolding Exec.apply Exec.exec
  Exec_apply-After tx st st' b r other other_default h =
      elim (Result-cases (pre_exec crates tx st b)) [
        | inr (e, refused) ↦
            subst (λ (x : Result _ _ × EvmState crates). After x.0 st.store x.1.store)
              (some-injective _ _ (rw (Exec.apply, refused) at h)) refl
        | inl ((addr, account, price), accepted) ↦
            let (ran, e, h1) =
              bind_some (Exec.exec crates tx addr st b price false) _ (r, st')
                (rw (Exec.apply, accepted) at h) in
            let (o, _, settled) =
              bind_some (Exec.transact crates (action tx) false (Exec.start crates st b) addr tx) _
                ran e in
            subst (λ (x : Result _ _ × EvmState crates). After x.0 st.store x.1.store)
              (some-injective _ _ h1)
              (outcome-After tx ran.0 st.store ran.1.store
                (settle-Left st ran.1 b addr price o ran.0 other other_default settled))
      ]

  put_refused-store :
      (o : Option (ApplyError evm.ExitReason × db.Store)) (w w' : Shared c) (sb sb' : StateBranch c)
      (r : _)
      → put_refused c w sb o ≡ some (r, w', sb')
      → (answer : ApplyError evm.ExitReason) × (o ≡ some (answer, w'.store))
  put_refused-store none w w' sb sb' r h = cc
  put_refused-store (some (e, s)) w w' sb sb' r h = (e, ap (λ x. some (e, x)) (ground (arith, h)))

  -- The state of another branch reads the same after any transaction.
  apply_versioned-Same :
      (ver : Bytes) (tx : Tx) (s : db.Store) (w w' : Shared c) (sb sb' : StateBranch c) (r : _)
      → same q sb.branch ≡ false
      → same q sb.default_branch ≡ false
      → db.version_create ver sb.branch s ≡ some w.store
      → apply_versioned c tx w sb ≡ some (r, w', sb')
      → Same s w'.store
  unfolding apply_versioned apply_native
  apply_versioned-Same ver (native_tx tx) s w w' sb sb' r other other_default created h =
      let (answer, e) = put_refused-store (refuse_tx c sb.branch none w.store) w w' sb sb' r h in
      refuse_tx-Same ver sb.branch none s w.store w'.store answer other created e
  apply_versioned-Same ver (evm_tx tx) s w w' sb sb' r other other_default created h =
      elim (Option-cases (Exec.apply crates tx (evm_state c w sb) sb.branch false)) [
        | inl panic ↦ absurd (ground (arith, panic))
        | inr ((err e, st), applied) ↦
            let kept =
              Exec_apply-After tx (evm_state c w sb) st sb.branch (err e) other other_default
                applied in
            let (answer, k) =
              put_refused-store (refuse_tx c sb.branch (Option.map evm_ret e) st.store)
                (record w { store = st.store }) w' sb sb' r (rw (apply_versioned, applied) at h) in
            refuse_tx-Same ver sb.branch (Option.map evm_ret e) s w.store w'.store answer other
              created (ap (λ x. refuse_tx c sb.branch (Option.map evm_ret e) x) (sym kept) ∙ k)
        | inr ((ok (ret, receipt), st), applied) ↦
            let (u, charged, h1) =
              bind_some (charge_fee c ret.caller ret.fee_used sb.branch st.store) _ (r, w', sb')
                (rw (apply_versioned, applied) at h) in
            chain db q s w.store w'.store
              (of_same db q s w.store (versions.same_at_create ver sb.branch q s w.store created))
              (chain db q w.store st.store w'.store
                (Exec_apply-After tx (evm_state c w sb) st sb.branch (ok (ret, receipt)) other
                  other_default applied)
                (chain db q st.store u w'.store
                  (charge_fee-Same ret.caller ret.fee_used sb.branch st.store u other charged)
                  (same_state db q u w'.store (ground (arith, h1)))))
      ]

  pub apply_tx-SameState :
      (tx : Tx) (w w' : Shared c) (sb sb' : StateBranch c) (r : _)
      → same q sb.branch ≡ false
      → same q sb.default_branch ≡ false
      → apply_tx c tx (w, sb) ≡ some (r, w', sb')
      → SameState db q w.store w'.store
  unfolding apply_tx
  apply_tx-SameState tx w w' sb sb' r other other_default h =
      let ver = next_version c laws versions sb in
      elim (Option-cases (db.version_create ver sb.branch w.store)) [
        | inl refused ↦ same_state db q w.store w'.store (ground (arith, refused))
        | inr (s, created) ↦
            apply_versioned-Same ver tx w.store (record w { store = s }) w' sb sb' r other
              other_default created (rw (apply_tx, created) at h)
      ]
