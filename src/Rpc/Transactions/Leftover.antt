-- ===== src/Rpc/Transactions/Leftover.antt =====
-- rpc/eth.rs: the branch that a query leaves behind in the collections of the ledger.
use mathlib.Core.Path.{subst}
use mathlib.Core.Option.{some-injective}
use ovr.Prelude.{
  ℕ, suc, ◌≡◌, refl, sym, ap, ◌∙◌, true, Option, some, Result, ok, err, Option-cases, inl, inr,
  bind_some, codes,
}
use ovr.Primitives.{Bytes, BlockHeight}
use ovr.Vsdb.{BranchName}
use ovr.Ledger.Block.{LedgerCrates}
use ovr.Ledger.Branch.{main_branch_name}
use ovr.Ledger.Heights.{num, block_number_to_height}
use ovr.Ledger.Rollback.{
  Management, ledger_state, evm_state, RollbackError, refused_branch, rollback_to_height,
  branch_name, remove_branch_by_name,
}
use ovr.Ledger.Rollback.Kept.{ManagementLaws, Made, made, rollback_to_height-Made}
use ovr.Rpc.{EthApiImpl, RpcError, rollback, finish}
use ovr.Rpc.Web3.{Transaction}
use ovr.Rpc.Transactions.{
  Shown, show_at, show_between, drop_if_shown, transaction_by_block_number_and_index,
}

module _ (c : LedgerCrates) (evm ledger : Management c.crates.db.Store) where
  open c use {crates, blocks}
  open crates use {db}

  -- The handle after a query, which changed nothing but the store.
  abbrev pub after : EthApiImpl c → db.Store → EthApiImpl c
  after api s = record api { shared = record api.shared { store = s } }

  Made-exists :
      (height : BlockHeight) (prefix : Bytes) (s t : db.Store) (name : BranchName)
      → ManagementLaws db ledger
      → Made c evm ledger height ledger_state prefix s (ok name) t
      → (name ≡ branch_name prefix height) × (ledger.branch_exists t name ≡ true)
  Made-exists height prefix s t _ laws (made s1 s2 h k) =
      (refl, laws.exists_at_version _ _ _ s1 s2 k ∙ laws.exists_at_create _ _ s s1 h)

  finish-exists :
      {A : Type 0} (name : BranchName) (a : A) (s : db.Store)
      → ((b q : BranchName) (u t : db.Store)
          → evm.branch_remove b u ≡ some t
          → ledger.branch_exists t q ≡ ledger.branch_exists u q)
      → ledger.branch_exists s name ≡ true
      → ledger.branch_exists (finish c evm ledger name evm_state a s).1 name ≡ true
  unfolding finish remove_branch_by_name
  finish-exists name a s apart h = elim (Option-cases (evm.branch_remove name s)) [
    | inl e ↦ rw (finish, e) h
    | inr (t, e) ↦ rw (finish, e) (apart name name s t e ∙ h)
  ]

  -- A branch that is there is refused a second time.
  refused_again :
      (n : BlockHeight) (prefix : Bytes) (s : db.Store)
      → ManagementLaws db ledger
      → ledger.branch_exists s (branch_name prefix (suc n)) ≡ true
      → rollback_to_height c evm ledger (suc n) ledger_state prefix s ≡ (err refused_branch, s)
  unfolding rollback_to_height
  refused_again n prefix s laws h =
      rw (rollback_to_height, laws.refused_where_exists _ main_branch_name s h) refl

  -- An answer that does not say that the branch was refused.
  abbrev pub Proceeds : {A : Type 0} → Result A RpcError → Type 0
  Proceeds (ok a) = Unit
  Proceeds (err (rollback e)) = ⊥
  Proceeds (err _) = Unit

  drop_if_shown-exists :
      (name : BranchName) (s : db.Store) (r : Result (Option Transaction) RpcError)
      → ((b q : BranchName) (u t : db.Store)
          → evm.branch_remove b u ≡ some t
          → ledger.branch_exists t q ≡ ledger.branch_exists u q)
      → ledger.branch_exists s name ≡ true
      → ledger.branch_exists (drop_if_shown c evm ledger name s r).1 name ≡ true
  drop_if_shown-exists name s (ok op) apart h = finish-exists name op s apart h
  drop_if_shown-exists name s (err e) apart h = h

  show_between-exists :
      (height : BlockHeight) (prefix : Bytes) (s : db.Store) (show : db.Store → Shown c)
      (o : Result BranchName RollbackError) (s1 t : db.Store)
      (r : Result (Option Transaction) RpcError)
      → ManagementLaws db ledger
      → ((b q : BranchName) (u t : db.Store)
          → evm.branch_remove b u ≡ some t
          → ledger.branch_exists t q ≡ ledger.branch_exists u q)
      → Made c evm ledger height ledger_state prefix s o s1
      → show_between c evm ledger (o, s1) show ≡ some (r, t)
      → Proceeds r
      → ledger.branch_exists t (branch_name prefix height) ≡ true
  show_between-exists height prefix s show (err e) s1 t r laws apart m h p =
      absurd (subst Proceeds (sym (ap (λ x. x.0) (some-injective _ _ h))) p)
  show_between-exists height prefix s show (ok name) s1 t r laws apart m h p =
      let (e, there) = Made-exists height prefix s s1 name laws m in
      let (q, shown, h1) = bind_some (show s1) _ (r, t) h in
      subst (λ x. ledger.branch_exists x.1 (branch_name prefix height) ≡ true)
        (some-injective _ _ h1)
        (subst (λ b. ledger.branch_exists (drop_if_shown c evm ledger name s1 q).1 b ≡ true) e
          (drop_if_shown-exists name s1 q apart there))

  -- Over collections of the ledger whose branches do what their documentation says, and whose
  -- own branches a removal in those of the EVM leaves alone: once a query for a transaction by
  -- the number of a block, from 1 on, has got its branch, whatever it answers, the next query by
  -- this number is refused, and leaves the store alone.
  pub refused-transaction_by_block_number_and_index :
      (laws : ManagementLaws db ledger)
      (apart : (b q : BranchName) (u t : db.Store)
        → evm.branch_remove b u ≡ some t
        → ledger.branch_exists t q ≡ ledger.branch_exists u q)
      (n index later_index : ℕ) (api : EthApiImpl c) (s : db.Store)
      (r : Result (Option Transaction) RpcError)
      → transaction_by_block_number_and_index c evm ledger (num (suc n)) index api ≡ some (r, s)
      → Proceeds r
      → transaction_by_block_number_and_index c evm ledger (num (suc n)) later_index (after api s)
        ≡ some (err (rollback refused_branch), s)
  unfolding transaction_by_block_number_and_index block_number_to_height
  refused-transaction_by_block_number_and_index laws apart n index later_index api s r h p =
      let prefix = codes "transaction_by_block_number_and_index" in
      let made_before =
        rollback_to_height-Made c evm ledger (suc n) ledger_state prefix api.shared.store in
      let there =
        show_between-exists (suc n) prefix api.shared.store (show_at c evm ledger (suc n) index api)
          _ _ s r laws apart made_before h p in
      ap (λ x. show_between c evm ledger x (show_at c evm ledger (suc n) later_index (after api s)))
        (refused_again n prefix s laws there)
