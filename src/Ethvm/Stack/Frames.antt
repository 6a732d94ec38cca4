-- ===== src/Ethvm/Stack/Frames.antt =====
-- ethvm/impls/stack.rs: entering and leaving call frames, transfers of value, and what is cold.
-- A method that may fail returns the journal that it leaves behind beside its result; `none` is
-- the panic of `expect` on a root journal.
use ovr.Prelude.{
  ℕ, ◌-◌, Bool, false, not, Option, none, some, [], ◌∷◌, ◌++◌, Result, ok, err, ltb, if◌then◌else◌,
}
use ovr.Primitives.{H160, H256, saturating_add}
use ovr.BTree.{BTreeMap, BTreeSet, insert, append, retain, contains}
use ovr.BTree.Keys.{nat_key, pair_key}
use ovr.Evm.{Transfer, Backend, Metadata}
use ovr.Ethvm.Stack.{
  OvrStackAccount, Frame, OvrStackSubstate, root, child, top, with_top, new_frame, with_balance,
  account_mut, set_account,
}

-- The set of the addresses that the exited frame has reset.
unfoldable pub resets : BTreeMap H160 OvrStackAccount → BTreeSet H160
resets [] = []
resets ((address, account) ∷ m) = if account.reset then insert address tt (resets m) else resets m

-- The slots that a commit keeps: those of no reset address.
unfoldable pub kept_slots :
    BTreeSet H160 → BTreeMap (H160 × H256) H256 → BTreeMap (H160 × H256) H256
kept_slots gone = retain (λ slot. not (contains slot.0 gone))

module _ (meta : Metadata) where
  open meta use {
    StackSubstateMetadata, ExitError, out_of_fund, spit_child, swallow_commit, swallow_revert,
    swallow_discard, Accessed, accessed, accessed_addresses, accessed_storage,
  }

  abbrev pub Substate : Type 0
  Substate = OvrStackSubstate StackSubstateMetadata

  unfoldable pub enter : ℕ → Bool → Substate → Substate
  enter gas_limit is_static s =
      child (new_frame (spit_child (top s).metadata gas_limit is_static)) s

  -- The journal after a commit that the metadata accepts.
  unfoldable pub merge : Frame StackSubstateMetadata → Substate → Substate
  merge exited = with_top (λ f. record f {
    logs = f.logs ++ exited.logs;
    accounts = append f.accounts exited.accounts;
    storages = append (kept_slots (resets exited.accounts) f.storages) exited.storages;
    deletes = append f.deletes exited.deletes;
  })

  abbrev pub with_metadata : StackSubstateMetadata → Substate → Substate
  with_metadata m = with_top (λ f. record f { metadata = m })

  -- The rest of a commit, on the result of `swallow_commit`.
  abbrev pub finish_commit :
      Frame StackSubstateMetadata
      → Substate
      → StackSubstateMetadata × Result (Unit {0}) ExitError
      → Substate × Result (Unit {0}) ExitError
  finish_commit exited p (m, ok _) = (merge exited (with_metadata m p), ok tt)
  finish_commit exited p (m, err e) = (with_metadata m p, err e)

  unfoldable pub exit_commit : Substate → Option (Substate × Result (Unit {0}) ExitError)
  exit_commit (root f) = none
  exit_commit (child f p) = some (finish_commit f p (swallow_commit (top p).metadata f.metadata))

  unfoldable pub exit_revert : Substate → Option (Substate × Result (Unit {0}) ExitError)
  exit_revert (root f) = none
  exit_revert (child f p) =
      let (m, r) = swallow_revert (top p).metadata f.metadata in some (with_metadata m p, r)

  unfoldable pub exit_discard : Substate → Option (Substate × Result (Unit {0}) ExitError)
  exit_discard (root f) = none
  exit_discard (child f p) =
      let (m, r) = swallow_discard (top p).metadata f.metadata in some (with_metadata m p, r)

  abbrev pub local_is_accessed : (Accessed → Bool) → StackSubstateMetadata → Bool
  local_is_accessed f m = elim (accessed m) [ none ↦ false | some a ↦ f a ]

  unfoldable pub recursive_is_cold : (Accessed → Bool) → Substate → Bool
  recursive_is_cold f (root t) = not (local_is_accessed f t.metadata)
  recursive_is_cold f (child t p) =
      if local_is_accessed f t.metadata then false else recursive_is_cold f p

  unfoldable pub is_cold : H160 → Substate → Bool
  unfolding recursive_is_cold
  is_cold address = recursive_is_cold (λ a. accessed_addresses a address)

  unfoldable pub is_storage_cold : H160 → H256 → Substate → Bool
  unfolding recursive_is_cold
  is_storage_cold address key = recursive_is_cold (λ a. accessed_storage a address key)

  -- The credit of a transfer, once the source has been debited.
  abbrev pub credit : Backend → Transfer → Substate → Substate
  credit backend t s =
      let target = account_mut backend t.target s in
      set_account t.target (with_balance (saturating_add target.basic.balance t.value) target) s

  unfoldable pub transfer : Backend → Transfer → Substate → Substate × Result (Unit {0}) ExitError
  transfer backend t s =
      let source = account_mut backend t.source s in
      if ltb source.basic.balance t.value
      then (set_account t.source source s, err out_of_fund)
      else (
        credit backend t
            (set_account t.source (with_balance (source.basic.balance - t.value) source) s),
        ok tt,
      )
