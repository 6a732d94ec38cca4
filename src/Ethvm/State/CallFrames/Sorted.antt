-- ===== src/Ethvm/State/CallFrames/Sorted.antt =====
-- ethvm/impls/stack.rs: the maps of the frames, and the order of their keys.
use ovr.Prelude.{◌+◌, none, some, Result, ok, err, ltb, Bool-cases, inl, inr}
use ovr.Primitives.{H160, u256_mod}
use ovr.BTree.Keys.{nat_key, pair_key}
use ovr.BTree.Order.{IsSorted, insert-IsSorted, append-IsSorted, retain-IsSorted}
use ovr.Evm.{Metadata, Backend}
use ovr.Ethvm.Stack.{
  OvrStackAccount, Frame, OvrStackSubstate, root, child, top, with_top, account_mut, set_account,
}
use ovr.Ethvm.Stack as Stack
use ovr.Ethvm.Stack.Frames as Frames
use ovr.Ethvm.Stack.Frames.{resets, kept_slots, merge}
use ovr.Ethvm.State as State
use ovr.Ethvm.State.View.{Write}
use ovr.Ethvm.State.View.Write.{
  inc_nonce, touch, reset_storage, set_deleted, reset_balance, set_storage, set_code, log, transfer,
}
use ovr.Ethvm.State.Refinement.{run}
use ovr.Ethvm.State.CallFrames.{
  Ending, commit, revert, discard, Code, halt, write, charge, call, leave, go_on, after_write, exec,
}
use ovr.Ethvm.State.CallFrames.Balance.{Leads, Ends, S, Out}

-- The maps of a frame are sorted.
pub record IsSortedFrame {M : Type 0} (f : Frame M) : Type 0 where
  pub accounts : IsSorted f.accounts
  pub storages : IsSorted f.storages
  pub deletes : IsSorted f.deletes

-- The maps of all frames are.
abbrev pub IsSortedStack : {M : Type 0} → OvrStackSubstate M → Type 0
IsSortedStack (root f) = IsSortedFrame f
IsSortedStack (child f p) = IsSortedFrame f × IsSortedStack p

module _ {M : Type 0} where
  with_top-IsSortedStack :
      (g : Frame M → Frame M) (s : OvrStackSubstate M)
      → (IsSortedFrame (top s) → IsSortedFrame (g (top s)))
      → IsSortedStack s
      → IsSortedStack (with_top g s)
  with_top-IsSortedStack g (root f) keep h = keep h
  with_top-IsSortedStack g (child f p) keep h = (keep h.0, h.1)

  set_account-IsSortedStack :
      (a : H160) (x : OvrStackAccount) (s : OvrStackSubstate M)
      → IsSortedStack s
      → IsSortedStack (set_account a x s)
  unfolding set_account
  set_account-IsSortedStack a x s = with_top-IsSortedStack _ s λ h. record {
    accounts = insert-IsSorted a x (top s).accounts h.accounts;
    storages = h.storages;
    deletes = h.deletes;
  }

module _ (meta : Metadata) where
  open meta use {StackSubstateMetadata, ExitError}

  abbrev pub IsSortedState : S meta → Type 0
  IsSortedState s = IsSortedStack s.substate

  run-IsSorted :
      (w : Write) (s : S meta) → IsSortedState s → Leads meta (run meta w s) IsSortedState
  unfolding run State.inc_nonce Stack.inc_nonce State.touch Stack.touch State.reset_storage
      Stack.reset_storage Stack.remove_slots State.set_deleted Stack.set_deleted State.reset_balance
      Stack.reset_balance State.set_storage Stack.set_storage State.set_code Stack.set_code
      State.log Stack.log State.transfer Frames.transfer
  run-IsSorted (inc_nonce a) s h =
      elim (Bool-cases (ltb ((account_mut s.backend a s.substate).basic.nonce + 1) u256_mod)) [
        | inl fits ↦ rw fits (set_account-IsSortedStack a _ s.substate h)
        | inr overflow ↦ rw overflow tt
      ]
  run-IsSorted (touch a) s h = set_account-IsSortedStack a _ s.substate h
  run-IsSorted (reset_storage a) s h = set_account-IsSortedStack a _ _ (
      with_top-IsSortedStack _ s.substate
        (λ k. record {
          accounts = k.accounts;
          storages = retain-IsSorted _ (top s.substate).storages k.storages;
          deletes = k.deletes;
        })
        h)
  run-IsSorted (set_deleted a) s h =
      with_top-IsSortedStack _ s.substate
        (λ k. record {
          accounts = k.accounts;
          storages = k.storages;
          deletes = insert-IsSorted a tt (top s.substate).deletes k.deletes;
        })
        h
  run-IsSorted (reset_balance a) s h = set_account-IsSortedStack a _ s.substate h
  run-IsSorted (set_storage a k v) s h =
      with_top-IsSortedStack _ s.substate
        (λ i. record {
          accounts = i.accounts;
          storages = insert-IsSorted (a, k) v (top s.substate).storages i.storages;
          deletes = i.deletes;
        })
        h
  run-IsSorted (set_code a c) s h = set_account-IsSortedStack a _ s.substate h
  run-IsSorted (log a topics bytes) s h =
      with_top-IsSortedStack _ s.substate
        (λ k. record { accounts = k.accounts; storages = k.storages; deletes = k.deletes }) h
  run-IsSorted (transfer t) s h =
      elim (Bool-cases (ltb (account_mut s.backend t.source s.substate).basic.balance t.value)) [
        | inl short ↦ rw short (set_account-IsSortedStack t.source _ s.substate h)
        | inr covered ↦ rw covered (
            set_account-IsSortedStack t.target _ _
              (set_account-IsSortedStack t.source _ s.substate h))
      ]

  with_metadata-IsSorted :
      (m : StackSubstateMetadata) (p : Frames.Substate meta)
      → IsSortedStack p
      → IsSortedStack (Frames.with_metadata meta m p)
  with_metadata-IsSorted m p =
      with_top-IsSortedStack _ p
        λ k. record { accounts = k.accounts; storages = k.storages; deletes = k.deletes }

  merge-IsSorted :
      (f : Frame StackSubstateMetadata) (p : Frames.Substate meta)
      → IsSortedStack p
      → IsSortedStack (merge meta f p)
  unfolding merge kept_slots
  merge-IsSorted f p = with_top-IsSortedStack _ p λ k. record {
    accounts = append-IsSorted (top p).accounts f.accounts k.accounts;
    storages =
        append-IsSorted (kept_slots (resets f.accounts) (top p).storages) f.storages
          (retain-IsSorted _ (top p).storages k.storages);
    deletes = append-IsSorted (top p).deletes f.deletes k.deletes;
  }

  finish_commit-IsSorted :
      (f : Frame StackSubstateMetadata) (p : Frames.Substate meta)
      (out : StackSubstateMetadata × Result (Unit {0}) ExitError)
      → IsSortedStack p
      → IsSortedStack (Frames.finish_commit meta f p out).0
  finish_commit-IsSorted f p (m, ok _) h = merge-IsSorted f _ (with_metadata-IsSorted m p h)
  finish_commit-IsSorted f p (m, err e) h = with_metadata-IsSorted m p h

  leave_sub :
      (s : Frames.Substate meta) (ending : Ending) (b : Backend)
      → IsSortedStack s
      → Leads meta (leave meta ending (record { backend = b; substate = s })) IsSortedState
  unfolding State.exit_commit State.exit_revert State.exit_discard Frames.exit_commit
      Frames.exit_revert Frames.exit_discard
  leave_sub (root f) commit b h = tt
  leave_sub (root f) revert b h = tt
  leave_sub (root f) discard b h = tt
  leave_sub (child f p) commit b h = finish_commit-IsSorted f p _ h.1
  leave_sub (child f p) revert b h = with_metadata-IsSorted _ p h.1
  leave_sub (child f p) discard b h = with_metadata-IsSorted _ p h.1

  after_write-IsSorted :
      (o : Out meta) (k : S meta → Out meta)
      → Leads meta o IsSortedState
      → ((t : S meta) → IsSortedState t → Ends meta (k t) IsSortedState)
      → Ends meta (after_write meta o k) IsSortedState
  after_write-IsSorted none k h e = tt
  after_write-IsSorted (some (t, r)) k h e = e t h

  go_on-IsSorted :
      (o : Out meta) (k : S meta → Out meta)
      → Ends meta o IsSortedState
      → ((t : S meta) → IsSortedState t → Ends meta (k t) IsSortedState)
      → Ends meta (go_on meta o k) IsSortedState
  go_on-IsSorted none k h e = tt
  go_on-IsSorted (some (t, err _)) k h e = tt
  go_on-IsSorted (some (t, ok _)) k h e = e t h

  Ends-Leads : (o : Out meta) → Leads meta o IsSortedState → Ends meta o IsSortedState
  Ends-Leads none h = tt
  Ends-Leads (some (t, err _)) h = tt
  Ends-Leads (some (t, ok _)) h = h

  -- Any code, with its nested calls, that starts from a journal whose maps are sorted in every
  -- frame and ends well, ends in such a journal: no address and no slot stands twice in a
  -- frame.
  pub exec-IsSorted :
      (c : Code StackSubstateMetadata) (s : S meta)
      → IsSortedState s
      → Ends meta (exec meta c s) IsSortedState
  unfolding exec State.enter State.metadata_mut Frames.enter
  exec-IsSorted halt s h = h
  exec-IsSorted (write w rest) s h =
      after_write-IsSorted (run meta w s) (exec meta rest) (run-IsSorted w s h) (exec-IsSorted rest)
  exec-IsSorted (charge change rest) s h = exec-IsSorted rest (State.metadata_mut meta change s) (
      with_top-IsSortedStack _ s.substate
        (λ k. record { accounts = k.accounts; storages = k.storages; deletes = k.deletes }) h)
  exec-IsSorted (call gas_limit is_static body ending rest) s h =
      go_on-IsSorted (exec meta body (State.enter meta gas_limit is_static s)) _
        (exec-IsSorted body (State.enter meta gas_limit is_static s)
          (record { accounts = tt; storages = tt; deletes = tt }, h))
        λ t k.
          go_on-IsSorted (leave meta ending t) (exec meta rest)
            (Ends-Leads (leave meta ending t) (leave_sub t.substate ending t.backend k))
            (exec-IsSorted rest)
