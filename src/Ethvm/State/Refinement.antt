-- ===== src/Ethvm/State/Refinement.antt =====
-- ethvm/impls/stack.rs: the writes of an execution, on the journal and on the view.
use ovr.Prelude.{
  ◌-◌, ◌≡◌, refl, ap, ◌∙◌, fun_ext, ◌+◌, true, Option, none, some, List, [], ◌∷◌, ◌++◌, Result, ok,
  arith, ◌==◌, if◌then◌else◌, unwrap_or,
}
use ovr.Primitives.{H160, H256, Bytes, saturating_add}
use ovr.BTree.Keys.{nat_key, pair_key}
use ovr.Evm.{Basic, Transfer, Metadata}
use ovr.Ethvm.Stack.{
  OvrStackAccount, root, child, known_account, known_basic, known_code, known_storage, account_mut,
  set_account, with_balance,
}
use ovr.Ethvm.Stack as Stack
use ovr.Ethvm.Stack.Frames as Frames
use ovr.Ethvm.State.{OvrStackState, exists, basic, code, storage, deleted}
use ovr.Ethvm.State as State
use ovr.Ethvm.State.View.{View, view, view_ext, at, put_basic, put_balance, all_logs, spec, Write}
use ovr.Ethvm.State.View.Write.{
  inc_nonce, touch, reset_storage, set_deleted, reset_balance, set_storage, set_code, log, transfer,
}
use ovr.Ethvm.State.Slots.{
  known_account-set_storage, known_storage-set_storage, deleted-set_storage, all_logs-set_storage,
  known_account-reset_storage, known_storage-reset_storage, deleted-reset_storage,
  all_logs-reset_storage, known_account-set_deleted, known_storage-set_deleted, deleted-set_deleted,
  all_logs-set_deleted, known_account-log, known_storage-log, deleted-log, all_logs-log,
}
use ovr.Ethvm.State.Accounts.{
  known_account-set_account, known_storage-set_account, deleted-set_account, all_logs-set_account,
  account_mut-basic, account_mut-code,
}

at_self {ℓ} : {A : Type ℓ} (f : H160 → A) (a : H160) → at f a (f a) ≡ f
at_self f a = fun_ext λ q. ground arith

module _ {M : Type 0} where
  -- The state after a write of the whole entry `x` at `a`.
  abbrev write_account : H160 → OvrStackAccount → OvrStackState M → OvrStackState M
  write_account a x s = record s { substate = set_account a x s.substate }

  abbrev pub borrow : H160 → OvrStackState M → OvrStackAccount
  borrow a s = account_mut s.backend a s.substate

  pub borrow-basic : (a : H160) (s : OvrStackState M) → (borrow a s).basic ≡ basic s a
  unfolding basic known_basic
  borrow-basic a s = ground (arith, account_mut-basic s.backend a s.substate)

  pub borrow-code :
      (a : H160) (s : OvrStackState M) → unwrap_or (s.backend.code a) (borrow a s).code ≡ code s a
  unfolding code known_code
  borrow-code a s = ground (arith, account_mut-code s.backend a s.substate)

  -- One lemma for all writes that go through `account_mut`.
  pub view-write_account :
      (a : H160) (x : OvrStackAccount) (s : OvrStackState M)
      → x.reset ≡ (borrow a s).reset
      → view (write_account a x s) ≡ record (put_basic a x.basic (view s)) {
        code = at (code s) a (unwrap_or (s.backend.code a) x.code);
      }
  unfolding exists basic code storage deleted known_basic known_code
  view-write_account a x s e =
      view_ext _ _ (λ q. ground (arith, known_account-set_account a q x s.substate))
        (λ q. ground (arith, known_account-set_account a q x s.substate))
        (λ q. ground (arith, known_account-set_account a q x s.substate))
        (λ q k. ground (arith, known_storage-set_account s.backend a q k x s.substate e))
        (λ q. deleted-set_account a q x s.substate) (all_logs-set_account a x s.substate)

  -- The code is left as it was where the entry keeps its code.
  view-write_basic :
      (a : H160) (b : Basic) (s : OvrStackState M)
      → view (write_account a (record (borrow a s) { basic = b }) s) ≡ put_basic a b (view s)
  view-write_basic a b s =
      view-write_account a (record (borrow a s) { basic = b }) s refl
      ∙ ap (λ c. record (put_basic a b (view s)) { code = c })
          (rw (borrow-code a s) (at_self (code s) a))

module _ (meta : Metadata) where
  open meta use {StackSubstateMetadata, ExitError, out_of_fund}

  abbrev pub Outcome : Type 0 → Type 0
  Outcome S = Option (S × Result (Unit {0}) ExitError)

  abbrev pub done : Option (State.StackState meta) → Outcome (State.StackState meta)
  done none = none
  done (some s) = some (s, ok tt)

  -- The method of the state that makes the write.
  unfoldable pub run : Write → State.StackState meta → Outcome (State.StackState meta)
  run (inc_nonce a) s = done (State.inc_nonce a s)
  run (touch a) s = some (State.touch a s, ok tt)
  run (reset_storage a) s = some (State.reset_storage a s, ok tt)
  run (set_deleted a) s = some (State.set_deleted a s, ok tt)
  run (reset_balance a) s = some (State.reset_balance a s, ok tt)
  run (set_storage a k v) s = some (State.set_storage a k v s, ok tt)
  run (set_code a c) s = some (State.set_code a c s, ok tt)
  run (log a topics bytes) s = some (State.log a topics bytes s, ok tt)
  run (transfer t) s = some (State.transfer meta t s)

  abbrev pub view_of : Outcome (State.StackState meta) → Outcome View
  view_of none = none
  view_of (some (s, r)) = some (view s, r)

  run-inc_nonce :
      (a : H160) (s : State.StackState meta)
      → view_of (done (State.inc_nonce a s)) ≡ spec out_of_fund (inc_nonce a) (view s)
  unfolding State.inc_nonce Stack.inc_nonce
  run-inc_nonce a s = ground (
    arith,
    borrow-basic a s,
    view-write_basic a (record (borrow a s).basic { nonce = (borrow a s).basic.nonce + 1 }) s,
  )

  run-touch :
      (a : H160) (s : State.StackState meta)
      → view (State.touch a s) ≡ put_basic a (basic s a) (view s)
  unfolding State.touch Stack.touch
  run-touch a s = view-write_basic a (borrow a s).basic s ∙ rw (borrow-basic a s)

  run-reset_balance :
      (a : H160) (s : State.StackState meta)
      → view (State.reset_balance a s) ≡ put_balance a 0 (view s)
  unfolding State.reset_balance Stack.reset_balance
  run-reset_balance a s = view-write_basic a _ s ∙ rw (borrow-basic a s)

  run-set_code :
      (a : H160) (c : Bytes) (s : State.StackState meta)
      → view (State.set_code a c s)
        ≡ record (put_basic a (basic s a) (view s)) { code = at (code s) a c }
  unfolding State.set_code Stack.set_code
  run-set_code a c s =
      view-write_account a (record (borrow a s) { code = some c }) s refl ∙ rw (borrow-basic a s)

  run-set_storage :
      (a : H160) (k v : H256) (s : State.StackState meta)
      → view (State.set_storage a k v s)
        ≡ record (view s) { storage = at (storage s) a (λ j. if j == k then v else storage s a j) }
  unfolding State.set_storage exists basic code storage deleted known_basic known_code
  run-set_storage a k v s =
      view_ext _ _ (λ q. ground (arith, known_account-set_storage a q k v s.substate))
        (λ q. ground (arith, known_account-set_storage a q k v s.substate))
        (λ q. ground (arith, known_account-set_storage a q k v s.substate))
        (λ q j. ground (arith, known_storage-set_storage a q k j v s.substate))
        (λ q. deleted-set_storage a q k v s.substate) (all_logs-set_storage a k v s.substate)

  run-reset_storage :
      (a : H160) (s : State.StackState meta)
      → view (State.reset_storage a s)
        ≡ record (put_basic a (basic s a) (view s)) { storage = at (storage s) a (λ _. 0) }
  unfolding State.reset_storage exists basic code storage deleted known_basic known_code
  run-reset_storage a s =
      view_ext _ _ (λ q. ground (arith, known_account-reset_storage s.backend a q s.substate))
        (λ q. ground (
          arith,
          known_account-reset_storage s.backend a q s.substate,
          account_mut-basic s.backend a s.substate,
        ))
        (λ q. ground (
          arith,
          known_account-reset_storage s.backend a q s.substate,
          account_mut-code s.backend a s.substate,
        ))
        (λ q j. ground (arith, known_storage-reset_storage s.backend a q j s.substate))
        (λ q. deleted-reset_storage s.backend a q s.substate)
        (all_logs-reset_storage s.backend a s.substate)

  run-set_deleted :
      (a : H160) (s : State.StackState meta)
      → view (State.set_deleted a s) ≡ record (view s) { deleted = at (deleted s) a true }
  unfolding State.set_deleted exists basic code storage deleted known_basic known_code
  run-set_deleted a s =
      view_ext _ _ (λ q. ground (arith, known_account-set_deleted a q s.substate))
        (λ q. ground (arith, known_account-set_deleted a q s.substate))
        (λ q. ground (arith, known_account-set_deleted a q s.substate))
        (λ q j. ground (arith, known_storage-set_deleted a q j s.substate))
        (λ q. deleted-set_deleted a q s.substate) (all_logs-set_deleted a s.substate)

  run-log :
      (a : H160) (topics : List H256) (bytes : Bytes) (s : State.StackState meta)
      → view (State.log a topics bytes s) ≡ record (view s) {
        logs = all_logs s.substate ++ record { address = a; topics = topics; bytes = bytes } ∷ [];
      }
  unfolding State.log exists basic code storage deleted known_basic known_code
  run-log a topics bytes s =
      view_ext _ _ (λ q. ground (arith, known_account-log a q topics bytes s.substate))
        (λ q. ground (arith, known_account-log a q topics bytes s.substate))
        (λ q. ground (arith, known_account-log a q topics bytes s.substate))
        (λ q j. ground (arith, known_storage-log a q j topics bytes s.substate))
        (λ q. deleted-log a q topics bytes s.substate) (all_logs-log a topics bytes s.substate)

  run-transfer :
      (t : Transfer) (s : State.StackState meta)
      → view_of (some (State.transfer meta t s)) ≡ spec out_of_fund (transfer t) (view s)
  unfolding State.transfer Frames.transfer
  run-transfer t s =
      let source = borrow t.source s in
      let s' : State.StackState meta =
        write_account t.source (with_balance (source.basic.balance - t.value) source) s in
      let target = borrow t.target s' in
      ground (
        arith,
        borrow-basic t.source s,
        view-write_basic t.source source.basic s,
        view-write_basic t.source (record source.basic { balance = source.basic.balance - t.value })
            s,
        borrow-basic t.target s',
        view-write_basic t.target
            (record target.basic { balance = saturating_add target.basic.balance t.value }) s',
      )

  -- Each write of an execution, on the journal of any depth, has on the view exactly the effect
  -- and the result of its specification; the nonce's overflow panics in both.
  pub run-refines :
      (w : Write) (s : State.StackState meta) → view_of (run w s) ≡ spec out_of_fund w (view s)
  unfolding run
  run-refines (inc_nonce a) s = run-inc_nonce a s
  run-refines (touch a) s = ap (λ v. some (v, ok tt)) (run-touch a s)
  run-refines (reset_storage a) s = ap (λ v. some (v, ok tt)) (run-reset_storage a s)
  run-refines (set_deleted a) s = ap (λ v. some (v, ok tt)) (run-set_deleted a s)
  run-refines (reset_balance a) s = ap (λ v. some (v, ok tt)) (run-reset_balance a s)
  run-refines (set_storage a k v) s = ap (λ w. some (w, ok tt)) (run-set_storage a k v s)
  run-refines (set_code a c) s = ap (λ v. some (v, ok tt)) (run-set_code a c s)
  run-refines (log a topics bytes) s = ap (λ v. some (v, ok tt)) (run-log a topics bytes s)
  run-refines (transfer t) s = run-transfer t s
