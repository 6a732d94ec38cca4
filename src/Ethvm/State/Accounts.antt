-- ===== src/Ethvm/State/Accounts.antt =====
-- ethvm/impls/stack.rs: what is read after a write through `account_mut`, frame by frame.
use ovr.Prelude.{◌≡◌, refl, none, some, arith, ◌==◌, if◌then◌else◌}
use ovr.Primitives.{H160, H256}
use ovr.BTree.Keys.{nat_key, pair_key}
use ovr.BTree.Laws.{get-insert}
use ovr.Evm.{Backend}
use ovr.Ethvm.Stack.{
  OvrStackAccount, OvrStackSubstate, root, child, known_account, known_storage, deleted,
  account_mut, set_account,
}
use ovr.Ethvm.State.View.{all_logs}

module _ {M : Type 0} where
  pub known_account-set_account :
      (a q : H160) (x : OvrStackAccount) (s : OvrStackSubstate M)
      → known_account (set_account a x s) q ≡ (if q == a then some x else known_account s q)
  unfolding known_account set_account
  known_account-set_account a q x (root f) = get-insert q a x f.accounts
  known_account-set_account a q x (child f p) = ground (arith, get-insert q a x f.accounts)

  -- A write that keeps the reset mark of the entry changes no slot.
  pub known_storage-set_account :
      (b : Backend) (a q : H160) (k : H256) (x : OvrStackAccount) (s : OvrStackSubstate M)
      → x.reset ≡ (account_mut b a s).reset
      → known_storage (set_account a x s) q k ≡ known_storage s q k
  unfolding known_account known_storage account_mut set_account
  known_storage-set_account b a q k x (root f) e = ground (arith, get-insert q a x f.accounts)
  known_storage-set_account b a q k x (child f p) e = ground (arith, get-insert q a x f.accounts)

  pub deleted-set_account :
      (a q : H160) (x : OvrStackAccount) (s : OvrStackSubstate M)
      → deleted (set_account a x s) q ≡ deleted s q
  unfolding deleted set_account
  deleted-set_account a q x (root f) = refl
  deleted-set_account a q x (child f p) = refl

  pub all_logs-set_account :
      (a : H160) (x : OvrStackAccount) (s : OvrStackSubstate M)
      → all_logs (set_account a x s) ≡ all_logs s
  unfolding set_account
  all_logs-set_account a x (root f) = refl
  all_logs-set_account a x (child f p) = refl

  pub account_mut-basic :
      (b : Backend) (a : H160) (s : OvrStackSubstate M)
      → (account_mut b a s).basic ≡ elim (known_account s a) [ some x ↦ x.basic | none ↦ b.basic a ]
  unfolding known_account account_mut
  account_mut-basic b a (root f) = ground arith
  account_mut-basic b a (child f p) = ground arith

  pub account_mut-code :
      (b : Backend) (a : H160) (s : OvrStackSubstate M)
      → (account_mut b a s).code ≡ elim (known_account s a) [ some x ↦ x.code | none ↦ none ]
  unfolding known_account account_mut
  account_mut-code b a (root f) = ground arith
  account_mut-code b a (child f p) = ground arith
