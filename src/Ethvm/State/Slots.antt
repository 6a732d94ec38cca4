-- ===== src/Ethvm/State/Slots.antt =====
-- ethvm/impls/stack.rs: what is read after the writes of slots, of deletion marks and of logs.
use ovr.Prelude.{
  ◌≡◌, refl, sym, ◌∙◌, true, some, List, [], ◌∷◌, ◌++◌, arith, ◌==◌, if◌then◌else◌, ◌&&◌, not,
}
use mathlib.Core.List.{append_assoc}
use ovr.Primitives.{H160, H256, Bytes}
use ovr.BTree.{contains}
use ovr.BTree.Keys.{nat_key, pair_key}
use ovr.BTree.Laws.{get-insert, get-retain}
use ovr.Evm.{Backend}
use ovr.Ethvm.Stack.{
  OvrStackSubstate, root, child, known_account, known_storage, deleted, account_mut, set_account,
  set_storage, remove_slots, reset_storage, set_deleted, log,
}
use ovr.Ethvm.State.View.{all_logs}
use ovr.Ethvm.State.Accounts.{known_account-set_account}

module _ {M : Type 0} where
  pub known_account-set_storage :
      (a q : H160) (k v : H256) (t : OvrStackSubstate M)
      → known_account (set_storage a k v t) q ≡ known_account t q
  unfolding known_account set_storage
  known_account-set_storage a q k v (root f) = refl
  known_account-set_storage a q k v (child f p) = refl

  pub known_storage-set_storage :
      (a q : H160) (k j v : H256) (t : OvrStackSubstate M)
      → known_storage (set_storage a k v t) q j
        ≡ (if q == a && j == k then some v else known_storage t q j)
  unfolding known_storage set_storage
  known_storage-set_storage a q k j v (root f) =
      ground (arith, get-insert (q, j) (a, k) v f.storages)
  known_storage-set_storage a q k j v (child f p) =
      ground (arith, get-insert (q, j) (a, k) v f.storages)

  pub deleted-set_storage :
      (a q : H160) (k v : H256) (t : OvrStackSubstate M)
      → deleted (set_storage a k v t) q ≡ deleted t q
  unfolding deleted set_storage
  deleted-set_storage a q k v (root f) = refl
  deleted-set_storage a q k v (child f p) = refl

  pub all_logs-set_storage :
      (a : H160) (k v : H256) (t : OvrStackSubstate M) → all_logs (set_storage a k v t) ≡ all_logs t
  unfolding set_storage
  all_logs-set_storage a k v (root f) = refl
  all_logs-set_storage a k v (child f p) = refl

  pub known_account-remove_slots :
      (a q : H160) (t : OvrStackSubstate M) → known_account (remove_slots a t) q ≡ known_account t q
  unfolding known_account remove_slots
  known_account-remove_slots a q (root f) = refl
  known_account-remove_slots a q (child f p) = refl

  pub account_mut-remove_slots :
      (b : Backend) (a q : H160) (t : OvrStackSubstate M)
      → account_mut b q (remove_slots a t) ≡ account_mut b q t
  unfolding known_account account_mut remove_slots
  account_mut-remove_slots b a q (root f) = refl
  account_mut-remove_slots b a q (child f p) = refl

  pub known_account-reset_storage :
      (b : Backend) (a q : H160) (t : OvrStackSubstate M)
      → known_account (reset_storage b a t) q
        ≡ (if q == a then some (record (account_mut b a t) { reset = true }) else known_account t q)
  unfolding reset_storage
  known_account-reset_storage b a q t =
      known_account-set_account a q _ (remove_slots a t)
      ∙ rw (account_mut-remove_slots b a a t, known_account-remove_slots a q t)

  pub known_storage-reset_storage :
      (b : Backend) (a q : H160) (j : H256) (t : OvrStackSubstate M)
      → known_storage (reset_storage b a t) q j ≡ (if q == a then some 0 else known_storage t q j)
  unfolding known_storage reset_storage set_account remove_slots
  known_storage-reset_storage b a q j (root f) = ground (
    arith,
    get-insert q a (record (account_mut b a (remove_slots a (root f))) { reset = true }) f.accounts,
    get-retain (λ slot. not (slot.0 == a)) (q, j) f.storages,
  )
  known_storage-reset_storage b a q j (child f p) = ground (
    arith,
    get-insert q a (record (account_mut b a (remove_slots a (child f p))) { reset = true })
        f.accounts,
    get-retain (λ slot. not (slot.0 == a)) (q, j) f.storages,
  )

  pub deleted-reset_storage :
      (b : Backend) (a q : H160) (t : OvrStackSubstate M)
      → deleted (reset_storage b a t) q ≡ deleted t q
  unfolding deleted reset_storage set_account remove_slots
  deleted-reset_storage b a q (root f) = refl
  deleted-reset_storage b a q (child f p) = refl

  pub all_logs-reset_storage :
      (b : Backend) (a : H160) (t : OvrStackSubstate M)
      → all_logs (reset_storage b a t) ≡ all_logs t
  unfolding reset_storage set_account remove_slots
  all_logs-reset_storage b a (root f) = refl
  all_logs-reset_storage b a (child f p) = refl

  pub known_account-set_deleted :
      (a q : H160) (t : OvrStackSubstate M) → known_account (set_deleted a t) q ≡ known_account t q
  unfolding known_account set_deleted
  known_account-set_deleted a q (root f) = refl
  known_account-set_deleted a q (child f p) = refl

  pub known_storage-set_deleted :
      (a q : H160) (j : H256) (t : OvrStackSubstate M)
      → known_storage (set_deleted a t) q j ≡ known_storage t q j
  unfolding known_storage set_deleted
  known_storage-set_deleted a q j (root f) = refl
  known_storage-set_deleted a q j (child f p) = refl

  pub deleted-set_deleted :
      (a q : H160) (t : OvrStackSubstate M)
      → deleted (set_deleted a t) q ≡ (if q == a then true else deleted t q)
  unfolding deleted set_deleted contains
  deleted-set_deleted a q (root f) = ground (arith, get-insert q a tt f.deletes)
  deleted-set_deleted a q (child f p) = ground (arith, get-insert q a tt f.deletes)

  pub all_logs-set_deleted :
      (a : H160) (t : OvrStackSubstate M) → all_logs (set_deleted a t) ≡ all_logs t
  unfolding set_deleted
  all_logs-set_deleted a (root f) = refl
  all_logs-set_deleted a (child f p) = refl

  pub known_account-log :
      (a q : H160) (topics : List H256) (bytes : Bytes) (t : OvrStackSubstate M)
      → known_account (log a topics bytes t) q ≡ known_account t q
  unfolding known_account log
  known_account-log a q topics bytes (root f) = refl
  known_account-log a q topics bytes (child f p) = refl

  pub known_storage-log :
      (a q : H160) (j : H256) (topics : List H256) (bytes : Bytes) (t : OvrStackSubstate M)
      → known_storage (log a topics bytes t) q j ≡ known_storage t q j
  unfolding known_storage log
  known_storage-log a q j topics bytes (root f) = refl
  known_storage-log a q j topics bytes (child f p) = refl

  pub deleted-log :
      (a q : H160) (topics : List H256) (bytes : Bytes) (t : OvrStackSubstate M)
      → deleted (log a topics bytes t) q ≡ deleted t q
  unfolding deleted log
  deleted-log a q topics bytes (root f) = refl
  deleted-log a q topics bytes (child f p) = refl

  pub all_logs-log :
      (a : H160) (topics : List H256) (bytes : Bytes) (t : OvrStackSubstate M)
      → all_logs (log a topics bytes t)
        ≡ all_logs t ++ record { address = a; topics = topics; bytes = bytes } ∷ []
  unfolding log
  all_logs-log a topics bytes (root f) = refl
  all_logs-log a topics bytes (child f p) = sym (append_assoc (all_logs p) f.logs _)
