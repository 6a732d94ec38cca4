-- ===== src/Ethvm/Backend/Elsewhere.antt =====
-- ethvm/impls/backend.rs: what the writes to a branch leave to the other branches.
use ovr.Prelude.{
  ◌≡◌, sym, ap, ◌∙◌, ◌==◌, ◌&&◌, Bool, true, false, Option, some, List, [], ◌∷◌, arith, bind_some,
  if◌then◌else◌, Bool-cases, Option-cases, inl, inr, unwrap_or,
}
use ovr.Primitives.{H160, H256, Bytes}
use ovr.BTree.{BTreeMap}
use ovr.BTree.Keys.{same, bytes_key}
use ovr.Evm.{Basic, Apply, modify, delete}
use ovr.Vsdb.{BranchName, Operations, WriteLaws, SameOn, OvrAccount}
use ovr.Ethvm.Backend.{
  OvrBackend, unwrap_write, reset_storage, write_slots, modify_account, apply_change, apply,
  changed_account, default_account, is_empty_account,
}

module _ (v : Operations) where
  -- The accounts and the slots of a branch read the same.
  pub record SameState (q : BranchName) (s t : v.Store) : Type 0 where
    pub account : (a : H160) → v.account s q a ≡ v.account t q a
    pub slot : (a : H160) (k : H256) → v.slot s q a k ≡ v.slot t q a k

  pub same_state : (q : BranchName) (s t : v.Store) → s ≡ t → SameState q s t
  same_state q s t e = record {
    account = λ a. ap (λ x. v.account x q a) e;
    slot = λ a k. ap (λ x. v.slot x q a k) e;
  }

  pub chain :
      (q : BranchName) (r s t : v.Store) → SameState q r s → SameState q s t → SameState q r t
  chain q r s t h k = record {
    account = λ a. h.account a ∙ k.account a;
    slot = λ a j. h.slot a j ∙ k.slot a j;
  }

  pub of_same : (q : BranchName) (s t : v.Store) → SameOn v q s t → SameState q s t
  of_same q s t h = record { account = h.account; slot = h.slot }

module _ (v : Operations) (laws : WriteLaws v) (q : BranchName) where
  unwrap_write-SameState :
      (b : BranchName) (f : v.Store → v.Store) (s t : v.Store)
      → (v.writable s b ≡ true → SameState v q s (f s))
      → unwrap_write v b f s ≡ some t
      → SameState v q s t
  unwrap_write-SameState b f s t k h = elim (Bool-cases (v.writable s b)) [
    | inr closed ↦ absurd (ground (arith, closed))
    | inl open' ↦ chain v q s (f s) t (k open') (same_state v q (f s) t (ground (arith, open')))
  ]

  module _ (b : BranchName) (other : same q b ≡ false) where
    pub insert_account-SameState :
        (a : H160) (x : OvrAccount) (s : v.Store)
        → v.writable s b ≡ true
        → SameState v q s (v.insert_account b a x s)
    insert_account-SameState a x s w = record {
      account = λ p. let e = laws.account-insert_account b q a p x s w in ground (arith, e, other);
      slot = λ p k. sym (laws.slot-insert_account b q a p k x s w);
    }

    remove_account-SameState :
        (a : H160) (s : v.Store) → v.writable s b ≡ true → SameState v q s (v.remove_account b a s)
    remove_account-SameState a s w = record {
      account = λ p. let e = laws.account-remove_account b q a p s w in ground (arith, e, other);
      slot = λ p k. sym (laws.slot-remove_account b q a p k s w);
    }

    insert_slot-SameState :
        (a : H160) (k x : H256) (s : v.Store)
        → v.writable s b ≡ true
        → SameState v q s (v.insert_slot b a k x s)
    insert_slot-SameState a k x s w = record {
      account = λ p. sym (laws.account-insert_slot b q a p k x s w);
      slot = λ p j. let e = laws.slot-insert_slot b q a p k j x s w in ground (arith, e, other);
    }

    remove_slots-SameState :
        (a : H160) (s : v.Store) → v.writable s b ≡ true → SameState v q s (v.remove_slots b a s)
    remove_slots-SameState a s w = record {
      account = λ p. sym (laws.account-remove_slots b q a p s w);
      slot = λ p j. let e = laws.slot-remove_slots b q a p j s w in ground (arith, e, other);
    }

    write_slots-SameState :
        (a : H160) (m : BTreeMap H256 H256) (s t : v.Store)
        → write_slots v b a m s ≡ some t
        → SameState v q s t
    unfolding write_slots
    write_slots-SameState a [] s t h = same_state v q s t (ground (arith, h))
    write_slots-SameState a ((k, x) ∷ rest) s t h = elim (Bool-cases (x == 0)) [
      | inl zero' ↦ write_slots-SameState a rest s t (ground (arith, zero', h))
      | inr set ↦ elim (Option-cases (unwrap_write v b (v.insert_slot b a k x) s)) [
        | inl panic ↦ absurd (ground (arith, set, panic))
        | inr (u, e) ↦
            chain v q s u t
              (unwrap_write-SameState b (v.insert_slot b a k x) s u (insert_slot-SameState a k x s)
                e)
              (write_slots-SameState a rest u t (ground (arith, set, e, h)))
      ]
    ]

    reset-SameState :
        (reset : Bool) (a : H160) (s t : v.Store)
        → (if reset then reset_storage v b a s else some s) ≡ some t
        → SameState v q s t
    unfolding reset_storage
    reset-SameState false a s t h = same_state v q s t (ground (arith, h))
    reset-SameState true a s t h =
        unwrap_write-SameState b (v.remove_slots b a) s t (remove_slots-SameState a s) h

    emptied-SameState :
        (empty : Bool) (a : H160) (s t : v.Store)
        → (if empty then unwrap_write v b (v.remove_account b a) s else some s) ≡ some t
        → SameState v q s t
    emptied-SameState false a s t h = same_state v q s t (ground (arith, h))
    emptied-SameState true a s t h =
        unwrap_write-SameState b (v.remove_account b a) s t (remove_account-SameState a s) h

  -- The branch and the default branch of the collections are others than this one.
  module _ (o : OvrBackend) (other : same q o.branch ≡ false)
      (other_default : same q o.default_branch ≡ false) where
    modify_account-SameState :
        (delete_empty : Bool) (a : H160) (basic : Basic) (code : Option Bytes)
        (storage : BTreeMap H256 H256) (reset : Bool) (s t : v.Store)
        → modify_account v o.branch o.default_branch delete_empty a basic code storage reset s
          ≡ some t
        → SameState v q s t
    unfolding modify_account
    modify_account-SameState delete_empty a basic code storage reset s t h =
        let changed =
          changed_account basic code (unwrap_or default_account (v.account s o.branch a)) in
        let (s1, e1, h1) =
          bind_some (if reset then reset_storage v o.branch a s else some s) _ t h in
        let (s2, e2, h2) = bind_some (write_slots v o.default_branch a storage s1) _ t h1 in
        let (s3, e3, h3) =
          bind_some (unwrap_write v o.branch (v.insert_account o.branch a changed) s2) _ t h2 in
        chain v q s s1 t (reset-SameState o.branch other reset a s s1 e1) (
          chain v q s1 s2 t
            (write_slots-SameState o.default_branch other_default a storage s1 s2 e2)
            (chain v q s2 s3 t
              (unwrap_write-SameState o.branch (v.insert_account o.branch a changed) s2 s3
                (insert_account-SameState o.branch other a changed s2) e3)
              (emptied-SameState o.branch other (is_empty_account changed && delete_empty) a s3 t
                h3)))

    apply_change-SameState :
        (delete_empty : Bool) (change : Apply) (s t : v.Store)
        → apply_change v o delete_empty change s ≡ some t
        → SameState v q s t
    unfolding apply_change
    apply_change-SameState delete_empty (modify a basic code storage reset) s t h =
        modify_account-SameState delete_empty a basic code storage reset s t h
    apply_change-SameState delete_empty (delete a) s t h =
        unwrap_write-SameState o.branch (v.remove_account o.branch a) s t
          (remove_account-SameState o.branch other a s) h

    pub apply-SameState :
        (changes : List Apply) (delete_empty : Bool) (s t : v.Store)
        → apply v o changes delete_empty s ≡ some t
        → SameState v q s t
    unfolding apply
    apply-SameState [] delete_empty s t h = same_state v q s t (ground (arith, h))
    apply-SameState (change ∷ rest) delete_empty s t h =
        elim (Option-cases (apply_change v o delete_empty change s)) [
          | inl panic ↦ absurd (ground (arith, panic))
          | inr (u, e) ↦
              chain v q s u t (apply_change-SameState delete_empty change s u e)
                (apply-SameState rest delete_empty u t (ground (arith, e, h)))
        ]
