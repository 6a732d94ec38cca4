-- ===== src/Ethvm/Backend/Flush.antt =====
-- ethvm/impls/stack.rs and ethvm/impls/backend.rs together: the changes of a root journal,
-- applied to the database.
use mathlib.Core.Option.{some-injective}
use ovr.Prelude.{
  ◌≡◌, ◌≢◌, refl, ap, sym, ◌∙◌, true, false, none, some, List, [], ◌∷◌, ◌++◌, arith, if◌then◌else◌,
  unwrap_or, Option-cases, inl, inr,
}
use ovr.Primitives.{H160, H256}
use ovr.BTree.{BTreeSet, get, contains}
use ovr.BTree.Keys.{nat_key, pair_key, bytes_key}
use ovr.BTree.Order.{IsSorted}
use ovr.Evm.{Apply, Log, delete}
use ovr.Vsdb.{BranchName, Operations, WriteLaws}
use ovr.Ethvm.Stack.{
  OvrStackAccount, Frame, OvrStackSubstate, root, child, top, known_account, known_storage,
  known_basic, known_code, account_mut, is_reset,
}
use ovr.Ethvm.Stack as Stack
use ovr.Ethvm.Stack.Flush.{deletions, deconstruct, account_addresses, slot_addresses}
use ovr.Ethvm.Stack.Addresses.{
  contains-account_addresses, contains-slot_addresses, slot_addresses-get,
  account_addresses-IsSorted, slot_addresses-IsSorted, get-storage_of,
}
use ovr.Ethvm.State.{OvrStackState, basic, code, storage, deleted}
use ovr.Ethvm.State as State
use ovr.Ethvm.State.Refinement.{borrow-basic, borrow-code}
use ovr.Ethvm.State.CallFrames.Sorted.{IsSortedFrame}
use ovr.Ethvm.Backend.{OvrBackend, account_basic, account_code, as_backend, apply, apply_change}
use ovr.Ethvm.Backend.Changes.{same_refl}
use ovr.Ethvm.Backend.Plan.{
  planned, modifications-planned, Flushed, apply-cons, apply-planned, contains-cons,
}

none-some : {A : Type 0} {a : A} → none ≡ some a → ⊥
none-some h = cc

module _ (v : Operations) (laws : WriteLaws v) where
  open v use {Store, account, slot, writable}

  -- What the deletions leave: no account of the set, and all slots.
  pub record Deleted (b : BranchName) (l : BTreeSet H160) (s s' : Store) : Type 0 where
    pub accounts : (q : H160) → account s' b q ≡ (if contains q l then none else account s b q)
    pub slots : (q : H160) (k : H256) → slot s' b q k ≡ slot s b q k

  Deleted-cons :
      (b : BranchName) (a : H160) (l : BTreeSet H160) (s s' : Store)
      → writable s b ≡ true
      → Deleted b l (v.remove_account b a s) s'
      → Deleted b ((a, tt) ∷ l) s s'
  Deleted-cons b a l s s' w h = record {
    accounts = λ q. ground (
      arith,
      h.accounts q,
      laws.account-remove_account b b a q s w,
      contains-cons q a l,
      same_refl b,
    );
    slots = λ q k. h.slots q k ∙ laws.slot-remove_account b b a q k s w;
  }

  pub apply-deletions :
      (o : OvrBackend) (l : BTreeSet H160) (s : Store)
      → writable s o.branch ≡ true
      → (s' : Store) × (apply v o (deletions l) false s ≡ some s') × Deleted o.branch l s s'
  unfolding apply deletions contains get
  apply-deletions o [] s w = (s, refl, record { accounts = λ q. refl; slots = λ q k. refl })
  apply-deletions o ((a, u) ∷ l) s w =
      let t = v.remove_account o.branch a s in
      let (s', e, h) =
        apply-deletions o l t (laws.writable-remove_account o.branch o.branch a s ∙ w) in
      (
        s',
        apply-cons v laws o (delete a) (deletions l) s t (rw w) ∙ e,
        Deleted-cons o.branch a l s s' w h,
      )

  apply-append :
      (o : OvrBackend) (xs ys : List Apply) (s t : Store)
      → apply v o xs false s ≡ some t
      → apply v o (xs ++ ys) false s ≡ apply v o ys false t
  unfolding apply
  apply-append o [] ys s t e = rw (some-injective s t e)
  apply-append o (x ∷ xs) ys s t e = elim (Option-cases (apply_change v o false x s)) [
    | inl panic ↦ absurd (none-some (rw (panic, apply) at e))
    | inr (u, e') ↦
        apply-cons v laws o x (xs ++ ys) s u e'
        ∙ apply-append o xs ys u t (sym (apply-cons v laws o x xs s u e') ∙ e)
  ]

module _ (v : Operations) (laws : WriteLaws v) (o : OvrBackend) (s : v.Store) {M : Type 0}
    (f : Frame M) where
  open v use {Store, account, slot, writable}

  -- The addresses that `deconstruct` goes through.
  abbrev touched : BTreeSet H160
  touched = slot_addresses f.storages (account_addresses f.accounts [])

  abbrev entry : H160 → OvrStackAccount
  entry q = account_mut (as_backend v o s) q (root f)

  abbrev state : OvrStackState M
  state = record { backend = as_backend v o s; substate = root f }

  -- What the store reads after the changes of the journal.
  pub record Stored (s' : Store) : Type 0 where
    pub deleted_accounts : (q : H160) → deleted state q ≡ true → account s' o.branch q ≡ none
    pub basics :
        (q : H160) → deleted state q ≡ false → account_basic (account s' o.branch q) ≡ basic state q
    pub codes :
        (q : H160) → deleted state q ≡ false → account_code (account s' o.branch q) ≡ code state q
    pub slots :
        (q : H160) (k : H256)
        → deleted state q ≡ false
        → get (q, k) f.storages ≢ some 0
        → unwrap_or 0 (slot s' o.branch q k) ≡ storage state q k
    pub zero_writes :
        (q : H160) (k : H256)
        → deleted state q ≡ false
        → get (q, k) f.storages ≡ some 0
        → slot s' o.branch q k ≡ (if (entry q).reset then none else slot s o.branch q k)
    pub deleted_slots :
        (q : H160) (k : H256) → deleted state q ≡ true → slot s' o.branch q k ≡ slot s o.branch q k

  untouched_account : (q : H160) → contains q touched ≡ false → get q f.accounts ≡ none
  untouched_account q h = ground (
    arith,
    contains-account_addresses q f.accounts [],
    contains-slot_addresses q f.storages (account_addresses f.accounts []),
  )

  untouched_slot : (q : H160) (k : H256) → contains q touched ≡ false → get (q, k) f.storages ≡ none
  untouched_slot q k h = elim (Option-cases (get (q, k) f.storages)) [
    | inl absent ↦ absent
    | inr (x, e) ↦ cc (slot_addresses-get q k x f.storages (account_addresses f.accounts []) e)
  ]

  module _ (t s' : Store) (fl : Flushed v laws o.branch entry f.storages f.deletes touched s t)
      (de : Deleted v laws o.branch f.deletes t s') where
    stored_deleted : (q : H160) → deleted state q ≡ true → account s' o.branch q ≡ none
    unfolding deleted Stack.deleted
    stored_deleted q h = ground (arith, de.accounts q)

    stored_basic :
        (q : H160) → deleted state q ≡ false → account_basic (account s' o.branch q) ≡ basic state q
    unfolding deleted Stack.deleted basic known_basic known_account as_backend
    stored_basic q h =
        ground (arith, de.accounts q, fl.accounts q, untouched_account q, borrow-basic q state)

    stored_code :
        (q : H160) → deleted state q ≡ false → account_code (account s' o.branch q) ≡ code state q
    unfolding deleted Stack.deleted code known_code known_account as_backend
    stored_code q h =
        ground (arith, de.accounts q, fl.accounts q, untouched_account q, borrow-code q state)

    stored_zero :
        IsSorted f.storages
        → (q : H160) (k : H256) → deleted state q ≡ false
        → get (q, k) f.storages ≡ some 0
        → slot s' o.branch q k ≡ (if (entry q).reset then none else slot s o.branch q k)
    unfolding deleted Stack.deleted get
    stored_zero sorted q k h z = ground (
      arith,
      de.slots q k,
      fl.slots q k,
      untouched_slot q k,
      get-storage_of q k f.storages [] sorted,
    )

    stored_deleted_slot :
        (q : H160) (k : H256) → deleted state q ≡ true → slot s' o.branch q k ≡ slot s o.branch q k
    unfolding deleted Stack.deleted
    stored_deleted_slot q k h = ground (arith, de.slots q k, fl.slots q k)

    stored_slot :
        IsSorted f.storages
        → (q : H160) (k : H256) → deleted state q ≡ false
        → get (q, k) f.storages ≢ some 0
        → unwrap_or 0 (slot s' o.branch q k) ≡ storage state q k
    unfolding deleted Stack.deleted storage known_storage account_mut known_account as_backend get
    stored_slot sorted q k h nz = ground (
      arith,
      de.slots q k,
      fl.slots q k,
      untouched_account q,
      untouched_slot q k,
      get-storage_of q k f.storages [] sorted,
    )

  -- The changes of a root journal with sorted maps are applied without a panic, on a branch that
  -- can be written and is the default one of the collections: afterwards the store reads, for
  -- every address that is not deleted, the balance, the nonce and the code of the state, and each
  -- slot but those that the execution wrote a zero to, which keep their old value unless the
  -- account was reset; a deleted account is gone, and its slots stay.
  pub apply-deconstruct :
      o.default_branch ≡ o.branch
      → writable s o.branch ≡ true
      → IsSortedFrame f
      → (changes : List Apply × List Log) × (State.deconstruct state ≡ some changes)
        × (s' : Store) × (apply v o changes.0 false s ≡ some s')
        × Stored s'
  unfolding State.deconstruct deconstruct
  apply-deconstruct d w sorted =
      let plan = modifications-planned (as_backend v o s) touched entry f (λ q. refl) in
      let l-sorted =
        slot_addresses-IsSorted f.storages (account_addresses f.accounts [])
          (account_addresses-IsSorted f.accounts [] tt) in
      let (t, e, fl) = apply-planned v laws o entry f.storages f.deletes touched s d w l-sorted in
      let (s', e', de) = apply-deletions v laws o f.deletes t fl.still_writable in
      (
        (_, f.logs),
        refl,
        s',
        ap (λ l. apply v o (l ++ deletions f.deletes) false s) plan
            ∙ apply-append v laws o (planned entry f.storages f.deletes touched)
                (deletions f.deletes) s t e
            ∙ e',
        record {
          deleted_accounts = stored_deleted t s' fl de;
          basics = stored_basic t s' fl de;
          codes = stored_code t s' fl de;
          slots = stored_slot t s' fl de sorted.storages;
          zero_writes = stored_zero t s' fl de sorted.storages;
          deleted_slots = stored_deleted_slot t s' fl de;
        },
      )
