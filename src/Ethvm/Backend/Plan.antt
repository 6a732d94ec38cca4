-- ===== src/Ethvm/Backend/Plan.antt =====
-- ethvm/impls/backend.rs: the loop over the changes that `deconstruct` makes for the addresses of
-- a journal, by what it leaves in the database.
use ovr.Prelude.{
  ◌≡◌, refl, ap, ◌∙◌, true, false, not, none, some, List, [], ◌∷◌, arith, ◌==◌, ◌&&◌, if◌then◌else◌,
  unwrap_or, Bool-cases, inl, inr,
}
use ovr.Primitives.{H160, H256}
use ovr.BTree.{BTreeMap, BTreeSet, get, insert, contains}
use ovr.BTree.Keys.{nat_key, pair_key, bytes_key}
use ovr.BTree.Laws.{get-insert}
use ovr.BTree.Order.{IsSorted, Above, get-Above}
use ovr.Evm.{Apply, modify, Backend}
use ovr.Vsdb.{BranchName, Operations, WriteLaws}
use ovr.Ethvm.Stack.{OvrStackAccount, Frame, root, known_account, account_mut, set_account}
use ovr.Ethvm.Stack.Flush.{storage_of, modifications}
use ovr.Ethvm.Stack.Addresses.{storage_of-IsSorted}
use ovr.Ethvm.Backend.{
  OvrBackend, default_account, changed_account, apply, apply_change, modify_account,
}
use ovr.Ethvm.Backend.Changes.{Changed, modify_account_lem, slot_after}

pub contains-cons :
    (q a : H160) (l : BTreeSet H160)
    → contains q ((a, tt) ∷ l) ≡ (if q == a then true else contains q l)
unfolding contains get
contains-cons q a l = ground arith

pub contains-Above : (a : H160) (l : BTreeSet H160) → Above a l → contains a l ≡ false
unfolding contains
contains-Above a l h = ground (arith, get-Above a l h)

module _ {M : Type 0} where
  -- To borrow an entry changes no later borrowing.
  account_mut-set_account :
      (b : Backend) (a q : H160) (f : Frame M)
      → account_mut b q (set_account a (account_mut b a (root f)) (root f))
        ≡ account_mut b q (root f)
  unfolding account_mut set_account known_account
  account_mut-set_account b a q f =
      ground (arith, get-insert q a (account_mut b a (root f)) f.accounts)

-- The loop of `deconstruct` over a fixed table of entries.
pub planned :
    (H160 → OvrStackAccount)
    → BTreeMap (H160 × H256) H256
    → BTreeSet H160
    → BTreeSet H160
    → List Apply
planned entry storages deletes [] = []
planned entry storages deletes ((a, _) ∷ rest) = elim (contains a deletes) [
  | true ↦ planned entry storages deletes rest
  | false ↦
      modify a (entry a).basic (entry a).code (storage_of a storages []) (entry a).reset
      ∷ planned entry storages deletes rest
]

module _ (entry : H160 → OvrStackAccount) (storages : BTreeMap (H160 × H256) H256)
    (deletes : BTreeSet H160) (a : H160) (u : Unit {0}) (l : BTreeSet H160) where
  planned-gone :
      contains a deletes ≡ true
      → planned entry storages deletes ((a, u) ∷ l) ≡ planned entry storages deletes l
  unfolding planned
  planned-gone h = rw (h, planned)

  planned-kept :
      contains a deletes ≡ false
      → planned entry storages deletes ((a, u) ∷ l)
        ≡ modify a (entry a).basic (entry a).code (storage_of a storages []) (entry a).reset
          ∷ planned entry storages deletes l
  unfolding planned
  planned-kept h = rw (h, planned)

module _ {M : Type 0} where
  pub modifications-planned :
      (b : Backend) (l : BTreeSet H160) (entry : H160 → OvrStackAccount) (f : Frame M)
      → ((q : H160) → account_mut b q (root f) ≡ entry q)
      → modifications b l (root f) ≡ planned entry f.storages f.deletes l
  unfolding modifications planned set_account
  modifications-planned b [] entry f h = refl
  modifications-planned b ((a, _) ∷ l) entry f h = elim (Bool-cases (contains a f.deletes)) [
    | inl gone ↦ rw (gone, modifications, planned) (modifications-planned b l entry f h)
    | inr kept ↦
        let f' = record f { accounts = insert a (account_mut b a (root f)) f.accounts } in
        let ih = modifications-planned b l entry f' (λ q. account_mut-set_account b a q f ∙ h q) in
        rw (kept, modifications, planned) (cc (h a, ih))
  ]

module _ (v : Operations) (laws : WriteLaws v) where
  open v use {Store, account, slot, writable}

  -- The store after the loop: the addresses of the list that are not deleted are written.
  pub record Flushed (b : BranchName) (entry : H160 → OvrStackAccount)
      (storages : BTreeMap (H160 × H256) H256) (deletes l : BTreeSet H160) (s s' : Store)
      : Type 0 where
    pub still_writable : writable s' b ≡ true
    pub accounts :
        (q : H160)
        → account s' b q ≡ (
            if contains q l && not (contains q deletes)
            then some (
                changed_account
                  (entry q).basic
                  (entry q).code
                  (unwrap_or default_account (account s b q)))
            else account s b q)
    pub slots :
        (q : H160) (k : H256)
        → slot s' b q k ≡ (
            if contains q l && not (contains q deletes)
            then slot_after
                (get k (storage_of q storages []))
                (if (entry q).reset then none else slot s b q k)
            else slot s b q k)

  Flushed-nil :
      (b : BranchName) (entry : H160 → OvrStackAccount) (storages : BTreeMap (H160 × H256) H256)
      (deletes : BTreeSet H160) (s : Store)
      → writable s b ≡ true
      → Flushed b entry storages deletes [] s s
  unfolding contains get
  Flushed-nil b entry storages deletes s w = record {
    still_writable = w;
    accounts = λ q. refl;
    slots = λ q k. refl;
  }

  Flushed-skip :
      (b : BranchName) (entry : H160 → OvrStackAccount) (storages : BTreeMap (H160 × H256) H256)
      (deletes l : BTreeSet H160) (a : H160) (s s' : Store)
      → contains a deletes ≡ true
      → Flushed b entry storages deletes l s s'
      → Flushed b entry storages deletes ((a, tt) ∷ l) s s'
  Flushed-skip b entry storages deletes l a s s' gone h = record {
    still_writable = h.still_writable;
    accounts = λ q. ground (arith, h.accounts q, contains-cons q a l);
    slots = λ q k. ground (arith, h.slots q k, contains-cons q a l);
  }

  Flushed-cons :
      (b : BranchName) (entry : H160 → OvrStackAccount) (storages : BTreeMap (H160 × H256) H256)
      (deletes l : BTreeSet H160) (a : H160) (s t s' : Store)
      → contains a deletes ≡ false
      → Above a l
      → Changed v laws b a
          (changed_account
            (entry a).basic
            (entry a).code
            (unwrap_or default_account (account s b a)))
          (storage_of a storages [])
          (entry a).reset
          s
          t
      → Flushed b entry storages deletes l t s'
      → Flushed b entry storages deletes ((a, tt) ∷ l) s s'
  Flushed-cons b entry storages deletes l a s t s' kept above ch h = record {
    still_writable = h.still_writable;
    accounts = λ q.
        ground (arith, h.accounts q, ch.accounts q, contains-cons q a l, contains-Above a l above);
    slots = λ q k.
        ground (arith, h.slots q k, ch.slots q k, contains-cons q a l, contains-Above a l above);
  }

  pub apply-cons :
      (o : OvrBackend) (x : Apply) (xs : List Apply) (s t : Store)
      → apply_change v o false x s ≡ some t
      → apply v o (x ∷ xs) false s ≡ apply v o xs false t
  unfolding apply
  apply-cons o x xs s t e = rw (e, apply)

  -- The loop does not panic.
  pub apply-planned :
      (o : OvrBackend) (entry : H160 → OvrStackAccount) (storages : BTreeMap (H160 × H256) H256)
      (deletes l : BTreeSet H160) (s : Store)
      → o.default_branch ≡ o.branch
      → writable s o.branch ≡ true
      → IsSorted l
      → (s' : Store) × (apply v o (planned entry storages deletes l) false s ≡ some s')
        × Flushed o.branch entry storages deletes l s s'
  unfolding apply planned
  apply-planned o entry storages deletes [] s d w h =
      (s, refl, Flushed-nil o.branch entry storages deletes s w)
  apply-planned o entry storages deletes ((a, u) ∷ l) s d w h =
      elim (Bool-cases (contains a deletes)) [
        | inl gone ↦
            let (s', e, r) = apply-planned o entry storages deletes l s d w h.1 in
            (
              s',
              ap (λ p. apply v o p false s) (planned-gone entry storages deletes a u l gone) ∙ e,
              Flushed-skip o.branch entry storages deletes l a s s' gone r,
            )
        | inr kept ↦
            let m = storage_of a storages [] in
            let x = entry a in
            let (t, e, ch) =
              modify_account_lem v laws o.branch a x.basic x.code m x.reset s w
                (storage_of-IsSorted a storages [] tt) in
            let (s', e', r) = apply-planned o entry storages deletes l t d ch.still_writable h.1 in
            (
              s',
              ap (λ p. apply v o p false s) (planned-kept entry storages deletes a u l kept)
                  ∙ apply-cons o (modify a x.basic x.code m x.reset) _ s t (
                      ap (λ c. modify_account v o.branch c false a x.basic x.code m x.reset s) d
                      ∙ e)
                  ∙ e',
              Flushed-cons o.branch entry storages deletes l a s t s' kept h.0 ch r,
            )
      ]
