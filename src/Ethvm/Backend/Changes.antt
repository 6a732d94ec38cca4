-- ===== src/Ethvm/Backend/Changes.antt =====
-- ethvm/impls/backend.rs: what one change leaves in the database, on a branch that can be
-- written and that the collections write to by default.
use ovr.Prelude.{
  ◌≡◌, refl, ◌∙◌, Bool, true, false, Option, none, some, [], ◌∷◌, arith, ◌==◌, ◌&&◌, if◌then◌else◌,
  unwrap_or, Bool-cases, inl, inr,
}
use ovr.Primitives.{H160, H256, Bytes}
use ovr.BTree.{BTreeMap, get}
use ovr.BTree.Keys.{same, nat_key, bytes_key}
use ovr.BTree.Order.{IsSorted, Above, get-Above}
use ovr.Evm.{Basic}
use ovr.Vsdb.{BranchName, OvrAccount, Operations, WriteLaws}
use ovr.Ethvm.Backend.{
  default_account, changed_account, is_empty_account, reset_storage, write_slots, modify_account,
}

pub same_refl : (b : BranchName) → same b b ≡ true
same_refl b = rw (bytes_key.cmp_refl b, same)

if_and_false {ℓ} : {A : Type ℓ} (c : Bool) (x y : A) → (if c && false then x else y) ≡ y
if_and_false true x y = refl
if_and_false false x y = refl

-- A slot after a change: a written value that is not zero, or the old value.
abbrev pub slot_after : Option H256 → Option H256 → Option H256
slot_after none old = old
slot_after (some x) old = if x == 0 then old else some x

module _ (v : Operations) (laws : WriteLaws v) where
  open v use {Store, account, slot, writable}

  -- The store after the loop over the slots of the address `a`.
  pub record SlotsWritten (b : BranchName) (a : H160) (m : BTreeMap H256 H256) (s s' : Store)
      : Type 0 where
    pub still_writable : writable s' b ≡ true
    pub accounts : (q : H160) → account s' b q ≡ account s b q
    pub slots :
        (q : H160) (k : H256)
        → slot s' b q k ≡ (if q == a then slot_after (get k m) (slot s b q k) else slot s b q k)

  SlotsWritten-nil :
      (b : BranchName) (a : H160) (s : Store) → writable s b ≡ true → SlotsWritten b a [] s s
  unfolding get
  SlotsWritten-nil b a s w = record {
    still_writable = w;
    accounts = λ q. refl;
    slots = λ q k. ground arith;
  }

  SlotsWritten-zero :
      (b : BranchName) (a : H160) (i x : H256) (m : BTreeMap H256 H256) (s s' : Store)
      → (x == 0) ≡ true
      → Above i m
      → SlotsWritten b a m s s'
      → SlotsWritten b a ((i, x) ∷ m) s s'
  unfolding get
  SlotsWritten-zero b a i x m s s' z above h = record {
    still_writable = h.still_writable;
    accounts = h.accounts;
    slots = λ q k. ground (arith, h.slots q k, get-Above i m above);
  }

  SlotsWritten-insert :
      (b : BranchName) (a : H160) (i x : H256) (m : BTreeMap H256 H256) (s s' : Store)
      → writable s b ≡ true
      → (x == 0) ≡ false
      → Above i m
      → SlotsWritten b a m (v.insert_slot b a i x s) s'
      → SlotsWritten b a ((i, x) ∷ m) s s'
  unfolding get
  SlotsWritten-insert b a i x m s s' w z above h = record {
    still_writable = h.still_writable;
    accounts = λ q. h.accounts q ∙ laws.account-insert_slot b b a q i x s w;
    slots = λ q k. ground (
      arith,
      h.slots q k,
      get-Above i m above,
      laws.slot-insert_slot b b a q i k x s w,
      same_refl b,
    );
  }

  -- The loop over the slots does not panic.
  write_slots_lem :
      (b : BranchName) (a : H160) (m : BTreeMap H256 H256) (s : Store)
      → writable s b ≡ true
      → IsSorted m
      → (s' : Store) × (write_slots v b a m s ≡ some s') × SlotsWritten b a m s s'
  unfolding write_slots
  write_slots_lem b a [] s w sorted = (s, refl, SlotsWritten-nil b a s w)
  write_slots_lem b a ((i, x) ∷ m) s w sorted = elim (Bool-cases (x == 0)) [
    | inl z ↦
        let (s', e, h) = write_slots_lem b a m s w sorted.1 in
        (s', rw (z, write_slots) e, SlotsWritten-zero b a i x m s s' z sorted.0 h)
    | inr z ↦
        let (s', e, h) =
          write_slots_lem b a m (v.insert_slot b a i x s)
            (laws.writable-insert_slot b b a i x s ∙ w) sorted.1 in
        (s', rw (z, write_slots, w) e, SlotsWritten-insert b a i x m s s' w z sorted.0 h)
  ]

  -- The store after a change of the address `a`, for a branch that is its own default.
  pub record Changed (b : BranchName) (a : H160) (new : OvrAccount) (m : BTreeMap H256 H256)
      (reset : Bool) (s s' : Store) : Type 0 where
    pub still_writable : writable s' b ≡ true
    pub accounts : (q : H160) → account s' b q ≡ (if q == a then some new else account s b q)
    pub slots :
        (q : H160) (k : H256)
        → slot s' b q k ≡ (
            if q == a
            then slot_after (get k m) (if reset then none else slot s b q k)
            else slot s b q k)

  -- The write of the account, after its slots.
  Changed-insert :
      (b : BranchName) (a : H160) (new : OvrAccount) (m : BTreeMap H256 H256) (s s' : Store)
      → SlotsWritten b a m s s'
      → Changed b a new m false s (v.insert_account b a new s')
  Changed-insert b a new m s s' h =
      let w = h.still_writable in
      record {
        still_writable = laws.writable-insert_account b b a new s' ∙ w;
        accounts = λ q.
            ground (arith, h.accounts q, laws.account-insert_account b b a q new s' w, same_refl b);
        slots = λ q k. laws.slot-insert_account b b a q k new s' w ∙ h.slots q k;
      }

  Changed-reset :
      (b : BranchName) (a : H160) (new : OvrAccount) (m : BTreeMap H256 H256) (s s' : Store)
      → writable s b ≡ true
      → Changed b a new m false (v.remove_slots b a s) s'
      → Changed b a new m true s s'
  Changed-reset b a new m s s' w h = record {
    still_writable = h.still_writable;
    accounts = λ q. ground (arith, h.accounts q, laws.account-remove_slots b b a q s w);
    slots = λ q k. ground (arith, h.slots q k, laws.slot-remove_slots b b a q k s w, same_refl b);
  }

  -- On a branch that can be written and that the collections write to by default, and where an
  -- empty account is kept, a change of an account with a sorted map of slots does not panic: the
  -- address has the new account and the slots of the map, where a zero counts as nothing written
  -- and a reset has dropped the others, and the rest of this branch stays.
  pub modify_account_lem :
      (b : BranchName) (a : H160) (basic : Basic) (code : Option Bytes) (m : BTreeMap H256 H256)
      (reset : Bool) (s : Store)
      → writable s b ≡ true
      → IsSorted m
      → (s' : Store) × (modify_account v b b false a basic code m reset s ≡ some s')
        × Changed b a
            (changed_account basic code (unwrap_or default_account (account s b a)))
            m
            reset
            s
            s'
  unfolding modify_account reset_storage
  modify_account_lem b a basic code m true s w sorted =
      let new = changed_account basic code (unwrap_or default_account (account s b a)) in
      let s₁ = v.remove_slots b a s in
      let (s₂, e, h) = write_slots_lem b a m s₁ (laws.writable-remove_slots b b a s ∙ w) sorted in
      (
        v.insert_account b a new s₂,
        rw (w, e, h.still_writable) (if_and_false (is_empty_account new) _ _),
        Changed-reset b a new m s (v.insert_account b a new s₂) w
            (Changed-insert b a new m s₁ s₂ h),
      )
  modify_account_lem b a basic code m false s w sorted =
      let new = changed_account basic code (unwrap_or default_account (account s b a)) in
      let (s₂, e, h) = write_slots_lem b a m s w sorted in
      (
        v.insert_account b a new s₂,
        rw (e, h.still_writable) (if_and_false (is_empty_account new) _ _),
        Changed-insert b a new m s s₂ h,
      )
