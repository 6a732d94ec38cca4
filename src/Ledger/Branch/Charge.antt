-- ===== src/Ledger/Branch/Charge.antt =====
-- ledger/mod.rs: the fee of a transaction, and the branch after a failed one.
use ovr.Prelude.{
  ◌+◌, ◌-◌, ◌≤◌, ◌≡◌, refl, true, false, none, some, ltb, if◌then◌else◌, arith, ◌==◌, ◌&&◌,
  unwrap_or, Option-cases, Bool-cases, inl, inr,
}
use ovr.Primitives.{H160, H256, U256, saturating_sub}
use ovr.BTree.Keys.{same, bytes_key}
use ovr.Vsdb.{BranchName, OvrAccount, WriteLaws}
use ovr.Ethvm.Backend.{default_account}
use ovr.Ethvm.Backend.Changes.{same_refl}
use ovr.Ledger.Block.{LedgerCrates}
use ovr.Ledger.Branch.Apply.{charge_fee}

module _ (c : LedgerCrates) (laws : WriteLaws c.crates.db) where
  open c.crates use {db}

  abbrev account_of : db.Store → BranchName → H160 → OvrAccount
  account_of s b a = unwrap_or default_account (db.account s b a)

  -- The fee is gone from the caller's balance, which stops at zero, and nothing else has changed.
  pub record Debited (b : BranchName) (caller : H160) (fee : U256) (s s' : db.Store) : Type 0 where
    pub balance : (account_of s' b caller).balance ≡ (
        if ltb (account_of s b caller).balance fee
        then 0
        else (account_of s b caller).balance - fee)
    pub nonce : (account_of s' b caller).nonce ≡ (account_of s b caller).nonce
    pub code : (account_of s' b caller).code ≡ (account_of s b caller).code
    pub others :
        (q : BranchName) (a : H160)
        → (same q b && a == caller) ≡ false
        → db.account s' q a ≡ db.account s q a
    pub slots : (q : BranchName) (a : H160) (k : H256) → db.slot s' q a k ≡ db.slot s q a k

  -- The fee is gone from the caller's balance, and nothing else has changed.
  pub record Taken (b : BranchName) (caller : H160) (fee : U256) (s s' : db.Store) : Type 0 where
    pub balance : (account_of s' b caller).balance + fee ≡ (account_of s b caller).balance
    pub nonce : (account_of s' b caller).nonce ≡ (account_of s b caller).nonce
    pub code : (account_of s' b caller).code ≡ (account_of s b caller).code
    pub others :
        (q : BranchName) (a : H160)
        → (same q b && a == caller) ≡ false
        → db.account s' q a ≡ db.account s q a
    pub slots : (q : BranchName) (a : H160) (k : H256) → db.slot s' q a k ≡ db.slot s q a k

  insert-Debited :
      (caller : H160) (fee : U256) (b : BranchName) (s : db.Store) (account : OvrAccount)
      → db.writable s b ≡ true
      → db.account s b caller ≡ some account
      → Debited b caller fee s (
          db.insert_account b caller
            (record account { balance = saturating_sub account.balance fee })
            s)
  insert-Debited caller fee b s account w e =
      let new = record account { balance = saturating_sub account.balance fee } in
      let now = laws.account-insert_account b b caller caller new s w in
      record {
        balance = ground (arith, now, e, same_refl b);
        nonce = ground (arith, now, e, same_refl b);
        code = ground (arith, now, e, same_refl b);
        others = λ q a n. ground (arith, laws.account-insert_account b q caller a new s w);
        slots = λ q a k. laws.slot-insert_account b q caller a k new s w;
      }

  -- A fee is charged to an account that is there, and where it is not, to none if it is zero.
  pub charge_fee-Debited :
      (caller : H160) (fee : U256) (b : BranchName) (s : db.Store)
      → db.writable s b ≡ true
      → (db.account s b caller ≡ none → fee ≡ 0)
      → (s' : db.Store) × (charge_fee c caller fee b s ≡ some s') × Debited b caller fee s s'
  unfolding charge_fee
  charge_fee-Debited caller fee b s w h = elim (Bool-cases (fee == 0)) [
    | inl free ↦ (
      s,
      ground arith,
      record {
        balance = ground arith;
        nonce = refl;
        code = refl;
        others = λ q a n. refl;
        slots = λ q a k. refl;
      },
    )
    | inr paid ↦ elim (Option-cases (db.account s b caller)) [
      | inl missing ↦ absurd (ground (arith, missing, h missing))
      | inr (account, e) ↦ (
        db.insert_account b caller (record account { balance = saturating_sub account.balance fee })
            s,
        ground (arith, e),
        insert-Debited caller fee b s account w e,
      )
    ]
  ]

  -- On a branch that can be written, a fee that the balance of the caller covers is taken from
  -- it in full and without a panic; its nonce and code, all other accounts and all slots stay.
  pub charge_fee-Taken :
      (caller : H160) (fee : U256) (b : BranchName) (s : db.Store)
      → db.writable s b ≡ true
      → fee ≤ (account_of s b caller).balance
      → (s' : db.Store) × (charge_fee c caller fee b s ≡ some s') × Taken b caller fee s s'
  charge_fee-Taken caller fee b s w h =
      let (s', e, d) = charge_fee-Debited caller fee b s w (λ missing. ground (arith, missing)) in
      (
        s',
        e,
        record {
          balance = ground (arith, d.balance);
          nonce = d.nonce;
          code = d.code;
          others = d.others;
          slots = d.slots;
        },
      )
