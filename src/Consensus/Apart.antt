-- ===== src/Consensus/Apart.antt =====
-- consensus/mod.rs: what a transaction that is checked or delivered leaves alone.
use mathlib.Core.Option.{some-injective}
use mathlib.Core.Path.{subst}
use ovr.Prelude.{
  ℕ, ◌≡◌, refl, ◌==◌, false, Option, none, some, arith, bind_some, Bool-cases, inl, inr,
}
use ovr.Primitives.{Bytes}
use ovr.BTree.Keys.{same, bytes_key}
use ovr.Vsdb.{BranchName, WriteLaws, VersionLaws}
use ovr.Ethvm.Backend.Elsewhere.{SameState, same_state}
use ovr.Ledger.Block.{Tx, LedgerCrates}
use ovr.Ledger.Branch.{Shared, StateBranch}
use ovr.Ledger.Branch.Elsewhere.{apply_tx-SameState}
use ovr.Ledger.Branch.Untouched.{apply_tx-blocks}
use ovr.Ledger.Branch.Apply.{apply_tx}
use ovr.Ledger.Chain.{Ledger}
use ovr.Consensus.{AppCrates, handle, check_tx, deliver_tx}

module _ (c : LedgerCrates) (a : AppCrates c) (laws : WriteLaws c.crates.db)
    (versions : VersionLaws c.crates.db) (q : BranchName) where
  open c use {crates}
  open crates use {db}

  -- The state of this branch and the stored blocks are the same.
  pub record Apart (w w' : Shared c) : Type 0 where
    pub state : SameState db q w.store w'.store
    pub blocks : w'.blocks ≡ w.blocks

  same_shared : (w w' : Shared c) → w ≡ w' → Apart w w'
  same_shared w w' e =
      subst (Apart w) e (record { state = same_state db q _ _ refl; blocks = refl })

  handle-Apart :
      (tx : Option Tx) (w w' : Shared c) (sb sb' : StateBranch c) (code : ℕ)
      → same q sb.branch ≡ false
      → same q sb.default_branch ≡ false
      → handle c a tx (w, sb) ≡ some (code, w', sb')
      → Apart w w'
  unfolding apply_tx
  handle-Apart none w w' sb sb' code other other_default h = same_shared w w' (ground (arith, h))
  handle-Apart (some tx) w w' sb sb' code other other_default h =
      let (r, e, h1) = bind_some (apply_tx c tx (w, sb)) _ (code, w', sb') h in
      let same_w : r.1 ≡ w' = ground (arith, h1) in
      subst (Apart w) same_w (record {
        state = apply_tx-SameState c laws versions q tx w r.1 sb r.2 r.0 other other_default e;
        blocks = apply_tx-blocks c tx w r.1 sb r.2 r.0 e;
      })

  -- The branches of the ledger, but for the one that is worked on.
  abbrev pub Works : (Ledger c → StateBranch c) → Ledger c → Ledger c → Type 0
  Works others l l' = Apart l.shared l'.shared × (l'.main ≡ l.main) × (others l' ≡ others l)

  -- Over a database whose writes and versions do what their documentation says: whatever comes of
  -- a transaction that is checked, the accounts and the slots of every branch but the one of the
  -- checks and its default one read as before, and so do the stored blocks; the main branch and
  -- the branch of the delivered transactions are unchanged.
  pub check_tx-Works :
      (type code : ℕ) (tx : Bytes) (l l' : Ledger c)
      → same q l.check_tx.branch ≡ false
      → same q l.check_tx.default_branch ≡ false
      → check_tx c a type tx l ≡ some (code, l')
      → Works (λ x. x.deliver_tx) l l'
  unfolding check_tx
  check_tx-Works type code tx l l' other other_default h = elim (Bool-cases (type == 0)) [
    | inr again ↦
        let e : l ≡ l' = ground (arith, again, h) in
        subst (λ x. Works (λ y. y.deliver_tx) l x) e
          (same_shared l.shared l.shared refl, refl, refl)
    | inl first ↦
        let (r, e, h1) =
          bind_some (handle c a (a.deserialize tx) (l.shared, l.check_tx)) _ (code, l')
            (rw first at h) in
        subst (λ (x : ℕ × Ledger c). Works (λ y. y.deliver_tx) l x.1) (some-injective _ _ h1)
          (
            handle-Apart (a.deserialize tx) l.shared r.1 l.check_tx r.2 r.0 other other_default e,
            refl,
            refl,
          )
  ]

  -- Over a database whose writes and versions do what their documentation says: whatever comes of a transaction that is delivered, the accounts and the
  -- slots of every branch but the one of the delivered transactions and its default one read as
  -- before, and so do the stored blocks; the main branch and the branch of the checks are
  -- unchanged, so that the state of the chain waits for the commit.
  pub deliver_tx-Works :
      (code : ℕ) (tx : Bytes) (l l' : Ledger c)
      → same q l.deliver_tx.branch ≡ false
      → same q l.deliver_tx.default_branch ≡ false
      → deliver_tx c a tx l ≡ some (code, l')
      → Works (λ x. x.check_tx) l l'
  unfolding deliver_tx
  deliver_tx-Works code tx l l' other other_default h =
      let (r, e, h1) =
        bind_some (handle c a (a.deserialize tx) (l.shared, l.deliver_tx)) _ (code, l') h in
      subst (λ (x : ℕ × Ledger c). Works (λ y. y.check_tx) l x.1) (some-injective _ _ h1)
        (
          handle-Apart (a.deserialize tx) l.shared r.1 l.deliver_tx r.2 r.0 other other_default e,
          refl,
          refl,
        )
