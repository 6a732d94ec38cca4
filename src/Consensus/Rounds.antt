-- ===== src/Consensus/Rounds.antt =====
-- consensus/mod.rs: the rounds of Tendermint, a block that is begun, delivered to and committed,
-- with checks of transactions at any time.
use mathlib.Core.Path.{subst}
use mathlib.Core.Option.{some-injective}
use ovr.Prelude.{
  ℕ, ◌+◌, ◌≡◌, refl, sym, ap, ◌∙◌, Option, none, some, arith, inl, inr, bind_some, unwrap_or, ◌==◌,
  Bool-cases,
}
use ovr.Primitives.{Bytes, BlockHeight, HashValue}
use ovr.Ledger.Block.{Tx, Block, LedgerCrates, default_block, new_block}
use ovr.Ledger.Branch.{Shared, StateBranch, last_block, next_block}
use ovr.Ledger.Branch.Apply.{apply_tx}
use ovr.Ledger.Branch.Invariant.{IsConsistent}
use ovr.Ledger.Branch.Untouched.{Kept, apply_tx-Kept}
use ovr.Ledger.Chain.{Ledger}
use ovr.Ledger.Chain.Rounds.{consensus_refresh-next_block}
use ovr.Consensus.{AppCrates, handle, check_tx, deliver_tx, begin_block, commit}

-- Between two blocks, or in one.
pub data Phase : Type 0 where
  idle in_block : Phase

module _ (c : LedgerCrates) (a : AppCrates c) where
  open c use {crates, MerkleTreeStore, blocks}

  -- The calls of Tendermint, in the order that it keeps.
  pub data Step : Phase → Ledger c → Phase → Ledger c → Type 0 where
    checked :
        (p : Phase) (type code : ℕ) (tx : Bytes) (l l' : Ledger c)
        → check_tx c a type tx l ≡ some (code, l')
        → Step p l p l'
    begun :
        (header : Option (Bytes × Option ℕ)) (l l' : Ledger c)
        → begin_block c a header l ≡ some l'
        → Step idle l in_block l'
    delivered :
        (code : ℕ) (tx : Bytes) (l l' : Ledger c)
        → deliver_tx c a tx l ≡ some (code, l')
        → Step in_block l in_block l'
    committed :
        (hash : HashValue) (l l' : Ledger c)
        → commit c a l ≡ some (hash, l')
        → Step in_block l idle l'

  pub data Run : Phase → Ledger c → Phase → Ledger c → Type 0 where
    done : (p : Phase) (l : Ledger c) → Run p l p l
    next : (p q r : Phase) (l m n : Ledger c) → Run p l q m → Step q m r n → Run p l r n

  -- The last block of the chain, or the default one of an empty chain.
  abbrev pub top : Ledger c → Block MerkleTreeStore
  top l = unwrap_or (default_block c) (last_block c l.shared)

  -- In a block: the delivered transactions stand on top of the last block.
  pub record Works (l : Ledger c) : Type 0 where
    pub main : IsConsistent c l.main
    pub height : l.deliver_tx.block_in_process.header.height ≡ 1 + (top l).header.height
    pub link : l.deliver_tx.block_in_process.header.prev_hash ≡ (top l).header_hash

  abbrev pub InPhase : Phase → Ledger c → Type 0
  InPhase idle l = Unit
  InPhase in_block l = Works l

  pub record IsSound (p : Phase) (l : Ledger c) : Type 0 where
    pub keyed :
        (h : BlockHeight) (b : Block MerkleTreeStore)
        → blocks.last l.shared.blocks ≡ some (h, b)
        → b.header.height ≡ h
    pub deliver : IsConsistent c l.deliver_tx
    pub check : IsConsistent c l.check_tx
    pub phase : InPhase p l

  handle-Kept :
      (o : Option Tx) (w w' : Shared c) (sb sb' : StateBranch c) (code : ℕ)
      → IsConsistent c sb
      → handle c a o (w, sb) ≡ some (code, w', sb')
      → Kept c w w' sb sb'
  handle-Kept none w w' sb sb' code h e =
      let f : w ≡ w' = ground (arith, e) in
      let g : sb ≡ sb' = ground (arith, e) in
      subst (λ x. Kept c w x sb sb') f
        (subst (λ x. Kept c w w sb x) g
          (record { blocks = refl; height = refl; link = refl; consistent = h }))
  handle-Kept (some tx) w w' sb sb' code h e =
      let (r, applied, e1) = bind_some (apply_tx c tx (w, sb)) _ (code, w', sb') e in
      subst (λ x. Kept c w x.1 sb x.2) (some-injective _ _ e1)
        (apply_tx-Kept c tx w r.1 sb r.2 r.0 h applied)

  -- The last block, where the stored blocks stay.
  top_same : (l l' : Ledger c) → l'.shared.blocks ≡ l.shared.blocks → top l' ≡ top l
  unfolding last_block
  top_same l l' h = rw h refl

  Works-kept :
      (l l' : Ledger c)
      → Works l
      → IsConsistent c l'.main
      → l'.shared.blocks ≡ l.shared.blocks
      → l'.deliver_tx.block_in_process.header.height ≡ l.deliver_tx.block_in_process.header.height
      → l'.deliver_tx.block_in_process.header.prev_hash
        ≡ l.deliver_tx.block_in_process.header.prev_hash
      → Works l'
  Works-kept l l' k main b height link = record {
    main = main;
    height =
        height
        ∙ k.height
        ∙ ap (λ (x : Block MerkleTreeStore). 1 + x.header.height) (sym (top_same l l' b));
    link =
        link ∙ k.link ∙ ap (λ (x : Block MerkleTreeStore). x.header_hash) (sym (top_same l l' b));
  }

  keyed-kept :
      (p : Phase) (l l' : Ledger c)
      → IsSound p l
      → l'.shared.blocks ≡ l.shared.blocks
      → (h : BlockHeight) (b : Block MerkleTreeStore) → blocks.last l'.shared.blocks ≡ some (h, b)
      → b.header.height ≡ h
  keyed-kept p l l' k e h b last = k.keyed h b (ap blocks.last (sym e) ∙ last)

  -- A check touches nothing but the branch of the checks.
  abbrev checked_on : Shared c → StateBranch c → Ledger c → Ledger c
  checked_on w sb l = record l { shared = w; check_tx = sb }

  checked_on-IsSound :
      (p : Phase) (l : Ledger c) (w : Shared c) (sb : StateBranch c)
      → IsSound p l
      → Kept c l.shared w l.check_tx sb
      → IsSound p (checked_on w sb l)
  checked_on-IsSound idle l w sb k kept = record {
    keyed = keyed-kept idle l (checked_on w sb l) k kept.blocks;
    deliver = k.deliver;
    check = kept.consistent;
    phase = tt;
  }
  checked_on-IsSound in_block l w sb k kept = record {
    keyed = keyed-kept in_block l (checked_on w sb l) k kept.blocks;
    deliver = k.deliver;
    check = kept.consistent;
    phase = Works-kept l (checked_on w sb l) k.phase k.phase.main kept.blocks refl refl;
  }

  pub checked-IsSound :
      (p : Phase) (type code : ℕ) (tx : Bytes) (l l' : Ledger c)
      → IsSound p l
      → check_tx c a type tx l ≡ some (code, l')
      → IsSound p l'
  unfolding check_tx
  checked-IsSound p type code tx l l' k h = elim (Bool-cases (type == 0)) [
    | inr again ↦ let e : l ≡ l' = ground (arith, again, h) in subst (IsSound p) e k
    | inl first ↦
        let (r, handled, h1) =
          bind_some (handle c a (a.deserialize tx) (l.shared, l.check_tx))
            (λ r. some (r.0, checked_on r.1 r.2 l)) (code, l') (rw first at h) in
        subst (λ x. IsSound p x.1) (some-injective _ _ h1)
          (checked_on-IsSound p l r.1 r.2 k
            (handle-Kept (a.deserialize tx) l.shared r.1 l.check_tx r.2 r.0 k.check handled))
  ]

  pub delivered-IsSound :
      (code : ℕ) (tx : Bytes) (l l' : Ledger c)
      → IsSound in_block l
      → deliver_tx c a tx l ≡ some (code, l')
      → IsSound in_block l'
  unfolding deliver_tx
  delivered-IsSound code tx l l' k h =
      let (r, handled, h1) =
        bind_some (handle c a (a.deserialize tx) (l.shared, l.deliver_tx)) _ (code, l') h in
      let kept =
        handle-Kept (a.deserialize tx) l.shared r.1 l.deliver_tx r.2 r.0 k.deliver handled in
      let next : Ledger c = record l { shared = r.1; deliver_tx = r.2 } in
      subst (λ x. IsSound in_block x.1) (some-injective _ _ h1)
        (record {
          keyed = keyed-kept in_block l next k kept.blocks;
          deliver = kept.consistent;
          check = k.check;
          phase = Works-kept l next k.phase k.phase.main kept.blocks kept.height kept.link;
        })

  pub begun-IsSound :
      (header : Option (Bytes × Option ℕ)) (l l' : Ledger c)
      → IsSound idle l
      → begin_block c a header l ≡ some l'
      → IsSound in_block l'
  unfolding begin_block next_block new_block
  begun-IsSound header l l' k h =
      let (r, _, h1) = bind_some header _ l' h in
      let (ts, _, h2) = bind_some r.1 _ l' h1 in
      let (start, b) = consensus_refresh-next_block c r.0 ts l l' h2 in
      let same = top_same l l' b in
      record {
        keyed = keyed-kept idle l l' k b;
        deliver = start.deliver_tx.consistent;
        check = start.check_tx.consistent;
        phase = record {
          main = start.main.consistent;
          height =
              ap (λ (x : Block MerkleTreeStore). x.header.height) start.deliver_tx.its_block
              ∙ ap (λ (x : Block MerkleTreeStore). 1 + x.header.height) (sym same);
          link =
              ap (λ (x : Block MerkleTreeStore). x.header.prev_hash) start.deliver_tx.its_block
              ∙ ap (λ (x : Block MerkleTreeStore). x.header_hash) (sym same);
        };
      }
