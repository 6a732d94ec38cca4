-- ===== src/Ledger/Branch/Failure.antt =====
-- ledger/mod.rs: what `apply_tx` does to the branch where the transaction fails.
use mathlib.Core.Option as Option
use mathlib.Core.Path.{subst}
use ovr.Prelude.{◌+◌, ◌≡◌, refl, true, Option, none, some, arith, length, Bool-cases, inl, inr}
use ovr.Primitives.{Bytes}
use ovr.Vsdb.{BranchName, SameOn, WriteLaws, VersionLaws, VsVersion}
use ovr.Ethvm.Tx.{TransactionAny}
use ovr.Ethvm.Tx.Exec as Exec
use ovr.Ethvm.Tx.Effects.{ExecutorLaws}
use ovr.Ledger.Block.{LedgerCrates}
use ovr.Ledger.Branch.{Shared, StateBranch}
use ovr.Ledger.Branch.Apply.{Ret, evm_ret, ApplyError, refused_version, failed, ensure_version}
use ovr.Ledger.Branch.Charge.{Debited}

module _ (c : LedgerCrates) (laws : WriteLaws c.crates.db)
    (versions : VersionLaws c.crates.db) where
  open c use {crates, encode_version}
  open crates use {db, evm}

  -- The version of the next transaction.
  abbrev pub next_version : StateBranch c → Bytes
  next_version sb =
      let ver : VsVersion = record {
        block_height = sb.block_in_process.header.height;
        tx_position = 1 + length sb.tx_hashes_in_process;
      } in
      encode_version ver

  abbrev Same : db.Store → db.Store → Type 0
  Same s t = (q : BranchName) → SameOn db q s t

  pub ensure_version-Same :
      (b : BranchName) (s t : db.Store)
      → ensure_version c b s ≡ some t
      → Same s t × (db.writable t b ≡ true)
  unfolding ensure_version
  ensure_version-Same b s t h = elim (Bool-cases (db.has_versions s b)) [
    | inl has ↦
        let e : s ≡ t = ground (arith, has) in
        (
          subst (λ x. Same s x) e
              (λ q. record { account = λ a. refl; slot = λ a k. refl; gas_price = refl }),
          subst (λ x. db.writable x b ≡ true) e (versions.writable_of_versions s b has),
        )
    | inr lacks ↦
        let e : db.version_create (encode_version (record { block_height = 0; tx_position = 0 })) b
              s
            ≡ some t =
          ground (arith, lacks) in
        (λ q. versions.same_at_create _ b q s t e, versions.writable_at_create _ b s t e)
  ]

  -- What the database reads after a failed transaction that was answered with `e`, where `s` is
  -- the store before it and the result is `r`.
  pub data Refused (b : BranchName) (s : db.Store)
      : Option (Ret c) → ApplyError evm.ExitReason → db.Store → Type 0 where
    unexecuted : (t : db.Store) → Same s t → Refused b s none (failed none) t
    uncharged : (ret : Ret c) (t : db.Store) → Same s t → Refused b s (some ret) refused_version t
    charged :
        (ret : Ret c) (t u : db.Store)
        → Same s t
        → Debited c laws b ret.caller ret.fee_used t u
        → Refused b s (some ret) (failed (some (evm_ret ret))) u

  -- The sender in `s` is there, unless nothing is charged.
  abbrev Chargeable : BranchName → Option (Ret c) → db.Store → Type 0
  Chargeable b none s = Unit
  Chargeable b (some ret) s = db.account s b ret.caller ≡ none → ret.fee_used ≡ 0

  module _ (ex : ExecutorLaws crates) (tx : TransactionAny) (w : Shared c)
      (sb : StateBranch c) where
    abbrev versioned : db.Store → Shared c
    versioned s = record w { store = s }
