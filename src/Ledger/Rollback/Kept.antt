-- ===== src/Ledger/Rollback/Kept.antt =====
-- common/mod.rs: what the branch of a query leaves of the other branches.
use ovr.Prelude.{
  zero, suc, ◌≡◌, refl, ◌∙◌, true, false, none, some, Result, ok, err, Option-cases, inl, inr,
}
use ovr.Primitives.{Bytes, BlockHeight}
use ovr.BTree.Keys.{same, bytes_key}
use ovr.Vsdb.{BranchName, Operations, SameOn}
use ovr.Ledger.Block.{LedgerCrates}
use ovr.Ledger.Branch.{main_branch_name}
use ovr.Ledger.Rollback.{
  Management, Target, RollbackError, zero_height, refused_branch, refused_version, management,
  rollback_to_height, branch_name, next_height,
}

-- What the documentation says of the management of branches: a new branch is there, and a second
-- one of its name is refused; versions come and go without a branch; what the other branches read
-- stays.
pub record ManagementLaws (v : Operations) (m : Management v.Store) : Type 0 where
  pub same_at_create :
      (name parent q : BranchName) (s t : v.Store)
      → m.branch_create_by_base_branch name parent s ≡ some t
      → same q name ≡ false
      → SameOn v q s t
  pub same_at_version :
      (ver : Bytes) (name q : BranchName) (s t : v.Store)
      → m.version_create_by_branch ver name s ≡ some t
      → SameOn v q s t
  pub same_at_remove :
      (name q : BranchName) (s t : v.Store)
      → m.branch_remove name s ≡ some t
      → same q name ≡ false
      → SameOn v q s t
  pub exists_at_create :
      (name parent : BranchName) (s t : v.Store)
      → m.branch_create_by_base_branch name parent s ≡ some t
      → m.branch_exists t name ≡ true
  pub refused_where_exists :
      (name parent : BranchName) (s : v.Store)
      → m.branch_exists s name ≡ true
      → m.branch_create_by_base_branch name parent s ≡ none
  pub exists_at_version :
      (ver : Bytes) (name q : BranchName) (s t : v.Store)
      → m.version_create_by_branch ver name s ≡ some t
      → m.branch_exists t q ≡ m.branch_exists s q

pub SameOn-refl : (v : Operations) (q : BranchName) (s : v.Store) → SameOn v q s s
SameOn-refl v q s = record { account = λ a. refl; slot = λ a k. refl; gas_price = refl }

pub SameOn-trans :
    (v : Operations) (q : BranchName) (s t u : v.Store)
    → SameOn v q s t
    → SameOn v q t u
    → SameOn v q s u
SameOn-trans v q s t u h k = record {
  account = λ a. h.account a ∙ k.account a;
  slot = λ a j. h.slot a j ∙ k.slot a j;
  gas_price = h.gas_price ∙ k.gas_price;
}

module _ (c : LedgerCrates) (evm ledger : Management c.crates.db.Store) where
  open c use {crates, encode_version}
  open crates use {db}

  -- How the making of a branch ends: it is refused at the height 0 or by the database, or both
  -- the branch and its version are there.
  pub data Made (height : BlockHeight) (target : Target) (prefix : Bytes) (s : db.Store)
      : Result BranchName RollbackError → db.Store → Type 0 where
    at_zero : height ≡ 0 → Made height target prefix s (err zero_height) s
    no_branch :
        (management c evm ledger target).branch_create_by_base_branch
            (branch_name prefix height)
            main_branch_name
            s
          ≡ none
        → Made height target prefix s (err refused_branch) s
    no_version :
        (s1 : db.Store)
        → (management c evm ledger target).branch_create_by_base_branch
            (branch_name prefix height)
            main_branch_name
            s
          ≡ some s1
        → Made height target prefix s (err refused_version) s1
    made :
        (s1 s2 : db.Store)
        → (management c evm ledger target).branch_create_by_base_branch
            (branch_name prefix height)
            main_branch_name
            s
          ≡ some s1
        → (management c evm ledger target).version_create_by_branch
            (encode_version (record { block_height = next_height height; tx_position = 0 }))
            (branch_name prefix height)
            s1
          ≡ some s2
        → Made height target prefix s (ok (branch_name prefix height)) s2

  abbrev MadeBy :
      BlockHeight → Target → Bytes → db.Store → Result BranchName RollbackError × db.Store → Type 0
  MadeBy height target prefix s r = Made height target prefix s r.0 r.1

  pub rollback_to_height-Made :
      (height : BlockHeight) (target : Target) (prefix : Bytes) (s : db.Store)
      → MadeBy height target prefix s (rollback_to_height c evm ledger height target prefix s)
  unfolding rollback_to_height
  rollback_to_height-Made zero target prefix s = at_zero refl
  rollback_to_height-Made (suc n) target prefix s =
      let m = management c evm ledger target in
      let name = branch_name prefix (suc n) in
      elim (Option-cases (m.branch_create_by_base_branch name main_branch_name s)) [
        | inl e ↦ rw (rollback_to_height, e) (no_branch e)
        | inr (s1, e) ↦
            elim (Option-cases (
              m.version_create_by_branch
                (encode_version (record { block_height = next_height (suc n); tx_position = 0 }))
                name s1)) [
                  | inl f ↦ rw (rollback_to_height, e, f) (no_version s1 e)
                  | inr (s2, f) ↦ rw (rollback_to_height, e, f) (made s1 s2 e f)
                ]
      ]

  pub Made-SameOn :
      (height : BlockHeight) (target : Target) (prefix : Bytes) (q : BranchName) (s t : db.Store)
      (r : _)
      → ManagementLaws db (management c evm ledger target)
      → same q (branch_name prefix height) ≡ false
      → Made height target prefix s r t
      → SameOn db q s t
  Made-SameOn height target prefix q s _ _ laws other (at_zero h) = SameOn-refl db q s
  Made-SameOn height target prefix q s _ _ laws other (no_branch h) = SameOn-refl db q s
  Made-SameOn height target prefix q s t _ laws other (no_version s1 h) =
      laws.same_at_create _ _ q s s1 h other
  Made-SameOn height target prefix q s t _ laws other (made s1 s2 h k) =
      SameOn-trans db q s s1 s2 (laws.same_at_create _ _ q s s1 h other)
        (laws.same_at_version _ _ q s1 s2 k)
