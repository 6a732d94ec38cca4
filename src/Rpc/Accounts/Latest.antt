-- ===== src/Rpc/Accounts/Latest.antt =====
-- rpc/eth.rs: which state the queries of an account read.
use ovr.Prelude.{◌≡◌, none, ok, err}
use ovr.Primitives.{Bytes, BlockHeight}
use ovr.BTree.Keys.{bytes_key}
use ovr.Vsdb.{SameOn}
use ovr.Ledger.Block.{LedgerCrates}
use ovr.Ledger.Branch.{main_branch_name}
use ovr.Ledger.Rollback.{Management, Target, RollbackError, management, branch_name}
use ovr.Ledger.Rollback.Kept.{Made}
use ovr.Rpc.{rollback, remove_branch, Answer}

module _ (c : LedgerCrates) (evm ledger : Management c.crates.db.Store) where
  open c use {crates}
  open crates use {db}

  -- A query with its branch ends in this value, or the branch was refused, or its removal.
  pub data Gives {A : Type 0} (x : A) (height : BlockHeight) (target : Target) (prefix : Bytes)
      (s : db.Store) : Answer c evm ledger A → Type 0 where
    given :
        (t : db.Store) → SameOn db main_branch_name s t → Gives x height target prefix s (ok x, t)
    not_made :
        (e : RollbackError) (t : db.Store)
        → Made c evm ledger height target prefix s (err e) t
        → SameOn db main_branch_name s t
        → Gives x height target prefix s (err (rollback e), t)
    not_removed :
        (t : db.Store)
        → (management c evm ledger target).branch_remove (branch_name prefix height) t ≡ none
        → SameOn db main_branch_name s t
        → Gives x height target prefix s (err remove_branch, t)
