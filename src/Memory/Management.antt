-- ===== src/Memory/Management.antt =====
-- Branches in memory: those of the EVM are the ones with versions, and those of the chain's own
-- values are kept apart.
use ovr.Prelude.{◌≡◌, Bool, true, false, not, none, some, [], ◌∷◌, arith, if◌then◌else◌, is_empty}
use ovr.Primitives.{Bytes}
use ovr.BTree.Keys.{same, bytes_key}
use ovr.Vsdb.{BranchName}
use ovr.Ethvm.Backend.Changes.{same_refl}
use ovr.Ledger.Rollback.{Management}
use ovr.Ledger.Rollback.Kept.{ManagementLaws}
use ovr.Memory.Store.{Memory, memory, update}

abbrev has_versions : Memory → BranchName → Bool
has_versions s b = not (is_empty (s.versions b))

abbrev push_version : Bytes → BranchName → Memory → Memory
push_version ver b s = record s { versions = update b ((ver, s.now b) ∷ s.versions b) s.versions }

abbrev copy : (name parent : BranchName) → Memory → Memory
copy name parent s = record s { now = update name (s.now parent) s.now }

abbrev pub evm_branches : Management Memory
evm_branches = record {
  branch_exists = has_versions;
  branch_create_by_base_branch = λ name parent s.
      if has_versions s name then none else some (push_version [] name (copy name parent s));
  version_create_by_branch =
      λ ver name s. if has_versions s name then some (push_version ver name s) else none;
  branch_remove = λ name s.
      if has_versions s name
      then some (record s { versions = update name [] s.versions })
      else none;
}

abbrev pub ledger_branches : Management Memory
ledger_branches = record {
  branch_exists = λ s b. s.chain_branches b;
  branch_create_by_base_branch = λ name parent s.
      if s.chain_branches name
      then none
      else some (record (push_version [] name (copy name parent s)) {
        chain_branches = update name true s.chain_branches;
      });
  version_create_by_branch =
      λ ver name s. if s.chain_branches name then some (push_version ver name s) else none;
  branch_remove = λ name s.
      if s.chain_branches name
      then some (record s {
        versions = update name [] s.versions;
        chain_branches = update name false s.chain_branches;
      })
      else none;
}

same_eq : (p q : Bytes) → same p q ≡ true → p ≡ q
same_eq p q h = ground (arith, bytes_key.eq_of_cmp p q)

pub evm_branches-ManagementLaws : ManagementLaws memory evm_branches
evm_branches-ManagementLaws = record {
  same_at_create = λ name parent q s t h o. record {
    account = λ a. ground (arith, h, o);
    slot = λ a k. ground (arith, h, o);
    gas_price = ground (arith, h);
  };
  same_at_version = λ ver name q s t h. record {
    account = λ a. ground (arith, h);
    slot = λ a k. ground (arith, h);
    gas_price = ground (arith, h);
  };
  same_at_remove = λ name q s t h o. record {
    account = λ a. ground (arith, h);
    slot = λ a k. ground (arith, h);
    gas_price = ground (arith, h);
  };
  exists_at_create = λ name parent s t h. ground (arith, h, same_refl name);
  refused_where_exists = λ name parent s h. ground (arith, h);
  exists_at_version = λ ver name q s t h. ground (arith, h, same_eq q name);
}

pub ledger_branches-ManagementLaws : ManagementLaws memory ledger_branches
ledger_branches-ManagementLaws = record {
  same_at_create = λ name parent q s t h o. record {
    account = λ a. ground (arith, h, o);
    slot = λ a k. ground (arith, h, o);
    gas_price = ground (arith, h);
  };
  same_at_version = λ ver name q s t h. record {
    account = λ a. ground (arith, h);
    slot = λ a k. ground (arith, h);
    gas_price = ground (arith, h);
  };
  same_at_remove = λ name q s t h o. record {
    account = λ a. ground (arith, h);
    slot = λ a k. ground (arith, h);
    gas_price = ground (arith, h);
  };
  exists_at_create = λ name parent s t h. ground (arith, h, same_refl name);
  refused_where_exists = λ name parent s h. ground (arith, h);
  exists_at_version = λ ver name q s t h. ground (arith, h);
}

-- A removal in the collections of the EVM leaves the chain's own branches alone.
pub apart :
    (b q : BranchName) (u t : Memory)
    → evm_branches.branch_remove b u ≡ some t
    → ledger_branches.branch_exists t q ≡ ledger_branches.branch_exists u q
apart b q u t h = ground (arith, h)
