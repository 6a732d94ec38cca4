-- ===== src/Vsdb.antt =====
-- The versioned database of the `vsdb` crate, as far as the program uses it. The crate is not
-- part of the repository: it is a record of operations on a shared store, with the documented
-- laws that the proofs rely on. A write that returns an error is one whose test `writable` fails;
-- of the other calls the error is `none`.
use ovr.Prelude.{ℕ, ◌<◌, List, ◌≡◌, Bool, true, Option, none, some, ◌==◌, ◌&&◌, if◌then◌else◌}
use ovr.Primitives.{H160, H256, U256, Bytes}
use ovr.BTree.Keys.{same, bytes_key}

abbrev pub BranchName : Type 0
BranchName = Bytes

-- ethvm/mod.rs: `OvrAccount`, the value that the store keeps for an address.
pub record OvrAccount : Type 0 where
  pub nonce : U256
  pub balance : U256
  pub code : Bytes

-- ledger/mod.rs: `VsVersion`, the name of a version: a block and the position of a transaction.
pub record VsVersion : Type 0 where
  pub block_height : ℕ
  pub tx_position : ℕ

-- The versioned collections `OFUEL.accounts` and `OFUEL.storages`, the versioned values of the
-- chain, and the management of branches and versions.
pub record Operations : Type 1 where
  pub Store : Type 0
  pub account : Store → BranchName → H160 → Option OvrAccount
  pub slot : Store → BranchName → H160 → H256 → Option H256
  pub gas_price : Store → BranchName → Option U256
  -- A write to the branch succeeds: the branch exists and has a version.
  pub writable : Store → BranchName → Bool
  pub insert_account : BranchName → H160 → OvrAccount → Store → Store
  pub remove_account : BranchName → H160 → Store → Store
  pub insert_slot : BranchName → H160 → H256 → H256 → Store → Store
  -- `remove_by_branch` on a prefix of the double key
  pub remove_slots : BranchName → H160 → Store → Store
  pub chain_id : Store → BranchName → Option ℕ
  pub block_gas_limit : Store → BranchName → Option U256
  pub block_base_fee_per_gas : Store → BranchName → Option U256
  -- `set_value` of the versioned values, on the default branch of the handle
  pub set_chain_id : BranchName → ℕ → Store → Option Store
  pub set_chain_name : BranchName → Bytes → Store → Option Store
  pub set_chain_version : BranchName → Bytes → Store → Option Store
  pub set_gas_price : BranchName → U256 → Store → Option Store
  pub set_block_gas_limit : BranchName → U256 → Store → Option Store
  pub set_block_base_fee_per_gas : BranchName → U256 → Store → Option Store
  -- the default branch of a new handle, and `INITIAL_VERSION`
  pub initial_branch : BranchName
  pub initial_version : Bytes
  -- Versions are named by the bytes that they are encoded to.
  pub version_exists : Store → Bytes → BranchName → Bool
  pub has_versions : Store → BranchName → Bool
  pub version_create : Bytes → BranchName → Store → Option Store
  pub version_pop : BranchName → Store → Option Store
  pub branch_exists : Store → BranchName → Bool
  -- a branch from the default branch of the handle
  pub branch_create : (default name : BranchName) → Store → Option Store
  pub branch_create_by_base_branch : (name parent : BranchName) → Store → Option Store
  pub branch_remove : BranchName → Store → Option Store
  pub branch_merge_to_parent : BranchName → Store → Option Store

-- Two stores read the same on a branch.
pub record SameOn (v : Operations) (b : BranchName) (s t : v.Store) : Type 0 where
  pub account : (a : H160) → v.account s b a ≡ v.account t b a
  pub slot : (a : H160) (k : H256) → v.slot s b a k ≡ v.slot t b a k
  pub gas_price : v.gas_price s b ≡ v.gas_price t b

-- What the documentation says of writes: they change the one entry, on the one branch.
pub record WriteLaws (v : Operations) : Type 0 where
  pub account-insert_account :
      (b c : BranchName) (a q : H160) (x : OvrAccount) (s : v.Store)
      → v.writable s b ≡ true
      → v.account (v.insert_account b a x s) c q
        ≡ (if same c b && q == a then some x else v.account s c q)
  pub account-remove_account :
      (b c : BranchName) (a q : H160) (s : v.Store)
      → v.writable s b ≡ true
      → v.account (v.remove_account b a s) c q
        ≡ (if same c b && q == a then none else v.account s c q)
  pub account-insert_slot :
      (b c : BranchName) (a q : H160) (k x : H256) (s : v.Store)
      → v.writable s b ≡ true
      → v.account (v.insert_slot b a k x s) c q ≡ v.account s c q
  pub account-remove_slots :
      (b c : BranchName) (a q : H160) (s : v.Store)
      → v.writable s b ≡ true
      → v.account (v.remove_slots b a s) c q ≡ v.account s c q
  pub slot-insert_account :
      (b c : BranchName) (a q : H160) (k : H256) (x : OvrAccount) (s : v.Store)
      → v.writable s b ≡ true
      → v.slot (v.insert_account b a x s) c q k ≡ v.slot s c q k
  pub slot-remove_account :
      (b c : BranchName) (a q : H160) (k : H256) (s : v.Store)
      → v.writable s b ≡ true
      → v.slot (v.remove_account b a s) c q k ≡ v.slot s c q k
  pub slot-insert_slot :
      (b c : BranchName) (a q : H160) (k j x : H256) (s : v.Store)
      → v.writable s b ≡ true
      → v.slot (v.insert_slot b a k x s) c q j
        ≡ (if same c b && (q == a && j == k) then some x else v.slot s c q j)
  pub slot-remove_slots :
      (b c : BranchName) (a q : H160) (j : H256) (s : v.Store)
      → v.writable s b ≡ true
      → v.slot (v.remove_slots b a s) c q j ≡ (if same c b && q == a then none else v.slot s c q j)
  pub writable-insert_account :
      (b c : BranchName) (a : H160) (x : OvrAccount) (s : v.Store)
      → v.writable (v.insert_account b a x s) c ≡ v.writable s c
  pub writable-remove_account :
      (b c : BranchName) (a : H160) (s : v.Store)
      → v.writable (v.remove_account b a s) c ≡ v.writable s c
  pub writable-insert_slot :
      (b c : BranchName) (a : H160) (k x : H256) (s : v.Store)
      → v.writable (v.insert_slot b a k x s) c ≡ v.writable s c
  pub writable-remove_slots :
      (b c : BranchName) (a : H160) (s : v.Store)
      → v.writable (v.remove_slots b a s) c ≡ v.writable s c

-- What the documentation says of versions: a new one reads as the branch did and may be written,
-- and dropping it brings back what was there before.
pub record VersionLaws (v : Operations) : Type 0 where
  pub same_at_create :
      (ver : Bytes) (b q : BranchName) (s t : v.Store)
      → v.version_create ver b s ≡ some t
      → SameOn v q s t
  pub writable_at_create :
      (ver : Bytes) (b : BranchName) (s t : v.Store)
      → v.version_create ver b s ≡ some t
      → v.writable t b ≡ true
  pub pop-create :
      (ver : Bytes) (b : BranchName) (s t : v.Store)
      → v.version_create ver b s ≡ some t
      → (u : v.Store) × (v.version_pop b t ≡ some u) × ((q : BranchName) → SameOn v q s u)
  pub writable_of_versions :
      (s : v.Store) (b : BranchName) → v.has_versions s b ≡ true → v.writable s b ≡ true

-- `MapxOrd`, the unversioned persistent map from heights, with the laws that are used of it.
pub record MapxOrd (V : Type 0) : Type 1 where
  pub Map : Type 0
  pub get : Map → ℕ → Option V
  pub last : Map → Option (ℕ × V)
  pub insert : ℕ → V → Map → Map
  pub entries : Map → List (ℕ × V)

pub record MapxOrdLaws {V : Type 0} (m : MapxOrd V) : Type 0 where
  pub get-insert :
      (h k : ℕ) (x : V) (t : m.Map)
      → m.get (m.insert h x t) k ≡ (if k == h then some x else m.get t k)
  -- An insertion above the last key becomes the last entry.
  pub last-insert :
      (h : ℕ) (x : V) (t : m.Map)
      → ((k : ℕ) (y : V) → m.last t ≡ some (k, y) → k < h)
      → m.last (m.insert h x t) ≡ some (h, x)
