-- ===== src/Memory/Store.antt =====
-- Versioned collections in memory: what each branch reads, and under its versions what it read
-- when each was created.
use mathlib.Core.Path.{subst}
use mathlib.Core.Option.{some-injective}
use ovr.Prelude.{
  ◌≡◌, refl, Bool, true, false, not, Option, none, some, List, [], ◌∷◌, arith, ◌==◌, ◌&&◌,
  if◌then◌else◌, is_empty,
}
use ovr.Primitives.{H160, H256, U256, Bytes}
use ovr.BTree.Keys.{same, bytes_key}
use ovr.Vsdb.{BranchName, OvrAccount, Operations, SameOn, WriteLaws, VersionLaws}
use ovr.Ethvm.Backend.Changes.{same_refl}

-- What one branch reads.
pub record Reading : Type 0 where
  pub account : H160 → Option OvrAccount
  pub slot : H160 → H256 → Option H256

pub record Memory : Type 0 where
  pub now : BranchName → Reading
  pub versions : BranchName → List (Bytes × Reading)
  pub gas_price : Option U256
  -- the branches of the chain's own values
  pub chain_branches : BranchName → Bool

abbrev pub update : {A : Type 0} → BranchName → A → (BranchName → A) → BranchName → A
update b x f q = if same q b then x else f q

abbrev change : BranchName → (Reading → Reading) → Memory → Memory
change b f s = record s { now = update b (f (s.now b)) s.now }

abbrev pop : BranchName → List (Bytes × Reading) → Memory → Option Memory
pop b [] s = none
pop b ((name, r) ∷ rest) s =
    some (record s { now = update b r s.now; versions = update b rest s.versions })

abbrev pub memory : Operations
memory = record {
  Store = Memory;
  account = λ s b a. (s.now b).account a;
  slot = λ s b a k. (s.now b).slot a k;
  gas_price = λ s b. s.gas_price;
  writable = λ s b. not (is_empty (s.versions b));
  insert_account =
      λ b a x. change b λ r. record r { account = λ q. if q == a then some x else r.account q };
  remove_account =
      λ b a. change b λ r. record r { account = λ q. if q == a then none else r.account q };
  insert_slot = λ b a k x.
      change b λ r. record r { slot = λ q j. if q == a && j == k then some x else r.slot q j };
  remove_slots =
      λ b a. change b λ r. record r { slot = λ q j. if q == a then none else r.slot q j };
  chain_id = λ s b. some 1;
  block_gas_limit = λ s b. some 0;
  block_base_fee_per_gas = λ s b. some 0;
  set_chain_id = λ b x s. some s;
  set_chain_name = λ b x s. some s;
  set_chain_version = λ b x s. some s;
  set_gas_price = λ b x s. some (record s { gas_price = some x });
  set_block_gas_limit = λ b x s. some s;
  set_block_base_fee_per_gas = λ b x s. some s;
  initial_branch = [];
  initial_version = [];
  version_exists = λ s name b. false;
  has_versions = λ s b. not (is_empty (s.versions b));
  version_create = λ name b s.
      some (record s { versions = update b ((name, s.now b) ∷ s.versions b) s.versions });
  version_pop = λ b s. pop b (s.versions b) s;
  branch_exists = λ s b. true;
  branch_create = λ default name s. some (record s { now = update name (s.now default) s.now });
  branch_create_by_base_branch =
      λ name parent s. some (record s { now = update name (s.now parent) s.now });
  branch_remove = λ name s. some s;
  branch_merge_to_parent = λ name s. some s;
}

same_eq : (p q : Bytes) → same p q ≡ true → p ≡ q
same_eq p q h = ground (arith, bytes_key.eq_of_cmp p q)

pub memory-WriteLaws : WriteLaws memory
memory-WriteLaws = record {
  account-insert_account = λ b c a q x s w. ground (arith, same_eq c b);
  account-remove_account = λ b c a q s w. ground (arith, same_eq c b);
  account-insert_slot = λ b c a q k x s w. ground (arith, same_eq c b);
  account-remove_slots = λ b c a q s w. ground (arith, same_eq c b);
  slot-insert_account = λ b c a q k x s w. ground (arith, same_eq c b);
  slot-remove_account = λ b c a q k s w. ground (arith, same_eq c b);
  slot-insert_slot = λ b c a q k j x s w. ground (arith, same_eq c b);
  slot-remove_slots = λ b c a q j s w. ground (arith, same_eq c b);
  writable-insert_account = λ b c a x s. refl;
  writable-remove_account = λ b c a s. refl;
  writable-insert_slot = λ b c a k x s. refl;
  writable-remove_slots = λ b c a s. refl;
}

popped :
    (name : Bytes) (b : BranchName) (s : Memory) (q : BranchName)
    → SameOn memory q s (record s {
      now = update b (s.now b) s.now;
      versions = update b (s.versions b) (update b ((name, s.now b) ∷ s.versions b) s.versions);
    })
popped name b s q = record {
  account = λ a. ground (arith, same_eq q b);
  slot = λ a k. ground (arith, same_eq q b);
  gas_price = refl;
}

pop-at :
    (b : BranchName) (name : Bytes) (r : Reading) (rest : List (Bytes × Reading)) (t : Memory)
    → t.versions b ≡ (name, r) ∷ rest
    → pop b (t.versions b) t
      ≡ some (record t { now = update b r t.now; versions = update b rest t.versions })
pop-at b name r rest t h = rw h refl

-- What dropping the last version brings back.
abbrev Popped : BranchName → Memory → Memory → Type 0
Popped b s t =
    (u : Memory) × (pop b (t.versions b) t ≡ some u) × ((q : BranchName) → SameOn memory q s u)

abbrev created : Bytes → BranchName → Memory → Memory
created name b s = record s { versions = update b ((name, s.now b) ∷ s.versions b) s.versions }

created-Popped : (name : Bytes) (b : BranchName) (s : Memory) → Popped b s (created name b s)
created-Popped name b s = (
  _,
  pop-at b name (s.now b) (s.versions b) (created name b s) (rw (same_refl b) refl),
  popped name b s,
)

pub memory-VersionLaws : VersionLaws memory
memory-VersionLaws = record {
  same_at_create = λ name b q s t h. record {
    account = λ a. ground (arith, h);
    slot = λ a k. ground (arith, h);
    gas_price = ground (arith, h);
  };
  writable_at_create = λ name b s t h. ground (arith, h, same_refl b);
  pop-create = λ name b s t h.
      subst (Popped b s) (some-injective (created name b s) t h) (created-Popped name b s);
  writable_of_versions = λ s b h. h;
}
