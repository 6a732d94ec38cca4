-- ===== src/Ethvm/Backend.antt =====
-- ethvm/impls/backend.rs: `OvrBackend`, the accounts and the storage of a branch of the database,
-- and how the changes of an execution are written to it.
pub mod Elsewhere
pub mod Changes
pub mod Plan
pub mod Flush
use ovr.Prelude.{
  leb, ℕ, ◌%◌, ◌^◌, ◌<◌, Bool, true, false, not, ◌&&◌, Option, none, some, List, [], ◌∷◌, ◌==◌,
  if◌then◌else◌, is_empty, is_some, unwrap_or, ◌>>=◌, ltb,
}
use ovr.Primitives.{u64_max, H160, H256, U256, Bytes, BlockHeight, u64_max}
use ovr.BTree.{BTreeMap}
use ovr.Evm.{Basic, Apply, modify, delete, Backend}
use ovr.Vsdb.{BranchName, OvrAccount, Operations}

-- ethvm/mod.rs: the values that the block gives to an execution.
pub record OvrVicinity : Type 0 where
  pub gas_price : U256
  pub origin : H160
  pub chain_id : U256
  pub block_number : U256
  pub block_coinbase : H160
  pub block_timestamp : U256
  pub block_difficulty : U256
  pub block_gas_limit : U256
  pub block_base_fee_per_gas : U256

-- The handles of `OvrBackend`: its branch, the branch that its collections write to by default,
-- the hashes of the blocks as the ordered map `block_hashes` gives them, and the vicinity.
pub record OvrBackend : Type 0 where
  pub branch : BranchName
  pub default_branch : BranchName
  pub block_hashes : BlockHeight → Option H256
  pub vicinity : OvrVicinity

-- `OvrAccount::default`
abbrev pub default_account : OvrAccount
default_account = record { nonce = 0; balance = 0; code = [] }

-- `OvrAccount::from_balance`
abbrev pub from_balance : U256 → OvrAccount
from_balance balance = record default_account { balance = balance }

-- `account.code` and the fields of `basic`, written over what the store had.
abbrev pub changed_account : Basic → Option Bytes → OvrAccount → OvrAccount
changed_account basic code account = record {
  nonce = basic.nonce;
  balance = basic.balance;
  code = unwrap_or account.code code;
}

abbrev pub is_empty_account : OvrAccount → Bool
is_empty_account account = account.balance == 0 && account.nonce == 0 && is_empty account.code

abbrev pub account_basic : Option OvrAccount → Basic
account_basic none = record { balance = 0; nonce = 0 }
account_basic (some a) = record { balance = a.balance; nonce = a.nonce }

abbrev pub account_code : Option OvrAccount → Bytes
account_code none = []
account_code (some a) = a.code

module _ (v : Operations) where
  open v use {
    Store, account, slot, writable, insert_account, remove_account, insert_slot, remove_slots,
  }

  -- `impl Backend for OvrBackend`. The conversion of a block number above `u64::MAX` panics.
  unfoldable pub as_backend : OvrBackend → Store → Backend
  as_backend b s = record {
    gas_price = b.vicinity.gas_price;
    origin = b.vicinity.origin;
    block_hash =
        λ number. if leb number u64_max then some (unwrap_or 0 (b.block_hashes number)) else none;
    block_number = b.vicinity.block_number;
    block_coinbase = b.vicinity.block_coinbase;
    block_timestamp = b.vicinity.block_timestamp;
    block_difficulty = b.vicinity.block_difficulty;
    block_gas_limit = b.vicinity.block_gas_limit;
    block_base_fee_per_gas = b.vicinity.block_base_fee_per_gas;
    chain_id = b.vicinity.chain_id;
    exists = λ a. is_some (account s b.branch a);
    basic = λ a. account_basic (account s b.branch a);
    code = λ a. account_code (account s b.branch a);
    storage = λ a k. unwrap_or 0 (slot s b.branch a k);
    original_storage = λ a k. some (unwrap_or 0 (slot s b.branch a k));
  }

  -- The result of a write, unwrapped: `none` is a panic.
  abbrev pub unwrap_write : BranchName → (Store → Store) → Store → Option Store
  unwrap_write b f s = if writable s b then some (f s) else none

  unfoldable pub reset_storage : BranchName → H160 → Store → Option Store
  reset_storage b target = unwrap_write b (remove_slots b target)

  -- The loop over the slots of a change: a slot is written if its value is not zero, on the
  -- default branch of the collection.
  unfoldable pub write_slots : BranchName → H160 → BTreeMap H256 H256 → Store → Option Store
  write_slots b address [] s = some s
  write_slots b address ((index, value) ∷ rest) s = elim (value == 0) [
    | true ↦ write_slots b address rest s
    | false ↦ elim (unwrap_write b (insert_slot b address index value) s) [
      | none ↦ none
      | some s' ↦ write_slots b address rest s'
    ]
  ]

  -- `Apply::Modify`, on the branch `b` and the default branch `d` of the collections.
  unfoldable pub modify_account :
      BranchName
      → BranchName
      → Bool
      → H160
      → Basic
      → Option Bytes
      → BTreeMap H256 H256
      → Bool
      → Store
      → Option Store
  modify_account b d delete_empty address basic code storage reset s = do
    let old = unwrap_or default_account (account s b address)
    let changed = changed_account basic code old
    s₁ ← if reset then reset_storage b address s else some s
    s₂ ← write_slots d address storage s₁
    s₃ ← unwrap_write b (insert_account b address changed) s₂
    if is_empty_account changed && delete_empty
        then unwrap_write b (remove_account b address) s₃
        else some s₃

  unfoldable pub apply_change : OvrBackend → Bool → Apply → Store → Option Store
  apply_change o delete_empty (modify address basic code storage reset) =
      modify_account o.branch o.default_branch delete_empty address basic code storage reset
  apply_change o delete_empty (delete address) =
      unwrap_write o.branch (remove_account o.branch address)

  -- The loop over the changes. The logs are only printed.
  unfoldable pub apply : OvrBackend → List Apply → Bool → Store → Option Store
  unfolding apply_change
  apply b [] delete_empty s = some s
  apply b (change ∷ rest) delete_empty s = elim (apply_change b delete_empty change s) [
    | none ↦ none
    | some s' ↦ apply b rest delete_empty s'
  ]
