-- ===== src/Ethvm/Stack.antt =====
-- ethvm/impls/stack.rs: `OvrStackSubstate`, the journal of an execution. Each call frame keeps
-- what it has changed, and reads what it has not from the frames below.
pub mod Frames
pub mod Flush
pub mod Addresses
use ovr.Prelude.{
  ℕ, ◌+◌, ◌-◌, Bool, true, false, not, ◌&&◌, Option, none, some, List, [], ◌∷◌, ◌++◌, Result, ok,
  err, ltb, ◌==◌, if◌then◌else◌, is_empty, ◌>>=◌,
}
use ovr.Primitives.{H160, H256, U256, Bytes, checked_add, saturating_add}
use ovr.BTree.{BTreeMap, BTreeSet, get, insert, append, retain, contains}
use ovr.BTree.Keys.{nat_key, pair_key}
use ovr.Evm.{Basic, Log, Transfer, Apply, modify, delete, Backend, Metadata}

pub record OvrStackAccount : Type 0 where
  pub basic : Basic
  pub code : Option Bytes
  pub reset : Bool

-- The fields of an `OvrStackSubstate` but for its parent.
pub record Frame (M : Type 0) : Type 0 where
  pub metadata : M
  pub accounts : BTreeMap H160 OvrStackAccount
  pub storages : BTreeMap (H160 × H256) H256
  pub deletes : BTreeSet H160
  pub logs : List Log

-- The parent is `None` at the root.
pub data OvrStackSubstate (M : Type 0) : Type 0 where
  root : Frame M → OvrStackSubstate M
  child : Frame M → OvrStackSubstate M → OvrStackSubstate M

-- What `known_empty` says of an account that some frame knows.
abbrev pub account_empty : OvrStackAccount → Option Bool
account_empty account =
    if not (account.basic.balance == 0)
    then some false
    else (if not (account.basic.nonce == 0) then some false else elim account.code [
      | some code ↦ some (account.basic.balance == 0 && account.basic.nonce == 0 && is_empty code)
      | none ↦ none
    ])

-- The account was reset in this frame.
abbrev pub is_reset : Option OvrStackAccount → Bool
is_reset none = false
is_reset (some account) = account.reset

-- The slots of the frame at any other address.
abbrev pub other_slots : H160 → BTreeMap (H160 × H256) H256 → BTreeMap (H160 × H256) H256
other_slots a = retain (λ slot. not (slot.0 == a))

abbrev pub with_balance : U256 → OvrStackAccount → OvrStackAccount
with_balance x account = record account { basic = record account.basic { balance = x } }

module _ {M : Type 0} where
  abbrev pub top : OvrStackSubstate M → Frame M
  top (root f) = f
  top (child f p) = f

  abbrev pub parent : OvrStackSubstate M → Option (OvrStackSubstate M)
  parent (root f) = none
  parent (child f p) = some p

  -- An assignment to fields of `self`.
  abbrev pub with_top : (Frame M → Frame M) → OvrStackSubstate M → OvrStackSubstate M
  with_top g (root f) = root (g f)
  with_top g (child f p) = child (g f) p

  abbrev pub new_frame : M → Frame M
  new_frame m = record { metadata = m; accounts = []; storages = []; deletes = []; logs = [] }

  unfoldable pub new : M → OvrStackSubstate M
  new m = root (new_frame m)

  unfoldable pub known_account : OvrStackSubstate M → H160 → Option OvrStackAccount
  known_account (root f) a = get a f.accounts
  known_account (child f p) a = elim (get a f.accounts) [
    | some account ↦ some account
    | none ↦ known_account p a
  ]

  unfoldable pub known_basic : OvrStackSubstate M → H160 → Option Basic
  known_basic s a = elim (known_account s a) [ some account ↦ some account.basic | none ↦ none ]

  unfoldable pub known_code : OvrStackSubstate M → H160 → Option Bytes
  known_code s a = elim (known_account s a) [ some account ↦ account.code | none ↦ none ]

  unfoldable pub known_empty : OvrStackSubstate M → H160 → Option Bool
  known_empty s a = elim (known_account s a) [ some account ↦ account_empty account | none ↦ none ]

  unfoldable pub known_storage : OvrStackSubstate M → H160 → H256 → Option H256
  known_storage (root f) a k = elim (get (a, k) f.storages) [
    | some value ↦ some value
    | none ↦ if is_reset (get a f.accounts) then some 0 else none
  ]
  known_storage (child f p) a k = elim (get (a, k) f.storages) [
    | some value ↦ some value
    | none ↦ if is_reset (get a f.accounts) then some 0 else known_storage p a k
  ]

  unfoldable pub known_original_storage : OvrStackSubstate M → H160 → H256 → Option H256
  known_original_storage (root f) a k = if is_reset (get a f.accounts) then some 0 else none
  known_original_storage (child f p) a k =
      if is_reset (get a f.accounts) then some 0 else known_original_storage p a k

  unfoldable pub deleted : OvrStackSubstate M → H160 → Bool
  deleted (root f) a = contains a f.deletes
  deleted (child f p) a = if contains a f.deletes then true else deleted p a

  -- The entry that `account_mut` borrows: the frame's own, or a copy of the nearest known one
  -- with the reset mark off, or the backend's.
  unfoldable pub account_mut : Backend → H160 → OvrStackSubstate M → OvrStackAccount
  account_mut backend a s = elim (get a (top s).accounts) [
    | some account ↦ account
    | none ↦ elim (known_account s a) [
      | some v ↦ record v { reset = false }
      | none ↦ record { basic = backend.basic a; code = none; reset = false }
    ]
  ]

  -- A write through the borrowed entry.
  unfoldable pub set_account : H160 → OvrStackAccount → OvrStackSubstate M → OvrStackSubstate M
  set_account a account = with_top (λ f. record f { accounts = insert a account f.accounts })

  unfoldable pub touch : Backend → H160 → OvrStackSubstate M → OvrStackSubstate M
  touch backend a s = set_account a (account_mut backend a s) s

  -- `none`: the increment of a `U256` overflows, which panics.
  unfoldable pub inc_nonce : Backend → H160 → OvrStackSubstate M → Option (OvrStackSubstate M)
  inc_nonce backend a s = do
    let account = account_mut backend a s
    nonce ← checked_add account.basic.nonce 1
    some (set_account a (record account { basic = record account.basic { nonce = nonce } }) s)

  unfoldable pub set_storage : H160 → H256 → H256 → OvrStackSubstate M → OvrStackSubstate M
  set_storage a k value = with_top (λ f. record f { storages = insert (a, k) value f.storages })

  unfoldable pub remove_slots : H160 → OvrStackSubstate M → OvrStackSubstate M
  remove_slots a = with_top (λ f. record f { storages = other_slots a f.storages })

  unfoldable pub reset_storage : Backend → H160 → OvrStackSubstate M → OvrStackSubstate M
  reset_storage backend a s =
      let s' = remove_slots a s in
      set_account a (record (account_mut backend a s') { reset = true }) s'

  unfoldable pub log : H160 → List H256 → Bytes → OvrStackSubstate M → OvrStackSubstate M
  log a topics bytes = with_top (λ f. record f {
    logs = f.logs ++ record { address = a; topics = topics; bytes = bytes } ∷ [];
  })

  unfoldable pub set_deleted : H160 → OvrStackSubstate M → OvrStackSubstate M
  set_deleted a = with_top (λ f. record f { deletes = insert a tt f.deletes })

  unfoldable pub set_code : Backend → H160 → Bytes → OvrStackSubstate M → OvrStackSubstate M
  set_code backend a code s =
      set_account a (record (account_mut backend a s) { code = some code }) s

  unfoldable pub reset_balance : Backend → H160 → OvrStackSubstate M → OvrStackSubstate M
  reset_balance backend a s = set_account a (with_balance 0 (account_mut backend a s)) s
