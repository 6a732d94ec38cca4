-- ===== src/Ethvm/Stack/Flush.antt =====
-- ethvm/impls/stack.rs: `deconstruct`, which turns a root journal into changes for the backend.
use ovr.Prelude.{true, false, Option, none, some, List, [], ◌∷◌, ◌++◌, ◌==◌, if◌then◌else◌}
use ovr.Primitives.{H160, H256}
use ovr.BTree.{BTreeMap, BTreeSet, insert, contains}
use ovr.BTree.Keys.{nat_key, pair_key}
use ovr.Evm.{Log, Apply, modify, delete, Backend}
use ovr.Ethvm.Stack.{OvrStackAccount, OvrStackSubstate, root, child, top, account_mut, set_account}

-- The addresses of the accounts and those of the slots, as a set.
unfoldable pub account_addresses : BTreeMap H160 OvrStackAccount → BTreeSet H160 → BTreeSet H160
account_addresses [] acc = acc
account_addresses ((address, _) ∷ m) acc = account_addresses m (insert address tt acc)

unfoldable pub slot_addresses : BTreeMap (H160 × H256) H256 → BTreeSet H160 → BTreeSet H160
slot_addresses [] acc = acc
slot_addresses ((slot, _) ∷ m) acc = slot_addresses m (insert slot.0 tt acc)

-- The slots of one address, folded into a map of their own.
unfoldable pub storage_of :
    H160 → BTreeMap (H160 × H256) H256 → BTreeMap H256 H256 → BTreeMap H256 H256
storage_of address [] acc = acc
storage_of address ((slot, v) ∷ m) acc =
    storage_of address m (if slot.0 == address then insert slot.1 v acc else acc)

-- `Apply::Delete` for each address of the set.
unfoldable pub deletions : BTreeSet H160 → List Apply
deletions [] = []
deletions ((address, _) ∷ m) = delete address ∷ deletions m

module _ {M : Type 0} where
  -- The loop over the addresses: a change for each that is not deleted.
  unfoldable pub modifications : Backend → BTreeSet H160 → OvrStackSubstate M → List Apply
  modifications backend [] s = []
  modifications backend ((address, _) ∷ rest) s = elim (contains address (top s).deletes) [
    | true ↦ modifications backend rest s
    | false ↦
        let account = account_mut backend address s in
        modify address account.basic account.code (storage_of address (top s).storages [])
          account.reset
        ∷ modifications backend rest (set_account address account s)
  ]

  -- `none` is the failed assertion on a journal that has a parent.
  unfoldable pub deconstruct : Backend → OvrStackSubstate M → Option (List Apply × List Log)
  unfolding modifications account_addresses slot_addresses deletions
  deconstruct backend (child f p) = none
  deconstruct backend (root f) =
      let addresses = slot_addresses f.storages (account_addresses f.accounts []) in
      some (modifications backend addresses (root f) ++ deletions f.deletes, f.logs)
