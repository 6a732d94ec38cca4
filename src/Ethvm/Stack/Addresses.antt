-- ===== src/Ethvm/Stack/Addresses.antt =====
-- ethvm/impls/stack.rs: the sets and maps that `deconstruct` builds, by what they hold.
use ovr.Prelude.{◌≡◌, refl, true, none, some, [], ◌∷◌, arith, ◌==◌, if◌then◌else◌}
use ovr.Primitives.{H160, H256}
use ovr.BTree.{BTreeMap, BTreeSet, get, insert, contains}
use ovr.BTree.Keys.{nat_key, pair_key}
use ovr.BTree.Laws.{get-insert}
use ovr.BTree.Order.{IsSorted, get-Above, insert-IsSorted}
use ovr.Ethvm.Stack.{OvrStackAccount}
use ovr.Ethvm.Stack.Flush.{account_addresses, slot_addresses, storage_of}

pub contains-insert :
    (q a : H160) (s : BTreeSet H160)
    → contains q (insert a tt s) ≡ (if q == a then true else contains q s)
unfolding contains
contains-insert q a s = ground (arith, get-insert q a tt s)

pub contains-account_addresses :
    (q : H160) (m : BTreeMap H160 OvrStackAccount) (acc : BTreeSet H160)
    → contains q (account_addresses m acc)
      ≡ elim (get q m) [ some x ↦ true | none ↦ contains q acc ]
unfolding account_addresses get
contains-account_addresses q [] acc = refl
contains-account_addresses q ((a, x) ∷ m) acc =
    ground (arith, contains-account_addresses q m (insert a tt acc), contains-insert q a acc)

pub contains-slot_addresses :
    (q : H160) (m : BTreeMap (H160 × H256) H256) (acc : BTreeSet H160)
    → contains q acc ≡ true
    → contains q (slot_addresses m acc) ≡ true
unfolding slot_addresses
contains-slot_addresses q [] acc h = h
contains-slot_addresses q ((s, v) ∷ m) acc h =
    contains-slot_addresses q m (insert s.0 tt acc) (ground (arith, contains-insert q s.0 acc))

-- The address of a slot is in the set.
pub slot_addresses-get :
    (q : H160) (k v : H256) (m : BTreeMap (H160 × H256) H256) (acc : BTreeSet H160)
    → get (q, k) m ≡ some v
    → contains q (slot_addresses m acc) ≡ true
unfolding slot_addresses get
slot_addresses-get q k v [] acc h = cc
slot_addresses-get q k v ((s, w) ∷ m) acc h = ground (
  arith,
  slot_addresses-get q k v m (insert s.0 tt acc),
  contains-slot_addresses q m (insert s.0 tt acc),
  contains-insert q s.0 acc,
)

pub account_addresses-IsSorted :
    (m : BTreeMap H160 OvrStackAccount) (acc : BTreeSet H160)
    → IsSorted acc
    → IsSorted (account_addresses m acc)
unfolding account_addresses
account_addresses-IsSorted [] acc h = h
account_addresses-IsSorted ((a, x) ∷ m) acc h =
    account_addresses-IsSorted m (insert a tt acc) (insert-IsSorted a tt acc h)

pub slot_addresses-IsSorted :
    (m : BTreeMap (H160 × H256) H256) (acc : BTreeSet H160)
    → IsSorted acc
    → IsSorted (slot_addresses m acc)
unfolding slot_addresses
slot_addresses-IsSorted [] acc h = h
slot_addresses-IsSorted ((s, x) ∷ m) acc h =
    slot_addresses-IsSorted m (insert s.0 tt acc) (insert-IsSorted s.0 tt acc h)

pub storage_of-IsSorted :
    (a : H160) (m : BTreeMap (H160 × H256) H256) (acc : BTreeMap H256 H256)
    → IsSorted acc
    → IsSorted (storage_of a m acc)
unfolding storage_of
storage_of-IsSorted a [] acc h = h
storage_of-IsSorted a ((s, v) ∷ m) acc h =
    storage_of-IsSorted a m _ (ground (arith, insert-IsSorted s.1 v acc h))

-- The map of one address's slots reads as the whole map does there.
pub get-storage_of :
    (a : H160) (k : H256) (m : BTreeMap (H160 × H256) H256) (acc : BTreeMap H256 H256)
    → IsSorted m
    → get k (storage_of a m acc) ≡ elim (get (a, k) m) [ some v ↦ some v | none ↦ get k acc ]
unfolding storage_of get
get-storage_of a k [] acc h = refl
get-storage_of a k ((s, v) ∷ m) acc h = ground (
  arith,
  get-storage_of a k m (if s.0 == a then insert s.1 v acc else acc) h.1,
  get-insert k s.1 v acc,
  get-Above s m h.0,
)
