-- ===== src/BTree.antt =====
-- `std::collections::BTreeMap` and `BTreeSet` as the program uses them: an association list in
-- the ascending order of its keys.
pub mod Keys
pub mod Laws
pub mod Order
use ovr.Prelude.{Bool, true, false, Option, none, some, List, [], ◌∷◌, lt, eq, gt}
use ovr.BTree.Keys.{Key}

abbrev pub BTreeMap {ℓ κ} : Type ℓ → Type κ → Type (ℓ ⊔ κ)
BTreeMap K V = List (K × V)

abbrev pub BTreeSet {ℓ} : Type ℓ → Type ℓ
BTreeSet K = BTreeMap K (Unit {0})

module _ {ℓ κ} {K : Type ℓ} {V : Type κ} where
  -- The entries whose key passes the test, in order; also `BTreeMap::remove` of those that fail.
  unfoldable pub retain : (K → Bool) → BTreeMap K V → BTreeMap K V
  retain p [] = []
  retain p ((k, v) ∷ m) = elim (p k) [ true ↦ (k, v) ∷ retain p m | false ↦ retain p m ]

module _ {ℓ κ} {K : Type ℓ} {V : Type κ} ⦃o : Key K⦄ where
  -- `BTreeMap::get`
  unfoldable pub get : K → BTreeMap K V → Option V
  get q [] = none
  get q ((k, v) ∷ m) = elim (o.cmp q k) [ eq ↦ some v | _ ↦ get q m ]

  -- `BTreeMap::insert`, at the place that the order gives
  unfoldable pub insert : K → V → BTreeMap K V → BTreeMap K V
  insert q w [] = (q, w) ∷ []
  insert q w ((k, v) ∷ m) = elim (o.cmp q k) [
    | lt ↦ (q, w) ∷ (k, v) ∷ m
    | eq ↦ (q, w) ∷ m
    | gt ↦ (k, v) ∷ insert q w m
  ]

  -- `BTreeMap::append`: what the second map holds overwrites the first's
  unfoldable pub append : BTreeMap K V → BTreeMap K V → BTreeMap K V
  append m [] = m
  append m ((k, v) ∷ n) = insert k v (append m n)

  unfoldable pub contains_key : K → BTreeMap K V → Bool
  unfolding get
  contains_key q m = elim (get q m) [ none ↦ false | some v ↦ true ]

module _ {ℓ} {K : Type ℓ} ⦃o : Key K⦄ where
  -- `BTreeSet::contains`
  unfoldable pub contains : K → BTreeSet K → Bool
  unfolding contains_key
  contains q s = contains_key q s
