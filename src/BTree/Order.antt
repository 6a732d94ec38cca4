-- ===== src/BTree/Order.antt =====
-- The order of the keys, under the updates.
use ovr.Prelude.{Bool, none, [], ◌∷◌, ◌≡◌, refl, arith, lt}
use ovr.BTree.Keys.{Key}
use ovr.BTree.{BTreeMap, get, insert, append, retain}

module _ {ℓ κ} {K : Type ℓ} {V : Type κ} ⦃o : Key K⦄ where
  -- Every key of the map is above `k`.
  abbrev pub Above : K → BTreeMap K V → Type 0
  Above k [] = Unit
  Above k ((j, v) ∷ m) = (o.cmp k j ≡ lt) × Above k m

  -- The keys ascend strictly.
  abbrev pub IsSorted : BTreeMap K V → Type 0
  IsSorted [] = Unit
  IsSorted ((k, v) ∷ m) = Above k m × IsSorted m

  Above-trans : (j k : K) (m : BTreeMap K V) → o.cmp j k ≡ lt → Above k m → Above j m
  Above-trans j k [] h a = tt
  Above-trans j k ((i, v) ∷ m) h a = (o.lt_trans j k i h a.0, Above-trans j k m h a.1)

  Above-insert :
      (j k : K) (v : V) (m : BTreeMap K V) → o.cmp j k ≡ lt → Above j m → Above j (insert k v m)
  unfolding insert
  Above-insert j k v [] h a = (h, tt)
  Above-insert j k v ((i, w) ∷ m) h a = ground (arith, Above-insert j k v m h)

  pub insert-IsSorted : (k : K) (v : V) (m : BTreeMap K V) → IsSorted m → IsSorted (insert k v m)
  unfolding insert
  insert-IsSorted k v [] s = (tt, tt)
  insert-IsSorted k v ((j, w) ∷ m) s = ground (
    arith,
    insert-IsSorted k v m,
    Above-insert j k v m,
    Above-trans k j m,
    o.lt_of_gt k j,
    o.eq_of_cmp k j,
  )

  pub append-IsSorted : (m n : BTreeMap K V) → IsSorted m → IsSorted (append m n)
  unfolding append
  append-IsSorted m [] s = s
  append-IsSorted m ((k, v) ∷ n) s = insert-IsSorted k v (append m n) (append-IsSorted m n s)

  Above-retain : (p : K → Bool) (k : K) (m : BTreeMap K V) → Above k m → Above k (retain p m)
  unfolding retain
  Above-retain p k [] a = tt
  Above-retain p k ((j, v) ∷ m) a = ground (arith, Above-retain p k m a.1)

  pub retain-IsSorted : (p : K → Bool) (m : BTreeMap K V) → IsSorted m → IsSorted (retain p m)
  unfolding retain
  retain-IsSorted p [] s = tt
  retain-IsSorted p ((k, v) ∷ m) s = ground (arith, retain-IsSorted p m s.1, Above-retain p k m s.0)

  -- A key below all others is not in the map.
  pub get-Above : (k : K) (m : BTreeMap K V) → Above k m → get k m ≡ none
  unfolding get
  get-Above k [] h = refl
  get-Above k ((j, v) ∷ m) h = ground (arith, get-Above k m h.1)
