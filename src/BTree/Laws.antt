-- ===== src/BTree/Laws.antt =====
-- Reading a map back after each update.
use ovr.Prelude.{Bool, none, some, [], ◌∷◌, ◌≡◌, refl, arith, if◌then◌else◌}
use ovr.BTree.Keys.{Key, same}
use ovr.BTree.{BTreeMap, get, insert, append, retain}

module _ {ℓ κ} {K : Type ℓ} {V : Type κ} ⦃o : Key K⦄ where
  pub get-insert :
      (q k : K) (v : V) (m : BTreeMap K V)
      → get q (insert k v m) ≡ (if same q k then some v else get q m)
  unfolding get insert
  get-insert q k v [] = ground arith
  get-insert q k v ((j, w) ∷ m) =
      ground
        (arith, get-insert q k v m, o.eq_of_cmp q k, o.eq_of_cmp k j, o.eq_of_cmp q j, o.cmp_refl k)

  pub get-append :
      (q : K) (m n : BTreeMap K V)
      → get q (append m n) ≡ elim (get q n) [ none ↦ get q m | some v ↦ some v ]
  unfolding get append
  get-append q m [] = refl
  get-append q m ((k, v) ∷ n) = ground (arith, get-insert q k v (append m n), get-append q m n)

  pub get-retain :
      (p : K → Bool) (q : K) (m : BTreeMap K V)
      → get q (retain p m) ≡ (if p q then get q m else none)
  unfolding get retain
  get-retain p q [] = ground arith
  get-retain p q ((k, v) ∷ m) = ground (arith, get-retain p q m, o.eq_of_cmp q k)
