-- ===== src/BTree/Keys.antt =====
-- The trait `Ord` on the key types of the program: addresses and slots (numbers), pairs of the
-- two, and byte strings in lexicographic order.
use ovr.Prelude.{
  ℕ, ◌≡◌, refl, List, [], ◌∷◌, Bool, true, false, arith, compare, Ordering, lt, eq, gt,
}

-- What the maps rely on: a linear order in which equal keys are the same key.
pub record IsLawful {ℓ} {K : Type ℓ} (cmp : K → K → Ordering) : Type ℓ where
  pub lt_trans : (j k l : K) → cmp j k ≡ lt → cmp k l ≡ lt → cmp j l ≡ lt
  pub gt_of_lt : (j k : K) → cmp j k ≡ lt → cmp k j ≡ gt
  pub lt_of_gt : (j k : K) → cmp j k ≡ gt → cmp k j ≡ lt
  pub cmp_refl : (k : K) → cmp k k ≡ eq
  pub eq_of_cmp : (j k : K) → cmp j k ≡ eq → j ≡ k

pub record Key {ℓ} (K : Type ℓ) : Type ℓ where
  pub cmp : K → K → Ordering
  pub lawful : IsLawful cmp
  pub open lawful use *

-- The key of the slot is the address's one.
abbrev pub same {ℓ} : {K : Type ℓ} ⦃o : Key K⦄ → K → K → Bool
same ⦃o⦄ a b = elim (o.cmp a b) [ eq ↦ true | _ ↦ false ]

pub compare-IsLawful : IsLawful compare
compare-IsLawful = ground arith

instance abbrev pub nat_key : Key ℕ
nat_key = record { cmp = compare; lawful = compare-IsLawful }

abbrev pub and_then : Ordering → Ordering → Ordering
and_then eq o = o
and_then lt _ = lt
and_then gt _ = gt

module _ {ℓ κ} {A : Type ℓ} {B : Type κ} ⦃a : Key A⦄ ⦃b : Key B⦄ where
  abbrev pub cmp_pair : A × B → A × B → Ordering
  cmp_pair x y = and_then (a.cmp x.0 y.0) (b.cmp x.1 y.1)

  pub cmp_pair-IsLawful : IsLawful {K = A × B} cmp_pair
  cmp_pair-IsLawful = record {
    lt_trans =
        λ p q r. grind (arith, a.eq_of_cmp p.0 q.0, a.eq_of_cmp q.0 r.0, a.lt_trans, b.lt_trans);
    gt_of_lt = λ p q. ground (arith, a.gt_of_lt p.0 q.0, a.eq_of_cmp p.0 q.0, b.gt_of_lt p.1 q.1);
    lt_of_gt = λ p q. ground (arith, a.lt_of_gt p.0 q.0, a.eq_of_cmp p.0 q.0, b.lt_of_gt p.1 q.1);
    cmp_refl = λ p. simp (a.cmp_refl, b.cmp_refl);
    eq_of_cmp = λ p q. ground (arith, a.eq_of_cmp p.0 q.0, b.eq_of_cmp p.1 q.1);
  }

  instance abbrev pub pair_key : Key (A × B)
  pair_key = record { cmp = cmp_pair; lawful = cmp_pair-IsLawful }

abbrev pub cmp_bytes : List ℕ → List ℕ → Ordering
cmp_bytes [] [] = eq
cmp_bytes [] (y ∷ ys) = lt
cmp_bytes (x ∷ xs) [] = gt
cmp_bytes (x ∷ xs) (y ∷ ys) = and_then (compare x y) (cmp_bytes xs ys)

cmp_bytes_refl : (a : List ℕ) → cmp_bytes a a ≡ eq
cmp_bytes_refl [] = refl
cmp_bytes_refl (x ∷ xs) = ground (arith, cmp_bytes_refl xs)

eq_of_cmp_bytes : (a b : List ℕ) → cmp_bytes a b ≡ eq → a ≡ b
eq_of_cmp_bytes [] [] h = refl
eq_of_cmp_bytes (x ∷ xs) (y ∷ ys) h = ground (arith, eq_of_cmp_bytes xs ys)
eq_of_cmp_bytes _ _ h = ground arith

gt_of_lt_bytes : (a b : List ℕ) → cmp_bytes a b ≡ lt → cmp_bytes b a ≡ gt
gt_of_lt_bytes (x ∷ xs) (y ∷ ys) h = ground (arith, gt_of_lt_bytes xs ys)
gt_of_lt_bytes [] [] h = ground arith
gt_of_lt_bytes _ _ h = ground arith

lt_of_gt_bytes : (a b : List ℕ) → cmp_bytes a b ≡ gt → cmp_bytes b a ≡ lt
lt_of_gt_bytes (x ∷ xs) (y ∷ ys) h = ground (arith, lt_of_gt_bytes xs ys)
lt_of_gt_bytes [] [] h = ground arith
lt_of_gt_bytes _ _ h = ground arith

lt_trans_bytes : (a b c : List ℕ) → cmp_bytes a b ≡ lt → cmp_bytes b c ≡ lt → cmp_bytes a c ≡ lt
lt_trans_bytes (x ∷ xs) (y ∷ ys) (z ∷ zs) h k = ground (arith, lt_trans_bytes xs ys zs)
lt_trans_bytes [] [] [] h k = ground arith
lt_trans_bytes _ _ _ h k = ground arith

pub cmp_bytes-IsLawful : IsLawful cmp_bytes
cmp_bytes-IsLawful = record {
  cmp_refl = cmp_bytes_refl;
  eq_of_cmp = eq_of_cmp_bytes;
  gt_of_lt = gt_of_lt_bytes;
  lt_of_gt = lt_of_gt_bytes;
  lt_trans = lt_trans_bytes;
}

instance abbrev pub bytes_key : Key (List ℕ)
bytes_key = record { cmp = cmp_bytes; lawful = cmp_bytes-IsLawful }
