-- ===== src/Ledger/Rollback/Names.antt =====
-- common/mod.rs: the names of the branches that queries make.
use ovr.Prelude.{
  ℕ, zero, suc, ◌+◌, ◌*◌, ◌-◌, ◌/◌, ◌%◌, ◌<◌, ◌≡◌, refl, sym, ap, ◌∙◌, [], ◌∷◌, ◌++◌, ltb, arith,
  Bool-cases, inl, inr,
}
use ovr.Primitives.{Bytes, BlockHeight, u64_max}
use ovr.Ledger.Rollback.{digits, decimal, branch_name, next_height}

-- The number that digits spell, after those that `n` spells.
abbrev parse : ℕ → Bytes → ℕ
parse n [] = n
parse n (x ∷ xs) = parse (n * 10 + (x - 48)) xs

parse-append : (n x : ℕ) (xs : Bytes) → parse n (xs ++ (x ∷ [])) ≡ parse n xs * 10 + (x - 48)
parse-append n x [] = refl
parse-append n x (y ∷ ys) = parse-append (n * 10 + (y - 48)) x ys

parse-digits : (fuel n : ℕ) → n < fuel → parse 0 (digits fuel n) ≡ n
unfolding digits
parse-digits zero n h = absurd (omega arith)
parse-digits (suc fuel) n h = elim (Bool-cases (ltb n 10)) [
  | inl small ↦ rw small (omega arith)
  | inr large ↦ rw large (
      parse-append 0 (48 + n % 10) (digits fuel (n / 10))
      ∙ ground (arith, parse-digits fuel (n / 10)))
]

-- The digits that are printed of a number spell it again.
pub parse-decimal : (n : ℕ) → parse 0 (decimal n) ≡ n
unfolding decimal
parse-decimal n = parse-digits (suc n) n (omega arith)

after : Bytes → Bytes → Bytes
after [] xs = xs
after (p ∷ ps) [] = []
after (p ∷ ps) (x ∷ xs) = after ps xs

after-append : (p xs : Bytes) → after p (p ++ xs) ≡ xs
unfolding after
after-append [] xs = refl
after-append (p ∷ ps) xs = after-append ps xs

-- Two heights below the largest one whose queries of one kind make a branch of the same name
-- are the same height.
pub branch_name_injective :
    (prefix : Bytes) (h k : BlockHeight)
    → h < u64_max
    → k < u64_max
    → branch_name prefix h ≡ branch_name prefix k
    → h ≡ k
unfolding branch_name after
branch_name_injective prefix h k small small' e =
    let rest : 95 ∷ decimal (next_height h) ≡ 95 ∷ decimal (next_height k) =
      sym (after-append prefix _) ∙ ap (after prefix) e ∙ after-append prefix _ in
    let spelled : next_height h ≡ next_height k =
      sym (parse-decimal (next_height h))
      ∙ ap (λ xs. parse 0 (after (95 ∷ []) xs)) rest
      ∙ parse-decimal (next_height k) in
    omega (arith, spelled)
