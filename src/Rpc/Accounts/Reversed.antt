-- ===== src/Rpc/Accounts/Reversed.antt =====
-- rpc/eth.rs: the number of the slot that an index of the storage query names.
use native.Mathlib.Nat.{pow-suc}
use ovr.Prelude.{
  ℕ, zero, suc, ◌+◌, ◌*◌, ◌/◌, ◌^◌, ◌<◌, ◌≡◌, refl, ap, ◌∙◌, [], ◌∷◌, All, length, arith,
}
use ovr.Primitives.{H256, U256, Bytes, u256_mod}
use ovr.Ledger.Block.{big_endian}
use ovr.Rpc.Accounts.{little_endian, slot_of_index}

-- The number that bytes stand for, the lowest first.
abbrev pub value_of : Bytes → ℕ
value_of [] = 0
value_of (x ∷ xs) = x + 256 * value_of xs

abbrev pub reverse_onto : Bytes → Bytes → Bytes
reverse_onto ys [] = ys
reverse_onto ys (x ∷ xs) = reverse_onto (x ∷ ys) xs

-- The number has the 32 bytes of the index, in the reverse order.
pub record IsReversed (index : U256) (slot : H256) : Type 0 where
  pub bytes : Bytes
  pub count : length bytes ≡ 32
  pub are_bytes : All (λ x. x < 256) bytes
  pub of_index : value_of bytes ≡ index
  pub of_slot : value_of (reverse_onto [] bytes) ≡ slot

big_endian-value_of : (ys xs : Bytes) → value_of (reverse_onto ys xs) ≡ big_endian (value_of ys) xs
big_endian-value_of ys [] = refl
big_endian-value_of ys (x ∷ xs) =
    big_endian-value_of (x ∷ ys) xs ∙ ap (λ n. big_endian n xs) (omega arith)

length-little_endian : (n x : ℕ) → length (little_endian n x) ≡ n
length-little_endian zero x = refl
length-little_endian (suc n) x = ground (arith, length-little_endian n (x / 256))

little_endian-bytes : (n x : ℕ) → All (λ b. b < 256) (little_endian n x)
little_endian-bytes zero x = tt
little_endian-bytes (suc n) x = (omega arith, little_endian-bytes n (x / 256))

value_of-little_endian : (n x : ℕ) → x < 256 ^ n → value_of (little_endian n x) ≡ x
value_of-little_endian zero x h = omega (arith, h)
value_of-little_endian (suc n) x h =
    let small : x / 256 < 256 ^ n = omega (arith, h, pow-suc 256 n) in
    let ih = value_of-little_endian n (x / 256) small in omega (arith, ih)

pub slot_of_index-IsReversed :
    (index : U256) → index < u256_mod → IsReversed index (slot_of_index index)
slot_of_index-IsReversed index h = record {
  bytes = little_endian 32 index;
  count = length-little_endian 32 index;
  are_bytes = little_endian-bytes 32 index;
  of_index = value_of-little_endian 32 index (omega (arith, h));
  of_slot = big_endian-value_of [] (little_endian 32 index);
}
