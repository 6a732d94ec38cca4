-- ===== src/Primitives.antt =====
-- The number types of the program: fixed-size hashes as the numbers that they spell in big
-- endian, whose order is the byte order, and the 256-bit unsigned integers.
use ovr.Prelude.{ℕ, ◌+◌, ◌-◌, ◌*◌, ◌^◌, Option, none, some, List, ltb, if◌then◌else◌}

abbrev pub H160 : Type 0
H160 = ℕ

abbrev pub H256 : Type 0
H256 = ℕ

abbrev pub U256 : Type 0
U256 = ℕ

abbrev pub Bytes : Type 0
Bytes = List ℕ

abbrev pub HashValue : Type 0
HashValue = Bytes

abbrev pub BlockHeight : Type 0
BlockHeight = ℕ

-- One more than `U256::MAX`.
abbrev pub u256_mod : ℕ
u256_mod = 2 ^ 256

abbrev pub u64_max : ℕ
u64_max = 2 ^ 64 - 1

-- `none` where the sum does not fit: `checked_add`, and `+`, which panics there.
abbrev pub checked_add : U256 → U256 → Option U256
checked_add a b = if ltb (a + b) u256_mod then some (a + b) else none

-- `none` where the product does not fit: `checked_mul`, and `*`, which panics there.
abbrev pub checked_mul : U256 → U256 → Option U256
checked_mul a b = if ltb (a * b) u256_mod then some (a * b) else none

abbrev pub saturating_add : U256 → U256 → U256
saturating_add a b = if ltb (a + b) u256_mod then a + b else u256_mod - 1

abbrev pub saturating_sub : U256 → U256 → U256
saturating_sub a b = a - b
