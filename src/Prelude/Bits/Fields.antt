-- ===== src/Prelude/Bits/Fields.antt =====
-- The fields of a byte: what the masks and shifts of the payloads select, at their numerals.
use lorawan.Prelude.Bits.{
  shl, shr, bit_or_fields_low, bit_xor_fields, bit_xor_comm, bit_and_mask, bit_and_field,
}
use Prim.Native.Nat.{ℕ, zero, suc, ◌+◌, ◌*◌, ◌/◌, ◌%◌, ◌^◌, ◌<◌, bit_and, bit_or, bit_xor}
use mathlib.Core.Path.{◌≡◌, refl}
use native.Mathlib.Omega.{arith}

-- A low field of `k` bits under a high one.
pub or_pack :
    (k lo hi : ℕ) → lo < 2 ^ k → hi * 2 ^ k < 2 ^ 8 → bit_or lo (shl 8 hi k) ≡ hi * 2 ^ k + lo
or_pack k lo hi p q = ground (arith, bit_or_fields_low k hi lo)

pub xor_pack :
    (k lo hi : ℕ) → lo < 2 ^ k → hi * 2 ^ k < 2 ^ 8 → bit_xor lo (shl 8 hi k) ≡ hi * 2 ^ k + lo
xor_pack k lo hi p q = ground (arith, bit_xor_fields k hi lo, bit_xor_comm lo (hi * 2 ^ k))

pub low_nibble : (b : ℕ) → bit_and b 0x0f ≡ b % 16
low_nibble b = bit_and_mask 4 b

pub high_nibble : (b : ℕ) → shr (bit_and b 0xf0) 4 ≡ b / 16 % 16
high_nibble b = omega (arith, bit_and_field 4 4 b)

pub high_three : (b : ℕ) → shr (bit_and b 0x70) 4 ≡ b / 16 % 8
high_three b = omega (arith, bit_and_field 3 4 b)

pub bit_flag : (k b : ℕ) → bit_and b (1 * 2 ^ k) ≡ b / 2 ^ k % 2 * 2 ^ k
bit_flag k b = bit_and_field 1 k b

pub low_two : (b : ℕ) → bit_and b 0x03 ≡ b % 4
low_two b = bit_and_mask 2 b

-- The mask 0x17 keeps the low three bits.
pub low_three_of_17 : (n : ℕ) → n < 8 → bit_and n 0x17 ≡ n
low_three_of_17 zero h = refl
low_three_of_17 (suc zero) h = refl
low_three_of_17 (suc (suc zero)) h = refl
low_three_of_17 (suc (suc (suc zero))) h = refl
low_three_of_17 (suc (suc (suc (suc zero)))) h = refl
low_three_of_17 (suc (suc (suc (suc (suc zero))))) h = refl
low_three_of_17 (suc (suc (suc (suc (suc (suc zero)))))) h = refl
low_three_of_17 (suc (suc (suc (suc (suc (suc (suc zero))))))) h = refl
low_three_of_17 (suc (suc (suc (suc (suc (suc (suc (suc n)))))))) h = absurd (omega arith)
