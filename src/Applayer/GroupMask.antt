-- ===== src/Applayer/GroupMask.antt =====
-- The masks of four groups that the payloads of applayer/fragmentation and applayer/multicastsetup
-- hold in the low bits of a byte.
use lorawan.Prelude.{
  ℕ, [], ◌∷◌, Bool, List, if◌then◌else◌, length, ◌+◌, bit_or, not, ◌*◌, ◌≡◌, arith, bit_and, ◌<◌,
  ◌==◌,
}
use lorawan.Prelude.Bits.{shl}
use lorawan.Prelude.Bits.Fields.{bit_flag}

-- `[4]bool`
abbrev pub GroupMask : Type 0
GroupMask = List Bool

-- The loop `if mask { b |= 1 << i }` over the masks from `i` on.
unfoldable pub group_mask_bits : ℕ → ℕ → GroupMask → ℕ
group_mask_bits i b [] = b
group_mask_bits i b (m ∷ ms) = group_mask_bits (i + 1) (if m then bit_or b (shl 8 1 i) else b) ms

-- `b & (1 << i) != 0`
abbrev pub bit_set : ℕ → ℕ → Bool
bit_set b i = not (bit_and b (shl 8 1 i) == 0)

unfoldable pub read_group_mask : ℕ → GroupMask
read_group_mask b = bit_set b 0 ∷ bit_set b 1 ∷ bit_set b 2 ∷ bit_set b 3 ∷ []

-- The value of a mask.
abbrev pub mask_value : GroupMask → ℕ
mask_value [] = 0
mask_value (m ∷ ms) = (if m then 1 else 0) + 2 * mask_value ms

pub group_mask_bits_lem :
    (m : GroupMask) → length m ≡ 4 → (group_mask_bits 0 0 m ≡ mask_value m) × (mask_value m < 16)
unfolding group_mask_bits
group_mask_bits_lem (a ∷ b ∷ c ∷ d ∷ []) h = ground arith
group_mask_bits_lem [] h = absurd (omega arith)
group_mask_bits_lem (a ∷ []) h = absurd (omega arith)
group_mask_bits_lem (a ∷ b ∷ []) h = absurd (omega arith)
group_mask_bits_lem (a ∷ b ∷ c ∷ []) h = absurd (omega arith)
group_mask_bits_lem (a ∷ b ∷ c ∷ d ∷ e ∷ m) h = absurd (omega arith)

-- The mask is read back from under the other bits.
pub read_group_mask_lem :
    (m : GroupMask) (high : ℕ) → length m ≡ 4 → read_group_mask (high * 16 + mask_value m) ≡ m
unfolding read_group_mask
read_group_mask_lem (a ∷ b ∷ c ∷ d ∷ []) high h =
    let v = high * 16 + mask_value (a ∷ b ∷ c ∷ d ∷ []) in
    ground (arith, bit_flag 0 v, bit_flag 1 v, bit_flag 2 v, bit_flag 3 v)
read_group_mask_lem [] high h = absurd (omega arith)
read_group_mask_lem (a ∷ []) high h = absurd (omega arith)
read_group_mask_lem (a ∷ b ∷ []) high h = absurd (omega arith)
read_group_mask_lem (a ∷ b ∷ c ∷ []) high h = absurd (omega arith)
read_group_mask_lem (a ∷ b ∷ c ∷ d ∷ e ∷ m) high h = absurd (omega arith)
