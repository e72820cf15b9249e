-- ===== src/DevAddr/Prefix.antt =====
-- `SetAddrPrefix` of fhdr.go in plain arithmetic.
use native.Mathlib.Nat.{mod-lt, mul-le-mul_right, one-le-pow}
use lorawan.Prelude.{
  ℕ, if◌then◌else◌, ◌-◌, ◌^◌, ◌+◌, ◌==◌, ◌%◌, replicate, ◌*◌, ◌≡◌, length, ◌++◌, ◌≤◌, ◌<◌, arith,
  All, suc, zero, refl, ◌∷◌, [], ltb,
}
use lorawan.Ident.{NetId, DevAddr}
use lorawan.DevAddr.{set_addr_prefix_at, net_id_id, set_addr_prefix, net_id_type_of, get_id}
use lorawan.Prelude.Bits.{shl, shr, bit_and_mask, bit_or_three}
use lorawan.Prelude.Bytes.{uint32_be, IsByte, uint32_be-put_uint32_be}

-- The width of the NwkID in an address of the type.
abbrev pub nwk_id_bits : ℕ → ℕ
nwk_id_bits t =
    if t == 0
    then 6
    else if t == 1
    then 6
    else if t == 2
    then 9
    else if t == 3
    then 11
    else if t == 4
    then 12
    else if t == 5
    then 13
    else if t == 6
    then 15
    else 17

-- The number of bits below the prefix and the NwkID.
abbrev pub host_bits : ℕ → ℕ
host_bits t = 32 - (t + 1) - nwk_id_bits t

-- An address with the type's prefix (as many ones as the type says, and a zero), the low bits of the
-- NetID, and the host part of the old address.
abbrev pub prefixed : ℕ → ℕ → ℕ → ℕ
prefixed t id host =
    (2 ^ 32 - 2 ^ (32 - t)) + id % 2 ^ nwk_id_bits t * 2 ^ host_bits t + host % 2 ^ host_bits t

abbrev pub id_value : NetId → ℕ
id_value n = let id = net_id_id n in uint32_be (replicate (4 - length id) 0 ++ id)

fields_fit :
    (w k p j r : ℕ) → r < k → j < w → (p * w + w) * k ≤ 2 ^ 32 → (p * w + j) * k + r < 2 ^ 32
fields_fit w k p j r h g fits =
    let step : (p * w + j + 1) * k ≤ (p * w + w) * k = mul-le-mul_right k (omega arith) in
    omega (arith, step)

-- One case of the switch; the equations hold by computation at its numerals.
set_at :
    (a : DevAddr) (n : NetId) (pl w k p : ℕ)
    → 2 ^ 32 - 1 - shl 32 (2 ^ 32 - 1) (32 - pl - w) ≡ 2 ^ k - 1
    → shl 32 254 (32 - pl) ≡ p * 2 ^ w * 2 ^ k
    → ((x : ℕ) → shr (shl 32 x (32 - w)) pl ≡ x % 2 ^ w * 2 ^ k)
    → (p * 2 ^ w + 2 ^ w) * 2 ^ k ≤ 2 ^ 32
    → uint32_be (set_addr_prefix_at a pl w n)
      ≡ (p * 2 ^ w + id_value n % 2 ^ w) * 2 ^ k + uint32_be a % 2 ^ k
unfolding set_addr_prefix_at
set_at a n pl w k p mask prefix shift fits =
    let host = uint32_be a % 2 ^ k in
    let id = id_value n % 2 ^ w in
    let host_fits : host < 2 ^ k = mod-lt (uint32_be a) (one-le-pow k 2 (omega arith)) in
    let id_fits : id < 2 ^ w = mod-lt (id_value n) (one-le-pow w 2 (omega arith)) in
    rw (mask, prefix, shift (id_value n), bit_and_mask k (uint32_be a))
      (rw (bit_or_three w k p id host host_fits id_fits)
        (uint32_be-put_uint32_be _ (fields_fit (2 ^ w) (2 ^ k) p id host host_fits id_fits fits)))

set_case :
    (a : DevAddr) (n : NetId) (t : ℕ)
    → t < 8
    → net_id_type_of n ≡ t
    → uint32_be (set_addr_prefix a n) ≡ prefixed (net_id_type_of n) (id_value n) (uint32_be a)
unfolding set_addr_prefix
set_case a n zero h e =
    rw e (omega (arith, set_at a n 1 6 25 0 refl refl (λ x. omega arith) (omega arith)))
set_case a n (suc zero) h e =
    rw e (omega (arith, set_at a n 2 6 24 2 refl refl (λ x. omega arith) (omega arith)))
set_case a n (suc (suc zero)) h e =
    rw e (omega (arith, set_at a n 3 9 20 6 refl refl (λ x. omega arith) (omega arith)))
set_case a n (suc (suc (suc zero))) h e =
    rw e (omega (arith, set_at a n 4 11 17 14 refl refl (λ x. omega arith) (omega arith)))
set_case a n (suc (suc (suc (suc zero)))) h e =
    rw e (omega (arith, set_at a n 5 12 15 30 refl refl (λ x. omega arith) (omega arith)))
set_case a n (suc (suc (suc (suc (suc zero))))) h e =
    rw e (omega (arith, set_at a n 6 13 13 62 refl refl (λ x. omega arith) (omega arith)))
set_case a n (suc (suc (suc (suc (suc (suc zero)))))) h e =
    rw e (omega (arith, set_at a n 7 15 10 126 refl refl (λ x. omega arith) (omega arith)))
set_case a n (suc (suc (suc (suc (suc (suc (suc zero))))))) h e =
    rw e (omega (arith, set_at a n 8 17 7 254 refl refl (λ x. omega arith) (omega arith)))
set_case a n (suc (suc (suc (suc (suc (suc (suc (suc t)))))))) h e = absurd (omega arith)

pub type_bound : (n : NetId) → All IsByte n → net_id_type_of n < 8
unfolding net_id_type_of
type_bound [] h = omega arith
type_bound (b ∷ bs) h = omega arith

-- The value of the new address.
pub set_addr_prefix_value :
    (a : DevAddr) (n : NetId)
    → All IsByte n
    → uint32_be (set_addr_prefix a n) ≡ prefixed (net_id_type_of n) (id_value n) (uint32_be a)
set_addr_prefix_value a n h = set_case a n (net_id_type_of n) (type_bound n h) refl

-- The NetID as a number of 24 bits.
abbrev pub uint24 : NetId → ℕ
uint24 n = uint32_be (0 ∷ n)

-- `ID` is the low part of the NetID: 6, 9 or 21 bits.
id_value_lem :
    (x y z : ℕ)
    → IsByte x
    → IsByte y
    → IsByte z
    → id_value (x ∷ y ∷ z ∷ []) ≡ (
        if ltb x 64
        then uint24 (x ∷ y ∷ z ∷ []) % 2 ^ 6
        else if ltb x 96
        then uint24 (x ∷ y ∷ z ∷ []) % 2 ^ 9
        else uint24 (x ∷ y ∷ z ∷ []) % 2 ^ 21)
unfolding net_id_id get_id net_id_type_of
id_value_lem x y z hx hy hz = ground arith
