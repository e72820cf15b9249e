-- ===== src/DevAddr/Read.antt =====
-- `NetIDType`, `NwkID` and `IsNetID` (fhdr.go) on the addresses that `SetAddrPrefix` writes.
use lorawan.Prelude.{
  ℕ, if◌then◌else◌, ◌-◌, ◌^◌, ◌+◌, ◌%◌, ◌*◌, ◌≡◌, ◌<◌, arith, All, suc, zero, refl, ◌∷◌, [], some,
  ltb, Option, none, drop, true, Bool, false, ◌↔◌, sym, ap, ◌∙◌,
}
use lorawan.Ident.{NetId, DevAddr}
use lorawan.DevAddr.{
  set_addr_prefix_at, set_addr_prefix, net_id_type_of, net_id_type_loop, net_id_type, byte_length,
  get_nwk_id, nwk_id_of, is_net_id, nwk_id,
}
use lorawan.Prelude.Bytes.{
  uint32_be, IsByte, Bytes, put_uint32_be, IsArray, put_uint32_be-uint32_be, bytewise,
  bytes_eq_sound, bytes_eq_refl,
}
use lorawan.Prelude.Bits.Table.{all_from, option_eq_sound, byte_table, option_eq}
use lorawan.DevAddr.Prefix.{nwk_id_bits, prefixed, id_value, set_addr_prefix_value, type_bound}

-- The number of leading ones of a byte; eight ones are no type.
abbrev pub leading_ones : ℕ → Option ℕ
leading_ones b =
    if ltb b 128
    then some 0
    else if ltb b 192
    then some 1
    else if ltb b 224
    then some 2
    else if ltb b 240
    then some 3
    else if ltb b 248
    then some 4
    else if ltb b 252
    then some 5
    else if ltb b 254
    then some 6
    else if ltb b 255
    then some 7
    else none

type_table : all_from 0 256 (λ b. option_eq (net_id_type_loop 8 b) (leading_ones b)) ≡ true
unfolding all_from net_id_type_loop
type_table = refl

net_id_type-leading_ones : (b : ℕ) → IsByte b → net_id_type_loop 8 b ≡ leading_ones b
net_id_type-leading_ones b h = option_eq_sound _ _ (byte_table _ type_table b h)

-- NetIDType of an address whose first byte is a byte counts the leading ones of that byte, and
-- has no result, the panic, for 0xff alone.
pub net_id_type_lem : (b : ℕ) (a : Bytes) → IsByte b → net_id_type (b ∷ a) ≡ leading_ones b
unfolding net_id_type
net_id_type_lem b a h = net_id_type-leading_ones b h

-- The NwkID bytes of an address of the type.
abbrev pub nwk_id_bytes : ℕ → ℕ → Bytes
nwk_id_bytes t id = drop (4 - byte_length (nwk_id_bits t)) (put_uint32_be (id % 2 ^ nwk_id_bits t))

below_eight {ℓ} :
    (P : ℕ → Type ℓ) → P 0 × P 1 × P 2 × P 3 × P 4 × P 5 × P 6 × P 7 → (t : ℕ) → t < 8 → P t
below_eight P h zero l = h.0
below_eight P h (suc zero) l = h.1
below_eight P h (suc (suc zero)) l = h.2
below_eight P h (suc (suc (suc zero))) l = h.3
below_eight P h (suc (suc (suc (suc zero)))) l = h.4
below_eight P h (suc (suc (suc (suc (suc zero))))) l = h.5
below_eight P h (suc (suc (suc (suc (suc (suc zero)))))) l = h.6
below_eight P h (suc (suc (suc (suc (suc (suc (suc zero))))))) l = h.7
below_eight P h (suc (suc (suc (suc (suc (suc (suc (suc t)))))))) l = absurd (omega arith)

-- In an address with the prefix of the type both parts can be read.
type_prefixed :
    (b0 low t id host : ℕ)
    → low < 2 ^ 24
    → t < 8
    → b0 * 2 ^ 24 + low ≡ prefixed t id host
    → leading_ones b0 ≡ some t
type_prefixed b0 low t id host l h =
    below_eight (λ t. b0 * 2 ^ 24 + low ≡ prefixed t id host → leading_ones b0 ≡ some t)
      (
        λ e. ground arith,
        λ e. ground arith,
        λ e. ground arith,
        λ e. ground arith,
        λ e. ground arith,
        λ e. ground arith,
        λ e. ground arith,
        λ e. ground arith,
      )
      t h

nwk_prefixed :
    (a : Bytes) (t id host : ℕ)
    → t < 8
    → uint32_be a ≡ prefixed t id host
    → nwk_id_of a t ≡ nwk_id_bytes t id
unfolding get_nwk_id
nwk_prefixed a t id host h =
    below_eight (λ t. uint32_be a ≡ prefixed t id host → nwk_id_of a t ≡ nwk_id_bytes t id)
      (
        λ e. ground arith,
        λ e. ground arith,
        λ e. ground arith,
        λ e. ground arith,
        λ e. ground arith,
        λ e. ground arith,
        λ e. ground arith,
        λ e. ground arith,
      )
      t h

abbrev pub IsAddr : Bytes → Type 0
IsAddr a = IsArray 4 a

if_IsAddr : (b : Bool) (x y : Bytes) → IsAddr x → IsAddr y → IsAddr (if b then x else y)
if_IsAddr true x y hx hy = hx
if_IsAddr false x y hx hy = hy

at-IsAddr : (a : DevAddr) (pl w : ℕ) (n : NetId) → IsAddr (set_addr_prefix_at a pl w n)
unfolding set_addr_prefix_at
at-IsAddr a pl w n = omega arith

set_addr_prefix-IsAddr : (a : DevAddr) (n : NetId) → IsAddr a → IsAddr (set_addr_prefix a n)
unfolding set_addr_prefix
set_addr_prefix-IsAddr a n h = search (if_IsAddr, at-IsAddr, h) depth 12

uint32_be_injective : (a b : Bytes) → IsAddr a → IsAddr b → uint32_be a ≡ uint32_be b → a ≡ b
uint32_be_injective a b ha hb e =
    sym (put_uint32_be-uint32_be a ha) ∙ ap put_uint32_be e ∙ put_uint32_be-uint32_be b hb

-- IsNetID of an address of four bytes and a NetID of bytes is true exactly when the address is
-- the prefix of the NetID's type, the low bits of its ID, and the address's own host bits.
pub is_net_id_iff :
    (a : DevAddr) (n : NetId)
    → IsAddr a
    → All IsByte n
    → (is_net_id a n ≡ true)
      ↔ (uint32_be a ≡ prefixed (net_id_type_of n) (id_value n) (uint32_be a))
unfolding is_net_id
is_net_id_iff a n h k = (
  λ e. ap uint32_be (bytes_eq_sound a (set_addr_prefix a n) e) ∙ set_addr_prefix_value a n k,
  λ e.
      let same : a ≡ set_addr_prefix a n =
        uint32_be_injective a (set_addr_prefix a n) h (set_addr_prefix-IsAddr a n h)
          (e ∙ sym (set_addr_prefix_value a n k)) in
      rw (← same) (bytes_eq_refl a),
)

prefixed_again : (t id host : ℕ) → t < 8 → prefixed t id (prefixed t id host) ≡ prefixed t id host
prefixed_again t id host =
    below_eight (λ t. prefixed t id (prefixed t id host) ≡ prefixed t id host)
      (
        omega arith,
        omega arith,
        omega arith,
        omega arith,
        omega arith,
        omega arith,
        omega arith,
        omega arith,
      )
      t

net_id_type-prefixed :
    (a : Bytes) (t id host : ℕ)
    → t < 8
    → IsAddr a
    → uint32_be a ≡ prefixed t id host
    → net_id_type a ≡ some t
net_id_type-prefixed a t id host h k e =
    bytewise 4 (λ bs. All IsByte bs → uint32_be bs ≡ prefixed t id host → net_id_type bs ≡ some t)
      (λ b0 b1 b2 b3 small eq.
        net_id_type_lem b0 (b1 ∷ b2 ∷ b3 ∷ []) small.0
        ∙ type_prefixed b0 (b1 * 65536 + b2 * 256 + b3) t id host (omega arith) h (omega arith))
      a k.0 k.1 e

nwk_id-prefixed :
    (a : Bytes) (t id host : ℕ)
    → t < 8
    → IsAddr a
    → uint32_be a ≡ prefixed t id host
    → nwk_id a ≡ some (nwk_id_bytes t id)
unfolding nwk_id
nwk_id-prefixed a t id host h k e =
    rw (net_id_type-prefixed a t id host h k e, nwk_id) (ap some (nwk_prefixed a t id host h e))

-- After SetAddrPrefix with a NetID of bytes a device address of four bytes has the NetID's type,
-- its NwkID is the low bits of the NetID's ID that the type keeps, and IsNetID holds.
pub set_addr_prefix_reads :
    (a : DevAddr) (n : NetId)
    → IsAddr a
    → All IsByte n
    → (net_id_type (set_addr_prefix a n) ≡ some (net_id_type_of n))
      × (nwk_id (set_addr_prefix a n) ≡ some (nwk_id_bytes (net_id_type_of n) (id_value n)))
      × (is_net_id (set_addr_prefix a n) n ≡ true)
set_addr_prefix_reads a n h k =
    let b = set_addr_prefix a n in
    let t = net_id_type_of n in
    let id = id_value n in
    let host = uint32_be a in
    let small = type_bound n k in
    let fits = set_addr_prefix-IsAddr a n h in
    let value = set_addr_prefix_value a n k in
    let again : uint32_be b ≡ prefixed t id (uint32_be b) =
      value ∙ sym (prefixed_again t id host small) ∙ sym (ap (λ v. prefixed t id v) value) in
    (
      net_id_type-prefixed b t id host small fits value,
      nwk_id-prefixed b t id host small fits value,
      (is_net_id_iff b n fits k).1 again,
    )
