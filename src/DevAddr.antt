-- ===== src/DevAddr.antt =====
-- The network part of a device address: NetIDType, NwkID, SetAddrPrefix and IsNetID of fhdr.go, and
-- Type and ID of netid.go. `none` stands for a panic.
pub mod Prefix
pub mod Read
use lorawan.Prelude.{
  ℕ, Option, bit_and, if◌then◌else◌, Bool, get_or, leb, none, not, ◌==◌, ◌^◌, [], suc, ◌%◌, ◌-◌,
  ◌∷◌, bit_or, drop, some, true, ◌/◌, false, replicate, zero, ◌+◌, length, ◌&&◌, ◌++◌,
}
use lorawan.Prelude.Bytes.{Bytes, uint32_be, put_uint32_be, bytes_eq}
use lorawan.Ident.{DevAddr, NetId}
use lorawan.Prelude.Bits.{shl, shr}

-- `x &^ m` on a word of 32 bits
abbrev pub bit_clear : ℕ → ℕ → ℕ
bit_clear x m = bit_and x (2 ^ 32 - 1 - m)

-- The number of bytes that hold so many bits.
abbrev pub byte_length : ℕ → ℕ
byte_length bits = if not (bits % 8 == 0) then bits / 8 + 1 else bits / 8

unfoldable pub get_id : NetId → ℕ → Bytes
get_id n bits =
    let temp = shr (shl 32 (uint32_be (0 ∷ n)) (32 - bits)) (32 - bits) in
    drop (4 - byte_length bits) (put_uint32_be temp)

-- `NetID.Type`
unfoldable pub net_id_type_of : NetId → ℕ
net_id_type_of n = shr (get_or n 0 0) 5

-- `NetID.ID`; `nil` is the empty slice.
unfoldable pub net_id_id : NetId → Bytes
unfolding get_id
net_id_id n =
    let t = net_id_type_of n in
    if leb t 1
    then get_id n 6
    else if t == 2
    then get_id n 9
    else if leb t 7
    then get_id n 21
    else []

-- The loop of `NetIDType`: the first argument is i + 1.
unfoldable pub net_id_type_loop : ℕ → ℕ → Option ℕ
net_id_type_loop zero b = none
net_id_type_loop (suc i) b =
    let rest = net_id_type_loop i b in if bit_and b (shl 8 1 i) == 0 then some (7 - i) else rest

unfoldable pub net_id_type : DevAddr → Option ℕ
unfolding net_id_type_loop
net_id_type a = net_id_type_loop 8 (get_or a 0 0)

unfoldable pub get_nwk_id : DevAddr → ℕ → ℕ → Bytes
get_nwk_id a prefix_length nwk_id_bits =
    let temp = shl 32 (uint32_be a) prefix_length in
    let id = shr temp (32 - nwk_id_bits) in drop (4 - byte_length nwk_id_bits) (put_uint32_be id)

-- The cases of the switch in `NwkID`.
abbrev pub nwk_id_of : DevAddr → ℕ → Bytes
nwk_id_of a t =
    if t == 0
    then get_nwk_id a 1 6
    else if t == 1
    then get_nwk_id a 2 6
    else if t == 2
    then get_nwk_id a 3 9
    else if t == 3
    then get_nwk_id a 4 11
    else if t == 4
    then get_nwk_id a 5 12
    else if t == 5
    then get_nwk_id a 6 13
    else if t == 6
    then get_nwk_id a 7 15
    else if t == 7
    then get_nwk_id a 8 17
    else []

unfoldable pub nwk_id : DevAddr → Option Bytes
nwk_id a = elim (net_id_type a) [ none ↦ none | some t ↦ some (nwk_id_of a t) ]

-- `setAddrPrefix`, with `copy(nwkIDBytes[len(nwkIDBytes)-len(id):], id)` as padding in front.
unfoldable pub set_addr_prefix_at : DevAddr → ℕ → ℕ → NetId → DevAddr
set_addr_prefix_at a prefix_length nwk_id_bits net_id =
    let dev_addr = uint32_be a in
    let mask : ℕ = 2 ^ 32 - 1 in
    let cleared = bit_clear dev_addr (shl 32 mask (32 - prefix_length - nwk_id_bits)) in
    let prefixed = bit_or cleared (shl 32 254 (32 - prefix_length)) in
    let id = net_id_id net_id in
    let id_value = uint32_be (replicate (4 - length id) 0 ++ id) in
    let nwk_id = shr (shl 32 id_value (32 - nwk_id_bits)) prefix_length in
    put_uint32_be (bit_or prefixed nwk_id)

unfoldable pub set_addr_prefix : DevAddr → NetId → DevAddr
set_addr_prefix a n =
    let t = net_id_type_of n in
    if t == 0
    then set_addr_prefix_at a 1 6 n
    else if t == 1
    then set_addr_prefix_at a 2 6 n
    else if t == 2
    then set_addr_prefix_at a 3 9 n
    else if t == 3
    then set_addr_prefix_at a 4 11 n
    else if t == 4
    then set_addr_prefix_at a 5 12 n
    else if t == 5
    then set_addr_prefix_at a 6 13 n
    else if t == 6
    then set_addr_prefix_at a 7 15 n
    else if t == 7
    then set_addr_prefix_at a 8 17 n
    else a

unfoldable pub is_net_id : DevAddr → NetId → Bool
is_net_id a n = bytes_eq a (set_addr_prefix a n)
