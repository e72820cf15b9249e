-- ===== src/Ident/RoundTrip.antt =====
-- The encodings of the identifiers (payload.go, netid.go, fhdr.go, phypayload.go), read back.
use lorawan.Prelude.{
  ℕ, ◌<◌, ◌≡◌, ok, ◌^◌, arith, length, take, ap, refl, reverse, Bool-cases, length-reverse, ◌>>=◌,
  ◌==◌, ◌∙◌, All-reverse, inl, ok_injective, ==_iff, inr,
}
use lorawan.Prelude.Bytes.{Bytes, IsArray, IsU16, RoundTrips, put_uint16, put_uint32, IsByte}
use lorawan.Ident.{
  marshal_aes128_key, marshal_dev_addr, marshal_dev_nonce, marshal_eui64, marshal_join_nonce,
  marshal_net_id, unmarshal_aes128_key, unmarshal_dev_addr, unmarshal_dev_nonce, unmarshal_eui64,
  unmarshal_join_nonce, unmarshal_net_id, unmarshal_reversed, marshal_text_aes128_key,
  marshal_text_dev_addr, marshal_text_eui64, marshal_text_net_id, scan_array, unmarshal_text_array,
  sql_bytes, unmarshal_text_aes128_key, unmarshal_text_dev_addr, unmarshal_text_eui64,
  unmarshal_text_net_id, reversed, value_aes128_key, value_dev_addr, value_eui64, value_net_id,
  scan_aes128_key, scan_dev_addr, scan_eui64, scan_net_id,
}
use lorawan.Ident.Hex.{encode_to_string, decode-encode}
use mathlib.Core.List.{reverse-reverse}

-- The reversal as a codec of arrays of `n` bytes.
reversed_lem :
    (n : ℕ) (a : Bytes) → IsArray n a → RoundTrips (λ b. ok (reversed b)) (unmarshal_reversed n) n a
reversed_lem n a h = (
  reverse a,
  refl,
  length-reverse a ∙ h.0,
  All-reverse IsByte a h.1,
  rw (length-reverse, reverse-reverse) (ground arith),
)

text_lem : (n : ℕ) (a : Bytes) → IsArray n a → unmarshal_text_array n (encode_to_string a) ≡ ok a
text_lem n a h = rw (decode-encode a h.1) (ground arith)

scan_lem : (n : ℕ) (a : Bytes) → IsArray n a → scan_array n (sql_bytes a) ≡ ok a
scan_lem n a h = ground arith

-- What was accepted is what the value is written as.
reversed_back :
    (n : ℕ) (bs a : Bytes) → unmarshal_reversed n bs ≡ ok a → (length bs ≡ n) × (reverse a ≡ bs)
reversed_back n bs a h = elim (Bool-cases (length bs == n)) [
  | inl same ↦
      let back : reverse bs ≡ a = ok_injective (rw same at h) in
      ((==_iff (length bs) n).0 same, rw (← back) (reverse-reverse bs))
  | inr other ↦ cc (rw other at h)
]

pub eui64_lem :
    (a : Bytes)
    → IsArray 8 a
    → RoundTrips marshal_eui64 unmarshal_eui64 8 a
      × ((marshal_text_eui64 a >>= unmarshal_text_eui64) ≡ ok a)
      × (scan_eui64 (value_eui64 a) ≡ ok a)
unfolding marshal_eui64 unmarshal_eui64 marshal_text_eui64 unmarshal_text_eui64 value_eui64
    scan_eui64
eui64_lem a h = (reversed_lem 8 a h, text_lem 8 a h, scan_lem 8 a h)

pub eui64_back :
    (bs a : Bytes) → unmarshal_eui64 bs ≡ ok a → (length bs ≡ 8) × (marshal_eui64 a ≡ ok bs)
unfolding marshal_eui64 unmarshal_eui64
eui64_back bs a h = let (len, back) = reversed_back 8 bs a h in (len, ap ok back)

-- A device address of four bytes comes back from its binary form, which is four bytes, from its
-- hexadecimal text, and from its database value.
pub dev_addr_lem :
    (a : Bytes)
    → IsArray 4 a
    → RoundTrips marshal_dev_addr unmarshal_dev_addr 4 a
      × ((marshal_text_dev_addr a >>= unmarshal_text_dev_addr) ≡ ok a)
      × (scan_dev_addr (value_dev_addr a) ≡ ok a)
unfolding marshal_dev_addr unmarshal_dev_addr marshal_text_dev_addr unmarshal_text_dev_addr
    value_dev_addr scan_dev_addr
dev_addr_lem a h = (reversed_lem 4 a h, text_lem 4 a h, scan_lem 4 a h)

pub dev_addr_back :
    (bs a : Bytes) → unmarshal_dev_addr bs ≡ ok a → (length bs ≡ 4) × (marshal_dev_addr a ≡ ok bs)
unfolding marshal_dev_addr unmarshal_dev_addr
dev_addr_back bs a h = let (len, back) = reversed_back 4 bs a h in (len, ap ok back)

-- A NetID of three bytes comes back from its binary form, which is three bytes, from its
-- hexadecimal text, and from its database value.
pub net_id_lem :
    (a : Bytes)
    → IsArray 3 a
    → RoundTrips marshal_net_id unmarshal_net_id 3 a
      × ((marshal_text_net_id a >>= unmarshal_text_net_id) ≡ ok a)
      × (scan_net_id (value_net_id a) ≡ ok a)
unfolding marshal_net_id unmarshal_net_id marshal_text_net_id unmarshal_text_net_id value_net_id
    scan_net_id
net_id_lem a h = (reversed_lem 3 a h, text_lem 3 a h, scan_lem 3 a h)

pub net_id_back :
    (bs a : Bytes) → unmarshal_net_id bs ≡ ok a → (length bs ≡ 3) × (marshal_net_id a ≡ ok bs)
unfolding marshal_net_id unmarshal_net_id
net_id_back bs a h = let (len, back) = reversed_back 3 bs a h in (len, ap ok back)

pub aes128_key_lem :
    (a : Bytes)
    → IsArray 16 a
    → RoundTrips marshal_aes128_key unmarshal_aes128_key 16 a
      × ((marshal_text_aes128_key a >>= unmarshal_text_aes128_key) ≡ ok a)
      × (scan_aes128_key (value_aes128_key a) ≡ ok a)
unfolding marshal_aes128_key unmarshal_aes128_key marshal_text_aes128_key unmarshal_text_aes128_key
    value_aes128_key scan_aes128_key
aes128_key_lem a h = (reversed_lem 16 a h, text_lem 16 a h, scan_lem 16 a h)

pub aes128_key_back :
    (bs a : Bytes)
    → unmarshal_aes128_key bs ≡ ok a
    → (length bs ≡ 16) × (marshal_aes128_key a ≡ ok bs)
unfolding marshal_aes128_key unmarshal_aes128_key
aes128_key_back bs a h = let (len, back) = reversed_back 16 bs a h in (len, ap ok back)

pub dev_nonce_lem : (n : ℕ) → IsU16 n → RoundTrips marshal_dev_nonce unmarshal_dev_nonce 2 n
unfolding marshal_dev_nonce unmarshal_dev_nonce
dev_nonce_lem n h = (put_uint16 n, refl, refl, omega arith, ground arith)

pub join_nonce_lem : (n : ℕ) → n < 2 ^ 24 → RoundTrips marshal_join_nonce unmarshal_join_nonce 3 n
unfolding marshal_join_nonce unmarshal_join_nonce
join_nonce_lem n h = (take 3 (put_uint32 n), ground arith, refl, omega arith, ground arith)
