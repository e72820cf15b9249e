-- ===== src/Ident.antt =====
-- The identifiers, keys and nonces of payload.go, fhdr.go, netid.go and phypayload.go: byte arrays
-- that are sent least significant byte first, shown in hexadecimal, and stored as they are.
pub mod Hex
pub mod RoundTrip
use lorawan.Prelude.{
  ℕ, Result, if◌then◌else◌, ok, reverse, length, not, ◌==◌, err, bytes_expected, message, ◌++◌, ◌∷◌,
  [], ◌>>=◌, ◌>>◌, fail_if, leb, ◌^◌, max_value, take,
}
use lorawan.Prelude.Bytes.{Bytes, put_uint16, uint16, uint32, put_uint32}
use lorawan.Ident.Hex.{encode_to_string, decode_string}

-- `out[len(a)-i-1] = v` for each byte
abbrev pub reversed : Bytes → Bytes
reversed a = reverse a

abbrev pub unmarshal_reversed : ℕ → Bytes → Result Bytes
unmarshal_reversed n bs = if length bs == n then ok (reverse bs) else err (bytes_expected n)

-- What a database driver hands to `Scan`.
pub data SqlValue : Type 0 where
  sql_bytes : Bytes → SqlValue
  sql_other : SqlValue

abbrev pub scan_array : ℕ → SqlValue → Result Bytes
scan_array n (sql_bytes bs) = if length bs == n then ok bs else err (bytes_expected n)
scan_array n sql_other = err (message "[]byte type expected")

-- `hex.DecodeString`, then the check of the length
abbrev pub unmarshal_text_array : ℕ → Bytes → Result Bytes
unmarshal_text_array n text = do
  bs ← decode_string text
  if length bs == n then ok bs else err (bytes_expected n)

abbrev pub Eui64 : Type 0
Eui64 = Bytes

unfoldable pub marshal_eui64 : Eui64 → Result Bytes
marshal_eui64 e = ok (reversed e)

unfoldable pub unmarshal_eui64 : Bytes → Result Eui64
unmarshal_eui64 bs = unmarshal_reversed 8 bs

unfoldable pub marshal_text_eui64 : Eui64 → Result Bytes
marshal_text_eui64 e = ok (encode_to_string e)

unfoldable pub unmarshal_text_eui64 : Bytes → Result Eui64
unmarshal_text_eui64 text = unmarshal_text_array 8 text

unfoldable pub value_eui64 : Eui64 → SqlValue
value_eui64 e = sql_bytes e

unfoldable pub scan_eui64 : SqlValue → Result Eui64
scan_eui64 v = scan_array 8 v

abbrev pub DevAddr : Type 0
DevAddr = Bytes

unfoldable pub marshal_dev_addr : DevAddr → Result Bytes
marshal_dev_addr a = ok (reversed a)

unfoldable pub unmarshal_dev_addr : Bytes → Result DevAddr
unmarshal_dev_addr bs = unmarshal_reversed 4 bs

unfoldable pub marshal_text_dev_addr : DevAddr → Result Bytes
marshal_text_dev_addr a = ok (encode_to_string a)

unfoldable pub unmarshal_text_dev_addr : Bytes → Result DevAddr
unmarshal_text_dev_addr text = unmarshal_text_array 4 text

unfoldable pub value_dev_addr : DevAddr → SqlValue
value_dev_addr a = sql_bytes a

unfoldable pub scan_dev_addr : SqlValue → Result DevAddr
scan_dev_addr v = scan_array 4 v

abbrev pub NetId : Type 0
NetId = Bytes

unfoldable pub marshal_net_id : NetId → Result Bytes
marshal_net_id n = ok (reversed n)

unfoldable pub unmarshal_net_id : Bytes → Result NetId
unmarshal_net_id bs = unmarshal_reversed 3 bs

unfoldable pub marshal_text_net_id : NetId → Result Bytes
marshal_text_net_id n = ok (encode_to_string n)

unfoldable pub unmarshal_text_net_id : Bytes → Result NetId
unmarshal_text_net_id text = unmarshal_text_array 3 text

unfoldable pub value_net_id : NetId → SqlValue
value_net_id n = sql_bytes n

unfoldable pub scan_net_id : SqlValue → Result NetId
scan_net_id v = scan_array 3 v

abbrev pub Aes128Key : Type 0
Aes128Key = Bytes

unfoldable pub marshal_aes128_key : Aes128Key → Result Bytes
marshal_aes128_key k = ok (reversed k)

unfoldable pub unmarshal_aes128_key : Bytes → Result Aes128Key
unmarshal_aes128_key bs = unmarshal_reversed 16 bs

unfoldable pub marshal_text_aes128_key : Aes128Key → Result Bytes
marshal_text_aes128_key k = ok (encode_to_string k)

unfoldable pub unmarshal_text_aes128_key : Bytes → Result Aes128Key
unmarshal_text_aes128_key text = unmarshal_text_array 16 text

unfoldable pub value_aes128_key : Aes128Key → SqlValue
value_aes128_key k = sql_bytes k

unfoldable pub scan_aes128_key : SqlValue → Result Aes128Key
scan_aes128_key v = scan_array 16 v

unfoldable pub marshal_dev_nonce : ℕ → Result Bytes
marshal_dev_nonce n = ok (put_uint16 n)

unfoldable pub unmarshal_dev_nonce : Bytes → Result ℕ
unmarshal_dev_nonce bs = if not (length bs == 2) then err (bytes_expected 2) else ok (uint16 bs)

unfoldable pub marshal_join_nonce : ℕ → Result Bytes
marshal_join_nonce n = do
  fail_if (leb (2 ^ 24) n) (max_value "JoinNonce" 16777215)
  ok (take 3 (put_uint32 n))

unfoldable pub unmarshal_join_nonce : Bytes → Result ℕ
unmarshal_join_nonce bs =
    if not (length bs == 3) then err (bytes_expected 3) else ok (uint32 (bs ++ (0 ∷ [])))
