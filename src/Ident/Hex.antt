-- ===== src/Ident/Hex.antt =====
-- encoding/hex: `EncodeToString` and `DecodeString`. A string is the list of its bytes.
use lorawan.Prelude.{
  ℕ, Option, if◌then◌else◌, All, Result, leb, ltb, ok, ◌&&◌, ◌+◌, some, ◌-◌, ◌≡◌, none, ◌>>=◌, ◌*◌,
  ◌∷◌, [], err, ◌/◌, message, refl, ◌%◌, arith, ◌<◌,
}
use lorawan.Prelude.Bytes.{Bytes, IsByte}

abbrev hex_digit : ℕ → ℕ
hex_digit n = if ltb n 10 then b'0' + n else b'a' + (n - 10)

unfoldable pub encode_to_string : Bytes → Bytes
encode_to_string [] = []
encode_to_string (b ∷ bs) = hex_digit (b / 16) ∷ hex_digit (b % 16) ∷ encode_to_string bs

abbrev from_hex_char : ℕ → Option ℕ
from_hex_char c =
    if leb b'0' c && leb c b'9'
    then some (c - b'0')
    else if leb b'a' c && leb c b'f'
    then some (c - b'a' + 10)
    else if leb b'A' c && leb c b'F'
    then some (c - b'A' + 10)
    else none

abbrev join_digits : Option ℕ → Option ℕ → Result Bytes → Result Bytes
join_digits (some h) (some l) rest = rest >>= λ bs. ok ((h * 16 + l) ∷ bs)
join_digits _ _ rest = err (message "encoding/hex: invalid byte")

-- The last digit of a string of odd length: an invalid one is reported first.
abbrev odd_digit : Option ℕ → Result Bytes
odd_digit (some _) = err (message "encoding/hex: odd length hex string")
odd_digit none = err (message "encoding/hex: invalid byte")

unfoldable pub decode_string : Bytes → Result Bytes
decode_string [] = ok []
decode_string (c ∷ []) = odd_digit (from_hex_char c)
decode_string (c ∷ d ∷ cs) = join_digits (from_hex_char c) (from_hex_char d) (decode_string cs)

from_hex-hex_digit : (n : ℕ) → n < 16 → from_hex_char (hex_digit n) ≡ some n
from_hex-hex_digit n h = ground arith

pub decode-encode : (bs : Bytes) → All IsByte bs → decode_string (encode_to_string bs) ≡ ok bs
unfolding decode_string encode_to_string
decode-encode [] h = refl
decode-encode (b ∷ bs) h = ground (
  arith,
  from_hex-hex_digit (b / 16) (omega arith),
  from_hex-hex_digit (b % 16) (omega arith),
  decode-encode bs h.1,
)
