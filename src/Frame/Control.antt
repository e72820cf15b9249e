-- ===== src/Frame/Control.antt =====
-- FCtrl, the frame control byte of fhdr.go.
use lorawan.Prelude.{
  ℕ, Bool, [], ◌∷◌, ◌||◌, Result, if◌then◌else◌, not, ◌≤◌, bit_and, bit_or, ok, ◌*◌, ◌>>◌, ◌≡◌, err,
  fail_if, ◌+◌, ◌==◌, arith, bytes_expected, ltb, max_value,
}
use lorawan.Prelude.Bytes.{Bytes, IsByte}
use lorawan.Prelude.Bits.{bit_or_fields}
use lorawan.Prelude.Bits.Fields.{low_nibble, bit_flag}

pub record FCtrl : Type 0 where
  pub adr : Bool
  pub adr_ack_req : Bool
  pub ack : Bool
  pub f_pending : Bool
  pub class_b : Bool
  pub f_opts_len : ℕ

-- One `if flag { b |= mask }`
abbrev or_if : Bool → ℕ → ℕ → ℕ
or_if flag mask b = if flag then bit_or b mask else b

unfoldable pub marshal_f_ctrl : FCtrl → Result Bytes
marshal_f_ctrl c = do
  fail_if (ltb 15 c.f_opts_len) (max_value "FOptsLen" 15)
  let b1 = or_if c.adr 0x80 0
  let b2 = or_if c.adr_ack_req 0x40 b1
  let b3 = or_if c.ack 0x20 b2
  let b4 = or_if (c.class_b || c.f_pending) 0x10 b3
  ok (bit_or b4 (bit_and c.f_opts_len 0x0f) ∷ [])

-- `b&mask != 0`
abbrev has_bit : ℕ → ℕ → Bool
has_bit b mask = not (bit_and b mask == 0)

unfoldable pub unmarshal_f_ctrl : Bytes → Result FCtrl
unmarshal_f_ctrl (b ∷ []) = ok (record {
  adr = has_bit b 0x80;
  adr_ack_req = has_bit b 0x40;
  ack = has_bit b 0x20;
  f_pending = has_bit b 0x10;
  class_b = has_bit b 0x10;
  f_opts_len = bit_and b 0x0f;
})
unmarshal_f_ctrl _ = err (bytes_expected 1)

-- What the receiver sees: the two flags that share a bit are both set when one of them is.
abbrev pub received_ctrl : FCtrl → FCtrl
received_ctrl c = record c {
  f_pending = c.class_b || c.f_pending;
  class_b = c.class_b || c.f_pending;
}

abbrev pub bit : Bool → ℕ
bit b = if b then 1 else 0

pub f_ctrl_lem :
    (c : FCtrl)
    → c.f_opts_len ≤ 15
    → (b : ℕ) × (marshal_f_ctrl c ≡ ok (b ∷ []))
      × IsByte b
      × (unmarshal_f_ctrl (b ∷ []) ≡ ok (received_ctrl c))
unfolding marshal_f_ctrl unmarshal_f_ctrl
f_ctrl_lem c h =
    let shared = c.class_b || c.f_pending in
    let high = bit c.adr * 8 + bit c.adr_ack_req * 4 + bit c.ack * 2 + bit shared in
    let b = high * 16 + c.f_opts_len in
    (
      b,
      ground (arith, bit_or_fields 4 high c.f_opts_len, low_nibble c.f_opts_len),
      ground arith,
      ground (arith, low_nibble b, bit_flag 7 b, bit_flag 6 b, bit_flag 5 b, bit_flag 4 b),
    )
