-- ===== src/Mac/Link.antt =====
-- Link check and link ADR payloads of mac_commands.go.
pub mod RoundTrip
use lorawan.Prelude.{
  ℕ, ◌+◌, Bool, true, false, List, [], ◌∷◌, ◌++◌, Result, ok, err, ◌>>=◌, ◌>>◌, fail_if, ltb, ◌==◌,
  if◌then◌else◌, not, bit_and, bit_or, bit_xor, replicate, bytes_expected, max_value,
}
use lorawan.Prelude.Bits.{shl, shr}
use lorawan.Prelude.Bytes.{Bytes, put_uint16, uint16}

pub record LinkCheckAnsPayload : Type 0 where
  pub margin : ℕ
  pub gw_cnt : ℕ

unfoldable pub marshal_link_check_ans : LinkCheckAnsPayload → Result Bytes
marshal_link_check_ans p = ok (p.margin ∷ p.gw_cnt ∷ [])

unfoldable pub unmarshal_link_check_ans : Bytes → Result LinkCheckAnsPayload
unmarshal_link_check_ans (b0 ∷ b1 ∷ []) = ok (record { margin = b0; gw_cnt = b1 })
unmarshal_link_check_ans _ = err (bytes_expected 2)

-- `[16]bool`
abbrev pub ChMask : Type 0
ChMask = List Bool

abbrev pub ch_mask_nil : ChMask
ch_mask_nil = replicate 16 false

-- The loop over the channels from `i` on, with the mask `n` collected so far.
unfoldable pub ch_mask_bits : List Bool → ℕ → ℕ → ℕ
ch_mask_bits [] i n = n
ch_mask_bits (b ∷ bs) i n = ch_mask_bits bs (i + 1) (if b then bit_or n (shl 16 1 i) else n)

unfoldable pub marshal_ch_mask : ChMask → Result Bytes
marshal_ch_mask m = ok (put_uint16 (ch_mask_bits m 0 0))

-- The loop that sets channels of the receiver, and never clears one.
unfoldable pub set_ch_mask : ℕ → ℕ → List Bool → List Bool
set_ch_mask n i [] = []
set_ch_mask n i (b ∷ bs) =
    (if not (bit_and n (shl 16 1 i) == 0) then true else b) ∷ set_ch_mask n (i + 1) bs

unfoldable pub unmarshal_ch_mask : ChMask → Bytes → Result ChMask
unmarshal_ch_mask m (b0 ∷ b1 ∷ []) = ok (set_ch_mask (uint16 (b0 ∷ b1 ∷ [])) 0 m)
unmarshal_ch_mask m _ = err (bytes_expected 2)

pub record Redundancy : Type 0 where
  pub ch_mask_cntl : ℕ
  pub nb_rep : ℕ

unfoldable pub marshal_redundancy : Redundancy → Result Bytes
marshal_redundancy r = do
  fail_if (ltb 15 r.nb_rep) (max_value "NbRep" 15)
  fail_if (ltb 7 r.ch_mask_cntl) (max_value "ChMaskCntl" 7)
  ok (bit_xor r.nb_rep (shl 8 r.ch_mask_cntl 4) ∷ [])

unfoldable pub unmarshal_redundancy : Bytes → Result Redundancy
unmarshal_redundancy (b ∷ []) =
    ok (record { nb_rep = bit_and b 0x0f; ch_mask_cntl = shr (bit_and b 0x70) 4 })
unmarshal_redundancy _ = err (bytes_expected 1)

pub record LinkAdrReqPayload : Type 0 where
  pub data_rate : ℕ
  pub tx_power : ℕ
  pub ch_mask : ChMask
  pub redundancy : Redundancy

-- The zero value, into which a new payload is decoded.
abbrev pub zero_link_adr_req : LinkAdrReqPayload
zero_link_adr_req = record {
  data_rate = 0;
  tx_power = 0;
  ch_mask = ch_mask_nil;
  redundancy = record { ch_mask_cntl = 0; nb_rep = 0 };
}

unfoldable pub marshal_link_adr_req : LinkAdrReqPayload → Result Bytes
marshal_link_adr_req p = do
  fail_if (ltb 15 p.data_rate) (max_value "DataRate" 15)
  fail_if (ltb 15 p.tx_power) (max_value "TXPower" 15)
  cm ← marshal_ch_mask p.ch_mask
  r ← marshal_redundancy p.redundancy
  ok ((bit_xor p.tx_power (shl 8 p.data_rate 4) ∷ []) ++ (cm ++ r))

unfoldable pub unmarshal_link_adr_req : LinkAdrReqPayload → Bytes → Result LinkAdrReqPayload
unmarshal_link_adr_req p (b0 ∷ b1 ∷ b2 ∷ b3 ∷ []) = do
  cm ← unmarshal_ch_mask p.ch_mask (b1 ∷ b2 ∷ [])
  r ← unmarshal_redundancy (b3 ∷ [])
  ok (record {
    data_rate = shr (bit_and b0 0xf0) 4;
    tx_power = bit_and b0 0x0f;
    ch_mask = cm;
    redundancy = r;
  })
unmarshal_link_adr_req p _ = err (bytes_expected 4)

pub record LinkAdrAnsPayload : Type 0 where
  pub channel_mask_ack : Bool
  pub data_rate_ack : Bool
  pub power_ack : Bool

abbrev pub zero_link_adr_ans : LinkAdrAnsPayload
zero_link_adr_ans = record { channel_mask_ack = false; data_rate_ack = false; power_ack = false }

unfoldable pub marshal_link_adr_ans : LinkAdrAnsPayload → Result Bytes
marshal_link_adr_ans p =
    let b0 : ℕ = if p.channel_mask_ack then bit_xor 0 1 else 0 in
    let b1 = if p.data_rate_ack then bit_xor b0 2 else b0 in
    let b2 = if p.power_ack then bit_xor b1 4 else b1 in ok (b2 ∷ [])

-- Like the channel mask, this sets fields of the receiver and clears none.
unfoldable pub unmarshal_link_adr_ans : LinkAdrAnsPayload → Bytes → Result LinkAdrAnsPayload
unmarshal_link_adr_ans p (b ∷ []) = ok (record {
  channel_mask_ack = if ltb 0 (bit_and b 1) then true else p.channel_mask_ack;
  data_rate_ack = if ltb 0 (bit_and b 2) then true else p.data_rate_ack;
  power_ack = if ltb 0 (bit_and b 4) then true else p.power_ack;
})
unmarshal_link_adr_ans p _ = err (bytes_expected 1)
