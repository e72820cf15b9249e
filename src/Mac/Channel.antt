-- ===== src/Mac/Channel.antt =====
-- Channel payloads of mac_commands.go.
pub mod RoundTrip
use lorawan.Prelude.{
  ℕ, ◌*◌, ◌/◌, ◌%◌, ◌^◌, Bool, [], ◌∷◌, ◌++◌, Result, ok, err, ◌>>◌, fail_if, ltb, leb, ◌==◌,
  if◌then◌else◌, not, bit_and, bit_xor, bytes_expected, max_value, multiple_of, take,
}
use lorawan.Prelude.Bits.{shl, shr}
use lorawan.Prelude.Bytes.{Bytes, put_uint32, uint32}

pub record NewChannelReqPayload : Type 0 where
  pub ch_index : ℕ
  pub freq : ℕ
  pub max_dr : ℕ
  pub min_dr : ℕ

-- The fifth byte, which `PutUint32` has written to, is taken by the data rates.
unfoldable pub marshal_new_channel_req : NewChannelReqPayload → Result Bytes
marshal_new_channel_req p = do
  fail_if (leb 16777216 (p.freq / 100)) (max_value "Freq" 16777215)
  fail_if (not (p.freq % 100 == 0)) (multiple_of "Freq" 100)
  fail_if (ltb 15 p.max_dr) (max_value "MaxDR" 15)
  fail_if (ltb 15 p.min_dr) (max_value "MinDR" 15)
  ok (
      (p.ch_index ∷ [])
      ++ (take 3 (put_uint32 (p.freq / 100)) ++ (bit_xor p.min_dr (shl 8 p.max_dr 4) ∷ [])))

unfoldable pub unmarshal_new_channel_req : Bytes → Result NewChannelReqPayload
unmarshal_new_channel_req (b0 ∷ b1 ∷ b2 ∷ b3 ∷ b4 ∷ []) = ok (record {
  ch_index = b0;
  min_dr = bit_and b4 0x0f;
  max_dr = shr (bit_and b4 0xf0) 4;
  freq = uint32 (b1 ∷ b2 ∷ b3 ∷ 0 ∷ []) * 100 % 2 ^ 32;
})
unmarshal_new_channel_req _ = err (bytes_expected 5)

pub record NewChannelAnsPayload : Type 0 where
  pub channel_frequency_ok : Bool
  pub data_rate_range_ok : Bool

unfoldable pub marshal_new_channel_ans : NewChannelAnsPayload → Result Bytes
marshal_new_channel_ans p =
    let b0 : ℕ = if p.channel_frequency_ok then 1 else 0 in
    let b1 = if p.data_rate_range_ok then bit_xor b0 2 else b0 in ok (b1 ∷ [])

unfoldable pub unmarshal_new_channel_ans : Bytes → Result NewChannelAnsPayload
unmarshal_new_channel_ans (b ∷ []) = ok (record {
  channel_frequency_ok = ltb 0 (bit_and b 1);
  data_rate_range_ok = ltb 0 (bit_and b 2);
})
unmarshal_new_channel_ans _ = err (bytes_expected 1)

pub record DlChannelReqPayload : Type 0 where
  pub ch_index : ℕ
  pub freq : ℕ

unfoldable pub marshal_dl_channel_req : DlChannelReqPayload → Result Bytes
marshal_dl_channel_req p = do
  fail_if (leb 16777216 (p.freq / 100)) (max_value "Freq" 16777215)
  fail_if (not (p.freq % 100 == 0)) (multiple_of "Freq" 100)
  ok ((p.ch_index ∷ []) ++ take 3 (put_uint32 (p.freq / 100)))

unfoldable pub unmarshal_dl_channel_req : Bytes → Result DlChannelReqPayload
unmarshal_dl_channel_req (b0 ∷ b1 ∷ b2 ∷ b3 ∷ []) =
    ok (record { ch_index = b0; freq = uint32 (b1 ∷ b2 ∷ b3 ∷ 0 ∷ []) * 100 % 2 ^ 32 })
unmarshal_dl_channel_req _ = err (bytes_expected 4)

pub record DlChannelAnsPayload : Type 0 where
  pub uplink_frequency_exists : Bool
  pub channel_frequency_ok : Bool

unfoldable pub marshal_dl_channel_ans : DlChannelAnsPayload → Result Bytes
marshal_dl_channel_ans p =
    let b0 : ℕ = if p.channel_frequency_ok then bit_xor 0 1 else 0 in
    let b1 = if p.uplink_frequency_exists then bit_xor b0 2 else b0 in ok (b1 ∷ [])

unfoldable pub unmarshal_dl_channel_ans : Bytes → Result DlChannelAnsPayload
unmarshal_dl_channel_ans (b ∷ []) = ok (record {
  channel_frequency_ok = ltb 0 (bit_and b 1);
  uplink_frequency_exists = ltb 0 (bit_and b 2);
})
unmarshal_dl_channel_ans _ = err (bytes_expected 1)
