-- ===== src/Mac/ClassB.antt =====
-- Class-B payloads of mac_commands.go: ping slots and the beacon.
pub mod RoundTrip
use lorawan.Prelude.{
  ℕ, ◌*◌, ◌/◌, ◌%◌, ◌^◌, Bool, [], ◌∷◌, ◌++◌, Result, ok, err, ◌>>◌, fail_if, ltb, leb, ◌==◌,
  if◌then◌else◌, not, bit_and, bit_or, bytes_expected, max_value, multiple_of, take,
}
use lorawan.Prelude.Bytes.{Bytes, put_uint32, uint32}

pub record PingSlotInfoReqPayload : Type 0 where
  pub periodicity : ℕ

unfoldable pub marshal_ping_slot_info_req : PingSlotInfoReqPayload → Result Bytes
marshal_ping_slot_info_req p = do
  fail_if (ltb 7 p.periodicity) (max_value "Periodicity" 7)
  ok (p.periodicity ∷ [])

unfoldable pub unmarshal_ping_slot_info_req : Bytes → Result PingSlotInfoReqPayload
unmarshal_ping_slot_info_req (b ∷ []) = ok (record { periodicity = bit_and b 7 })
unmarshal_ping_slot_info_req _ = err (bytes_expected 1)

pub record BeaconFreqReqPayload : Type 0 where
  pub frequency : ℕ

unfoldable pub marshal_beacon_freq_req : BeaconFreqReqPayload → Result Bytes
marshal_beacon_freq_req p = do
  fail_if (leb 16777216 (p.frequency / 100)) (max_value "Frequency" 16777215)
  fail_if (not (p.frequency % 100 == 0)) (multiple_of "Frequency" 100)
  ok (take 3 (put_uint32 (p.frequency / 100)))

unfoldable pub unmarshal_beacon_freq_req : Bytes → Result BeaconFreqReqPayload
unmarshal_beacon_freq_req (b0 ∷ b1 ∷ b2 ∷ []) =
    ok (record { frequency = uint32 (b0 ∷ b1 ∷ b2 ∷ 0 ∷ []) * 100 % 2 ^ 32 })
unmarshal_beacon_freq_req _ = err (bytes_expected 3)

pub record BeaconFreqAnsPayload : Type 0 where
  pub beacon_frequency_ok : Bool

unfoldable pub marshal_beacon_freq_ans : BeaconFreqAnsPayload → Result Bytes
marshal_beacon_freq_ans p = ok ((if p.beacon_frequency_ok then 1 else 0) ∷ [])

unfoldable pub unmarshal_beacon_freq_ans : Bytes → Result BeaconFreqAnsPayload
unmarshal_beacon_freq_ans (b ∷ []) = ok (record { beacon_frequency_ok = not (bit_and b 1 == 0) })
unmarshal_beacon_freq_ans _ = err (bytes_expected 1)

pub record PingSlotChannelReqPayload : Type 0 where
  pub frequency : ℕ
  pub dr : ℕ

-- The fourth byte that `PutUint32` has written is replaced by the data rate.
unfoldable pub marshal_ping_slot_channel_req : PingSlotChannelReqPayload → Result Bytes
marshal_ping_slot_channel_req p = do
  fail_if (leb 16777216 (p.frequency / 100)) (max_value "Frequency" 16777215)
  fail_if (not (p.frequency % 100 == 0)) (multiple_of "Frequency" 100)
  fail_if (leb 16 p.dr) (max_value "DR" 15)
  ok (take 3 (put_uint32 (p.frequency / 100)) ++ (p.dr ∷ []))

unfoldable pub unmarshal_ping_slot_channel_req : Bytes → Result PingSlotChannelReqPayload
unmarshal_ping_slot_channel_req (b0 ∷ b1 ∷ b2 ∷ b3 ∷ []) =
    ok (record { frequency = uint32 (b0 ∷ b1 ∷ b2 ∷ 0 ∷ []) * 100 % 2 ^ 32; dr = bit_and b3 0x0f })
unmarshal_ping_slot_channel_req _ = err (bytes_expected 4)

pub record PingSlotChannelAnsPayload : Type 0 where
  pub data_rate_ok : Bool
  pub channel_frequency_ok : Bool

unfoldable pub marshal_ping_slot_channel_ans : PingSlotChannelAnsPayload → Result Bytes
marshal_ping_slot_channel_ans p =
    let b0 : ℕ = if p.channel_frequency_ok then 1 else 0 in
    let b1 = if p.data_rate_ok then bit_or b0 2 else b0 in ok (b1 ∷ [])

unfoldable pub unmarshal_ping_slot_channel_ans : Bytes → Result PingSlotChannelAnsPayload
unmarshal_ping_slot_channel_ans (b ∷ []) = ok (record {
  channel_frequency_ok = not (bit_and b 1 == 0);
  data_rate_ok = not (bit_and b 2 == 0);
})
unmarshal_ping_slot_channel_ans _ = err (bytes_expected 1)
