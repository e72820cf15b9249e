-- ===== src/Mac/ClassB/RoundTrip.antt =====
-- Ping slot and beacon payloads of mac_commands.go, written and read back.
use lorawan.Prelude.{◌≤◌, ◌<◌, take, ◌∷◌, [], arith, ◌/◌, ◌++◌, if◌then◌else◌, refl, ◌+◌}
use lorawan.Mac.ClassB.{
  BeaconFreqReqPayload, PingSlotChannelReqPayload, PingSlotInfoReqPayload, marshal_beacon_freq_ans,
  marshal_beacon_freq_req, marshal_ping_slot_channel_ans, marshal_ping_slot_channel_req,
  marshal_ping_slot_info_req, unmarshal_beacon_freq_ans, unmarshal_beacon_freq_req,
  unmarshal_ping_slot_channel_ans, unmarshal_ping_slot_channel_req, unmarshal_ping_slot_info_req,
  BeaconFreqAnsPayload, PingSlotChannelAnsPayload,
}
use lorawan.Mac.Settings.RoundTrip.{FrequencyInRange}
use lorawan.Prelude.Bytes.{RoundTrips, put_uint32}
use lorawan.Prelude.Bits.{bit_and_mask}
use lorawan.Prelude.Bits.Fields.{low_nibble}

abbrev pub PingSlotInfoReqInRange : PingSlotInfoReqPayload → Type 0
PingSlotInfoReqInRange p = p.periodicity ≤ 7

pub ping_slot_info_req_lem :
    (p : PingSlotInfoReqPayload)
    → PingSlotInfoReqInRange p
    → RoundTrips marshal_ping_slot_info_req unmarshal_ping_slot_info_req 1 p
unfolding marshal_ping_slot_info_req unmarshal_ping_slot_info_req
ping_slot_info_req_lem p h = (
  p.periodicity ∷ [],
  ground arith,
  refl,
  omega arith,
  ground (arith, bit_and_mask 3 p.periodicity),
)

abbrev pub BeaconFreqReqInRange : BeaconFreqReqPayload → Type 0
BeaconFreqReqInRange p = FrequencyInRange p.frequency

pub beacon_freq_req_lem :
    (p : BeaconFreqReqPayload)
    → BeaconFreqReqInRange p
    → RoundTrips marshal_beacon_freq_req unmarshal_beacon_freq_req 3 p
unfolding marshal_beacon_freq_req unmarshal_beacon_freq_req
beacon_freq_req_lem p h =
    (take 3 (put_uint32 (p.frequency / 100)), ground arith, refl, omega arith, ground arith)

pub beacon_freq_ans_lem :
    (p : BeaconFreqAnsPayload) → RoundTrips marshal_beacon_freq_ans unmarshal_beacon_freq_ans 1 p
unfolding marshal_beacon_freq_ans unmarshal_beacon_freq_ans
beacon_freq_ans_lem p =
    ((if p.beacon_frequency_ok then 1 else 0) ∷ [], refl, refl, ground arith, ground arith)

abbrev pub PingSlotChannelReqInRange : PingSlotChannelReqPayload → Type 0
PingSlotChannelReqInRange p = FrequencyInRange p.frequency × (p.dr < 16)

pub ping_slot_channel_req_lem :
    (p : PingSlotChannelReqPayload)
    → PingSlotChannelReqInRange p
    → RoundTrips marshal_ping_slot_channel_req unmarshal_ping_slot_channel_req 4 p
unfolding marshal_ping_slot_channel_req unmarshal_ping_slot_channel_req
ping_slot_channel_req_lem p h = (
  take 3 (put_uint32 (p.frequency / 100)) ++ (p.dr ∷ []),
  ground arith,
  refl,
  omega arith,
  ground (arith, low_nibble p.dr),
)

pub ping_slot_channel_ans_lem :
    (p : PingSlotChannelAnsPayload)
    → RoundTrips marshal_ping_slot_channel_ans unmarshal_ping_slot_channel_ans 1 p
unfolding marshal_ping_slot_channel_ans unmarshal_ping_slot_channel_ans
ping_slot_channel_ans_lem p = (
  ((if p.channel_frequency_ok then 1 else 0) + (if p.data_rate_ok then 2 else 0)) ∷ [],
  ground arith,
  refl,
  ground arith,
  ground arith,
)
