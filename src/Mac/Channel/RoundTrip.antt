-- ===== src/Mac/Channel/RoundTrip.antt =====
-- Channel payloads of mac_commands.go, written and read back.
use lorawan.Prelude.{◌*◌, ◌∷◌, ◌≤◌, [], ◌+◌, ◌++◌, take, if◌then◌else◌, ◌/◌, arith, refl}
use lorawan.Mac.Channel.{
  DlChannelReqPayload, NewChannelReqPayload, marshal_dl_channel_ans, marshal_dl_channel_req,
  marshal_new_channel_ans, marshal_new_channel_req, unmarshal_dl_channel_ans,
  unmarshal_dl_channel_req, unmarshal_new_channel_ans, unmarshal_new_channel_req,
  DlChannelAnsPayload, NewChannelAnsPayload,
}
use lorawan.Prelude.Bytes.{IsByte, RoundTrips, put_uint32}
use lorawan.Mac.Settings.RoundTrip.{FrequencyInRange}
use lorawan.Prelude.Bits.Fields.{xor_pack, low_nibble, high_nibble}

abbrev pub NewChannelReqInRange : NewChannelReqPayload → Type 0
NewChannelReqInRange p =
    IsByte p.ch_index × FrequencyInRange p.freq × (p.max_dr ≤ 15) × (p.min_dr ≤ 15)

pub new_channel_req_lem :
    (p : NewChannelReqPayload)
    → NewChannelReqInRange p
    → RoundTrips marshal_new_channel_req unmarshal_new_channel_req 5 p
unfolding marshal_new_channel_req unmarshal_new_channel_req
new_channel_req_lem p h =
    let b = p.max_dr * 16 + p.min_dr in
    (
      (p.ch_index ∷ []) ++ (take 3 (put_uint32 (p.freq / 100)) ++ (b ∷ [])),
      ground (arith, xor_pack 4 p.min_dr p.max_dr),
      refl,
      omega arith,
      ground (arith, low_nibble b, high_nibble b),
    )

pub new_channel_ans_lem :
    (p : NewChannelAnsPayload) → RoundTrips marshal_new_channel_ans unmarshal_new_channel_ans 1 p
unfolding marshal_new_channel_ans unmarshal_new_channel_ans
new_channel_ans_lem p = (
  ((if p.channel_frequency_ok then 1 else 0) + (if p.data_rate_range_ok then 2 else 0)) ∷ [],
  ground arith,
  refl,
  ground arith,
  ground arith,
)

abbrev pub DlChannelReqInRange : DlChannelReqPayload → Type 0
DlChannelReqInRange p = IsByte p.ch_index × FrequencyInRange p.freq

pub dl_channel_req_lem :
    (p : DlChannelReqPayload)
    → DlChannelReqInRange p
    → RoundTrips marshal_dl_channel_req unmarshal_dl_channel_req 4 p
unfolding marshal_dl_channel_req unmarshal_dl_channel_req
dl_channel_req_lem p h = (
  (p.ch_index ∷ []) ++ take 3 (put_uint32 (p.freq / 100)),
  ground arith,
  refl,
  omega arith,
  ground arith,
)

pub dl_channel_ans_lem :
    (p : DlChannelAnsPayload) → RoundTrips marshal_dl_channel_ans unmarshal_dl_channel_ans 1 p
unfolding marshal_dl_channel_ans unmarshal_dl_channel_ans
dl_channel_ans_lem p = (
  ((if p.channel_frequency_ok then 1 else 0) + (if p.uplink_frequency_exists then 2 else 0)) ∷ [],
  ground arith,
  refl,
  ground arith,
  ground arith,
)
