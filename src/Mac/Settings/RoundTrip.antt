-- ===== src/Mac/Settings/RoundTrip.antt =====
-- Duty cycle, receive window and transmit parameter payloads of mac_commands.go, written and read
-- back.
use lorawan.Prelude.{
  ℕ, ◌/◌, ◌<◌, ◌≤◌, ◌^◌, ◌⊎◌, ◌%◌, ◌*◌, ◌++◌, ◌∷◌, ◌≡◌, [], take, ◌+◌, arith, if◌then◌else◌, refl,
}
use lorawan.Mac.Settings.{
  DlSettings, DutyCycleReqPayload, RxParamSetupReqPayload, RxTimingSetupReqPayload,
  TxParamSetupReqPayload, marshal_dl_settings, marshal_duty_cycle_req, marshal_rx_param_setup_ans,
  marshal_rx_param_setup_req, marshal_rx_timing_setup_req, marshal_tx_param_setup_req,
  unmarshal_dl_settings, unmarshal_duty_cycle_req, unmarshal_rx_param_setup_ans,
  unmarshal_rx_param_setup_req, unmarshal_rx_timing_setup_req, unmarshal_tx_param_setup_req,
  RxParamSetupAnsPayload, zero_tx_param_setup_req, is_400ms,
}
use lorawan.Prelude.Bytes.{RoundTrips, put_uint32}
use lorawan.Prelude.Bits.Fields.{or_pack, low_nibble, bit_flag, high_three}
use lorawan.Prelude.Bits.{bit_or_fields_low, bit_xor_fields, bit_xor_comm}

-- A byte of 0 to 15, or 255, which turns the device off.
abbrev pub DutyCycleReqInRange : DutyCycleReqPayload → Type 0
DutyCycleReqInRange p = (p.max_d_cycle ≤ 15) ⊎ (p.max_d_cycle ≡ 255)

pub duty_cycle_req_lem :
    (p : DutyCycleReqPayload)
    → DutyCycleReqInRange p
    → RoundTrips marshal_duty_cycle_req unmarshal_duty_cycle_req 1 p
unfolding marshal_duty_cycle_req unmarshal_duty_cycle_req
duty_cycle_req_lem p h = (p.max_d_cycle ∷ [], ground arith, refl, ground arith, refl)

abbrev pub DlSettingsInRange : DlSettings → Type 0
DlSettingsInRange s = (s.rx2_data_rate ≤ 15) × (s.rx1_dr_offset ≤ 7)

pub dl_settings_lem :
    (s : DlSettings)
    → DlSettingsInRange s
    → RoundTrips marshal_dl_settings unmarshal_dl_settings 1 s
unfolding marshal_dl_settings unmarshal_dl_settings
dl_settings_lem s h =
    let low = s.rx1_dr_offset * 16 + s.rx2_data_rate in
    let b = (if s.opt_neg then 128 else 0) + low in
    (
      b ∷ [],
      ground (arith, or_pack 4 s.rx2_data_rate s.rx1_dr_offset, bit_or_fields_low 7 1 low),
      refl,
      ground arith,
      ground (arith, low_nibble b, high_three b, bit_flag 7 b),
    )

-- A multiple of 100 Hz that fits 24 bits.
abbrev pub FrequencyInRange : ℕ → Type 0
FrequencyInRange f = (f / 100 < 2 ^ 24) × (f % 100 ≡ 0)

abbrev pub RxParamSetupReqInRange : RxParamSetupReqPayload → Type 0
RxParamSetupReqInRange p = FrequencyInRange p.frequency × DlSettingsInRange p.dl_settings

pub rx_param_setup_req_lem :
    (p : RxParamSetupReqPayload)
    → RxParamSetupReqInRange p
    → RoundTrips marshal_rx_param_setup_req unmarshal_rx_param_setup_req 4 p
unfolding marshal_rx_param_setup_req unmarshal_rx_param_setup_req dl_settings_lem
rx_param_setup_req_lem p h =
    let (s, s_eq, s_len, s_bytes, s_back) = dl_settings_lem p.dl_settings h.1 in
    (
      s ++ take 3 (put_uint32 (p.frequency / 100)),
      ground (arith, s_eq),
      refl,
      ground (arith, s_bytes),
      ground (arith, s_back),
    )

pub rx_param_setup_ans_lem :
    (p : RxParamSetupAnsPayload)
    → RoundTrips marshal_rx_param_setup_ans unmarshal_rx_param_setup_ans 1 p
unfolding marshal_rx_param_setup_ans unmarshal_rx_param_setup_ans
rx_param_setup_ans_lem p = (
  ((if p.channel_ack then 1 else 0)
        + (if p.rx2_data_rate_ack then 2 else 0)
        + (if p.rx1_dr_offset_ack then 4 else 0))
      ∷ [],
  ground arith,
  refl,
  ground arith,
  ground arith,
)

abbrev pub RxTimingSetupReqInRange : RxTimingSetupReqPayload → Type 0
RxTimingSetupReqInRange p = p.delay ≤ 15

pub rx_timing_setup_req_lem :
    (p : RxTimingSetupReqPayload)
    → RxTimingSetupReqInRange p
    → RoundTrips marshal_rx_timing_setup_req unmarshal_rx_timing_setup_req 1 p
unfolding marshal_rx_timing_setup_req unmarshal_rx_timing_setup_req
rx_timing_setup_req_lem p h = (p.delay ∷ [], ground arith, refl, omega arith, refl)

abbrev pub TxParamSetupReqInRange : TxParamSetupReqPayload → Type 0
TxParamSetupReqInRange p = p.max_eirp ≤ 15

pub tx_param_setup_req_lem :
    (p : TxParamSetupReqPayload)
    → TxParamSetupReqInRange p
    → RoundTrips marshal_tx_param_setup_req
        (unmarshal_tx_param_setup_req zero_tx_param_setup_req)
        1
        p
unfolding marshal_tx_param_setup_req unmarshal_tx_param_setup_req
tx_param_setup_req_lem p h =
    let up : ℕ = if is_400ms p.uplink_dwell_time then 16 else 0 in
    let b = (if is_400ms p.downlink_dwell_time then 32 else 0) + up + p.max_eirp in
    (
      b ∷ [],
      ground (
        arith,
        bit_xor_fields 4 1 p.max_eirp,
        bit_xor_comm p.max_eirp 16,
        bit_xor_fields 5 1 (up + p.max_eirp),
        bit_xor_comm (up + p.max_eirp) 32,
      ),
      refl,
      ground arith,
      ground (arith, low_nibble b, bit_flag 4 b, bit_flag 5 b),
    )
