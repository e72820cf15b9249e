-- ===== src/Mac/Settings.antt =====
-- Payloads of mac_commands.go that set the duty cycle, the receive windows and the transmit
-- parameters.
pub mod RoundTrip
use lorawan.Prelude.{
  ℕ, ◌*◌, ◌/◌, ◌%◌, ◌^◌, Bool, true, false, [], ◌∷◌, ◌++◌, Result, ok, err, ◌>>=◌, ◌>>◌, fail_if,
  ltb, leb, ◌==◌, if◌then◌else◌, not, ◌&&◌, bit_and, bit_or, bit_xor, bytes_expected, max_value,
  multiple_of, take,
}
use lorawan.Prelude.Bits.{shl, shr}
use lorawan.Prelude.Bytes.{Bytes, put_uint32, uint32}

pub record DutyCycleReqPayload : Type 0 where
  pub max_d_cycle : ℕ

unfoldable pub marshal_duty_cycle_req : DutyCycleReqPayload → Result Bytes
marshal_duty_cycle_req p = do
  fail_if (ltb 15 p.max_d_cycle && ltb p.max_d_cycle 255) (max_value "MaxDCycle" 15)
  ok (p.max_d_cycle ∷ [])

unfoldable pub unmarshal_duty_cycle_req : Bytes → Result DutyCycleReqPayload
unmarshal_duty_cycle_req (b ∷ []) = ok (record { max_d_cycle = b })
unmarshal_duty_cycle_req _ = err (bytes_expected 1)

pub record DlSettings : Type 0 where
  pub opt_neg : Bool
  pub rx2_data_rate : ℕ
  pub rx1_dr_offset : ℕ

unfoldable pub marshal_dl_settings : DlSettings → Result Bytes
marshal_dl_settings s = do
  fail_if (ltb 15 s.rx2_data_rate) (max_value "RX2DataRate" 15)
  fail_if (ltb 7 s.rx1_dr_offset) (max_value "RX1DROffset" 7)
  let b = bit_or s.rx2_data_rate (shl 8 s.rx1_dr_offset 4)
  ok ((if s.opt_neg then bit_or b 0x80 else b) ∷ [])

unfoldable pub unmarshal_dl_settings : Bytes → Result DlSettings
unmarshal_dl_settings (b ∷ []) = ok (record {
  opt_neg = not (bit_and b 0x80 == 0);
  rx2_data_rate = bit_and b 0x0f;
  rx1_dr_offset = shr (bit_and b 0x70) 4;
})
unmarshal_dl_settings _ = err (bytes_expected 1)

pub record RxParamSetupReqPayload : Type 0 where
  pub frequency : ℕ
  pub dl_settings : DlSettings

-- The settings are one byte, which is stored in front of the frequency.
unfoldable pub marshal_rx_param_setup_req : RxParamSetupReqPayload → Result Bytes
marshal_rx_param_setup_req p = do
  fail_if (leb 16777216 (p.frequency / 100)) (max_value "Frequency" 16777215)
  fail_if (not (p.frequency % 100 == 0)) (multiple_of "Frequency" 100)
  bytes ← marshal_dl_settings p.dl_settings
  ok (take 1 bytes ++ take 3 (put_uint32 (p.frequency / 100)))

unfoldable pub unmarshal_rx_param_setup_req : Bytes → Result RxParamSetupReqPayload
unmarshal_rx_param_setup_req (b0 ∷ b1 ∷ b2 ∷ b3 ∷ []) = do
  s ← unmarshal_dl_settings (b0 ∷ [])
  ok (record { dl_settings = s; frequency = uint32 (b1 ∷ b2 ∷ b3 ∷ 0 ∷ []) * 100 % 2 ^ 32 })
unmarshal_rx_param_setup_req _ = err (bytes_expected 4)

pub record RxParamSetupAnsPayload : Type 0 where
  pub channel_ack : Bool
  pub rx2_data_rate_ack : Bool
  pub rx1_dr_offset_ack : Bool

unfoldable pub marshal_rx_param_setup_ans : RxParamSetupAnsPayload → Result Bytes
marshal_rx_param_setup_ans p =
    let b0 : ℕ = if p.channel_ack then bit_xor 0 1 else 0 in
    let b1 = if p.rx2_data_rate_ack then bit_xor b0 2 else b0 in
    let b2 = if p.rx1_dr_offset_ack then bit_xor b1 4 else b1 in ok (b2 ∷ [])

unfoldable pub unmarshal_rx_param_setup_ans : Bytes → Result RxParamSetupAnsPayload
unmarshal_rx_param_setup_ans (b ∷ []) = ok (record {
  channel_ack = ltb 0 (bit_and b 1);
  rx2_data_rate_ack = ltb 0 (bit_and b 2);
  rx1_dr_offset_ack = ltb 0 (bit_and b 4);
})
unmarshal_rx_param_setup_ans _ = err (bytes_expected 1)

pub record RxTimingSetupReqPayload : Type 0 where
  pub delay : ℕ

unfoldable pub marshal_rx_timing_setup_req : RxTimingSetupReqPayload → Result Bytes
marshal_rx_timing_setup_req p = do
  fail_if (ltb 15 p.delay) (max_value "Delay" 15)
  ok (p.delay ∷ [])

unfoldable pub unmarshal_rx_timing_setup_req : Bytes → Result RxTimingSetupReqPayload
unmarshal_rx_timing_setup_req (b ∷ []) = ok (record { delay = b })
unmarshal_rx_timing_setup_req _ = err (bytes_expected 1)

pub data DwellTime : Type 0 where
  no_limit limit_400ms : DwellTime

abbrev pub is_400ms : DwellTime → Bool
is_400ms no_limit = false
is_400ms limit_400ms = true

pub record TxParamSetupReqPayload : Type 0 where
  pub downlink_dwell_time : DwellTime
  pub uplink_dwell_time : DwellTime
  pub max_eirp : ℕ

-- The zero value, into which a new payload is decoded.
abbrev pub zero_tx_param_setup_req : TxParamSetupReqPayload
zero_tx_param_setup_req = record {
  downlink_dwell_time = no_limit;
  uplink_dwell_time = no_limit;
  max_eirp = 0;
}

unfoldable pub marshal_tx_param_setup_req : TxParamSetupReqPayload → Result Bytes
marshal_tx_param_setup_req p = do
  fail_if (ltb 15 p.max_eirp) (max_value "MaxEIRP" 15)
  let b0 = p.max_eirp
  let b1 = if is_400ms p.uplink_dwell_time then bit_xor b0 0x10 else b0
  let b2 = if is_400ms p.downlink_dwell_time then bit_xor b1 0x20 else b1
  ok (b2 ∷ [])

-- A dwell time of the receiver is set to 400 ms, and never back.
unfoldable pub unmarshal_tx_param_setup_req :
    TxParamSetupReqPayload → Bytes → Result TxParamSetupReqPayload
unmarshal_tx_param_setup_req p (b ∷ []) = ok (record {
  uplink_dwell_time = if ltb 0 (bit_and b 0x10) then limit_400ms else p.uplink_dwell_time;
  downlink_dwell_time = if ltb 0 (bit_and b 0x20) then limit_400ms else p.downlink_dwell_time;
  max_eirp = bit_and b 15;
})
unmarshal_tx_param_setup_req p _ = err (bytes_expected 1)
