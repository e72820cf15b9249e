-- ===== src/Mac/Session.antt =====
-- Payloads of mac_commands.go that negotiate a session: versions, ADR limits, rejoins and the
-- device mode.
pub mod RoundTrip
use lorawan.Prelude.{
  ℕ, Bool, [], ◌∷◌, Result, ok, err, ◌>>◌, fail_if, ltb, ◌==◌, if◌then◌else◌, not, ◌&&◌, bit_and,
  bit_or, bytes_expected, max_value, message,
}
use lorawan.Prelude.Bits.{shl, shr}
use lorawan.Prelude.Bytes.{Bytes}

pub record Version : Type 0 where
  pub minor : ℕ

unfoldable pub marshal_version : Version → Result Bytes
marshal_version v = do fail_if (ltb 7 v.minor) (max_value "Minor" 7); ok (v.minor ∷ [])

unfoldable pub unmarshal_version : Bytes → Result Version
unmarshal_version (b ∷ []) = ok (record { minor = b })
unmarshal_version _ = err (bytes_expected 1)

pub record AdrParam : Type 0 where
  pub limit_exp : ℕ
  pub delay_exp : ℕ

unfoldable pub marshal_adr_param : AdrParam → Result Bytes
marshal_adr_param p = do
  fail_if (ltb 15 p.limit_exp) (max_value "LimitExp" 15)
  fail_if (ltb 15 p.delay_exp) (max_value "DelayExp" 15)
  ok (bit_or p.delay_exp (shl 8 p.limit_exp 4) ∷ [])

unfoldable pub unmarshal_adr_param : Bytes → Result AdrParam
unmarshal_adr_param (b ∷ []) = ok (record { delay_exp = bit_and b 0x0f; limit_exp = shr b 4 })
unmarshal_adr_param _ = err (bytes_expected 1)

pub record ForceRejoinReqPayload : Type 0 where
  pub period : ℕ
  pub max_retries : ℕ
  pub rejoin_type : ℕ
  pub dr : ℕ

unfoldable pub marshal_force_rejoin_req : ForceRejoinReqPayload → Result Bytes
marshal_force_rejoin_req p = do
  fail_if (ltb 7 p.period) (max_value "Period" 7)
  fail_if (ltb 7 p.max_retries) (max_value "MaxRetries" 7)
  fail_if (not (p.rejoin_type == 0) && not (p.rejoin_type == 2))
      (message "RejoinType must be 0 or 2")
  fail_if (ltb 15 p.dr) (max_value "DR" 15)
  ok (bit_or p.dr (shl 8 p.rejoin_type 4) ∷ bit_or p.max_retries (shl 8 p.period 3) ∷ [])

unfoldable pub unmarshal_force_rejoin_req : Bytes → Result ForceRejoinReqPayload
unmarshal_force_rejoin_req (b0 ∷ b1 ∷ []) = ok (record {
  dr = bit_and b0 0x0f;
  rejoin_type = shr (bit_and b0 0x70) 4;
  max_retries = bit_and b1 0x07;
  period = shr (bit_and b1 0x38) 3;
})
unmarshal_force_rejoin_req _ = err (bytes_expected 2)

pub record RejoinParamSetupReqPayload : Type 0 where
  pub max_time_n : ℕ
  pub max_count_n : ℕ

unfoldable pub marshal_rejoin_param_setup_req : RejoinParamSetupReqPayload → Result Bytes
marshal_rejoin_param_setup_req p = do
  fail_if (ltb 15 p.max_time_n) (max_value "MaxTimeN" 15)
  fail_if (ltb 15 p.max_count_n) (max_value "MaxCountN" 15)
  ok (bit_or p.max_count_n (shl 8 p.max_time_n 4) ∷ [])

unfoldable pub unmarshal_rejoin_param_setup_req : Bytes → Result RejoinParamSetupReqPayload
unmarshal_rejoin_param_setup_req (b ∷ []) =
    ok (record { max_count_n = bit_and b 0x0f; max_time_n = shr (bit_and b 0xf0) 4 })
unmarshal_rejoin_param_setup_req _ = err (bytes_expected 1)

pub record RejoinParamSetupAnsPayload : Type 0 where
  pub time_ok : Bool

unfoldable pub marshal_rejoin_param_setup_ans : RejoinParamSetupAnsPayload → Result Bytes
marshal_rejoin_param_setup_ans p = ok ((if p.time_ok then 1 else 0) ∷ [])

unfoldable pub unmarshal_rejoin_param_setup_ans : Bytes → Result RejoinParamSetupAnsPayload
unmarshal_rejoin_param_setup_ans (b ∷ []) = ok (record { time_ok = not (bit_and b 1 == 0) })
unmarshal_rejoin_param_setup_ans _ = err (bytes_expected 1)

-- `type DeviceModeClass byte`, for both the indication and the confirmation
pub record DeviceModePayload : Type 0 where
  pub class : ℕ

unfoldable pub marshal_device_mode : DeviceModePayload → Result Bytes
marshal_device_mode p = ok (p.class ∷ [])

unfoldable pub unmarshal_device_mode : Bytes → Result DeviceModePayload
unmarshal_device_mode (b ∷ []) = ok (record { class = b })
unmarshal_device_mode _ = err (bytes_expected 1)
