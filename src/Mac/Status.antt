-- ===== src/Mac/Status.antt =====
-- Device status and device time payloads of mac_commands.go.
pub mod RoundTrip
use lorawan.Prelude.{
  ℕ, ◌+◌, ◌*◌, [], ◌∷◌, ◌++◌, Result, ok, err, ◌>>◌, fail_if, ltb, if◌then◌else◌, bytes_expected,
  max_value, min_value,
}
use lorawan.Prelude.Bytes.{Bytes, put_uint32, uint32}
use lorawan.Prelude.Int.{ℤ, pos, negsuc, ◌+ℤ◌, ◌-ℤ◌, ltb_ℤ, quot, to_uint, to_int, wrap_int}

pub record DevStatusAnsPayload : Type 0 where
  pub battery : ℕ
  pub margin : ℤ

unfoldable pub marshal_dev_status_ans : DevStatusAnsPayload → Result Bytes
unfolding ◌+ℤ◌
marshal_dev_status_ans p = do
  fail_if (ltb_ℤ p.margin (negsuc 31)) (min_value "Margin")
  fail_if (ltb_ℤ (pos 31) p.margin) (max_value "Margin" 31)
  let m = if ltb_ℤ p.margin (pos 0) then to_uint 8 (pos 64 +ℤ p.margin) else to_uint 8 p.margin
  ok (p.battery ∷ m ∷ [])

-- `int8(data[1]) - 64` is computed in an int8.
unfoldable pub unmarshal_dev_status_ans : Bytes → Result DevStatusAnsPayload
unfolding ◌-ℤ◌
unmarshal_dev_status_ans (b0 ∷ b1 ∷ []) = ok (record {
  battery = b0;
  margin = if ltb 31 b1 then wrap_int 8 (to_int 8 b1 -ℤ pos 64) else to_int 8 b1;
})
unmarshal_dev_status_ans _ = err (bytes_expected 2)

-- `time.Second` in nanoseconds, and a 256th of it
abbrev pub second : ℕ
second = 1000000000

abbrev pub fraction : ℕ
fraction = 3906250

-- A `time.Duration` is an int64 of nanoseconds.
pub record DeviceTimeAnsPayload : Type 0 where
  pub time_since_gps_epoch : ℤ

unfoldable pub marshal_device_time_ans : DeviceTimeAnsPayload → Result Bytes
unfolding ◌-ℤ◌
marshal_device_time_ans p =
    let seconds = to_uint 32 (quot p.time_since_gps_epoch second) in
    let rest = wrap_int 64 (p.time_since_gps_epoch -ℤ pos (seconds * second)) in
    ok (put_uint32 seconds ++ (to_uint 8 (quot rest fraction) ∷ []))

unfoldable pub unmarshal_device_time_ans : Bytes → Result DeviceTimeAnsPayload
unmarshal_device_time_ans (b0 ∷ b1 ∷ b2 ∷ b3 ∷ b4 ∷ []) =
    let seconds = uint32 (b0 ∷ b1 ∷ b2 ∷ b3 ∷ []) in
    ok (record { time_since_gps_epoch = pos (second * seconds + b4 * fraction) })
unmarshal_device_time_ans _ = err (bytes_expected 5)
