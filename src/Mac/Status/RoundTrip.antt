-- ===== src/Mac/Status/RoundTrip.antt =====
-- Device status and device time payloads of mac_commands.go, written and read back.
use lorawan.Prelude.{
  ℕ, ◌*◌, ◌/◌, ◌<◌, ◌+◌, ◌^◌, ◌∷◌, ◌≤◌, ◌%◌, ◌>>=◌, ◌≡◌, ok, arith, if◌then◌else◌, ◌-◌, [], refl,
  ◌++◌,
}
use lorawan.Mac.Status.{
  DevStatusAnsPayload, marshal_dev_status_ans, marshal_device_time_ans, second,
  unmarshal_dev_status_ans, unmarshal_device_time_ans, fraction, DeviceTimeAnsPayload,
}
use lorawan.Prelude.Bytes.{IsByte, RoundTrips, put_uint32}
use lorawan.Prelude.Int.{neg_part, pos, pos_part, ltb_ℤ}

abbrev pub DevStatusAnsInRange : DevStatusAnsPayload → Type 0
DevStatusAnsInRange p = IsByte p.battery × (neg_part p.margin ≤ 32) × (pos_part p.margin ≤ 31)

pub dev_status_ans_lem :
    (p : DevStatusAnsPayload)
    → DevStatusAnsInRange p
    → RoundTrips marshal_dev_status_ans unmarshal_dev_status_ans 2 p
unfolding marshal_dev_status_ans unmarshal_dev_status_ans
dev_status_ans_lem p h = (
  p.battery
      ∷ (pos_part p.margin + (if ltb_ℤ p.margin (pos 0) then 64 - neg_part p.margin else 0))
      ∷ [],
  ground arith,
  refl,
  ground arith,
  ground arith,
)

-- The duration that the encoding stands for: rounded down to a 256th of a second.
abbrev pub rounded : ℕ → ℕ
rounded t = second * (t / second) + t % second / fraction * fraction

-- A device time from 0 to below 2 ^ 32 seconds is written and read without an error, as the time
-- rounded down to a 256th of a second, which is less than one such fraction below it.
pub device_time_ans_lem :
    (t : ℕ)
    → t < 2 ^ 32 * second
    → ((marshal_device_time_ans (record { time_since_gps_epoch = pos t })
          >>= unmarshal_device_time_ans)
        ≡ ok (record { time_since_gps_epoch = pos (rounded t) }))
      × (rounded t ≤ t)
      × (t < rounded t + fraction)
unfolding marshal_device_time_ans unmarshal_device_time_ans
device_time_ans_lem t h = (ground arith, omega arith, omega arith)

abbrev pub DeviceTimeAnsExact : DeviceTimeAnsPayload → Type 0
DeviceTimeAnsExact p =
    (pos_part p.time_since_gps_epoch < 2 ^ 32 * second)
    × (p.time_since_gps_epoch ≡ pos (rounded (pos_part p.time_since_gps_epoch)))

-- A duration of whole 256ths of a second is kept.
pub device_time_exact :
    (p : DeviceTimeAnsPayload)
    → DeviceTimeAnsExact p
    → RoundTrips marshal_device_time_ans unmarshal_device_time_ans 5 p
unfolding marshal_device_time_ans unmarshal_device_time_ans
device_time_exact p h =
    let t = pos_part p.time_since_gps_epoch in
    (
      put_uint32 (t / second) ++ (t % second / fraction ∷ []),
      ground arith,
      refl,
      omega arith,
      ground arith,
    )
