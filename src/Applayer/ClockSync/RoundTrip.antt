-- ===== src/Applayer/ClockSync/RoundTrip.antt =====
-- The commands of applayer/clocksync/clocksync.go, written and read back.
use lorawan.Prelude.{
  ℕ, [], ◌∷◌, Bool, if◌then◌else◌, ◌<◌, ◌≡◌, arith, true, ◌+◌, ◌^◌, false, refl, ◌++◌, ◌%◌, List,
  All, ok,
}
use lorawan.Prelude.Bytes.{put_uint32, uint32, IsByte, IsU32, uint32-put_uint32, Bytes}
use lorawan.Prelude.Bits.{bit_or_fields_low}
use lorawan.Prelude.Bits.Fields.{low_three_of_17, low_nibble, bit_flag}
use lorawan.Prelude.Int.{ℤ, pos, negsuc, to_uint, to_int}
use lorawan.Applayer.Command.RoundTrip.{Delimited, CommandInRange, commands_back}
use lorawan.Applayer.ClockSync.{
  marshal_commands, unmarshal_commands, Payload, codec, package_version_ans, app_time_req,
  app_time_ans, periodicity_req, periodicity_ans, force_device_resync_req,
  marshal_package_version_ans, unmarshal_package_version_ans, marshal_app_time_req,
  unmarshal_app_time_req, marshal_app_time_ans, unmarshal_app_time_ans, marshal_periodicity_req,
  unmarshal_periodicity_req, marshal_periodicity_ans, unmarshal_periodicity_ans,
  marshal_force_device_resync_req, unmarshal_force_device_resync_req, marshal_payload,
  unmarshal_payload, payload_size, get_command_payload,
}
use lorawan.Applayer.Command.{Command}

-- The direction and the identifier of a payload.
abbrev pub is_uplink : Payload → Bool
is_uplink (package_version_ans p) = true
is_uplink (app_time_req p) = true
is_uplink (app_time_ans p) = false
is_uplink (periodicity_req p) = false
is_uplink (periodicity_ans p) = true
is_uplink (force_device_resync_req p) = false

abbrev pub cid_of : Payload → ℕ
cid_of (package_version_ans p) = 0
cid_of (app_time_req p) = 1
cid_of (app_time_ans p) = 1
cid_of (periodicity_req p) = 2
cid_of (periodicity_ans p) = 2
cid_of (force_device_resync_req p) = 3

abbrev pub IsInt32 : ℤ → Type 0
IsInt32 (pos n) = n < 2 ^ 31
IsInt32 (negsuc n) = n < 2 ^ 31

-- The fields fit the bits that they are given.
abbrev pub InRange : Payload → Type 0
InRange (package_version_ans p) = IsByte p.package_identifier × IsByte p.package_version
InRange (app_time_req p) = IsU32 p.device_time × (p.token_req < 16)
InRange (app_time_ans p) = IsInt32 p.time_correction × (p.token_ans < 16)
InRange (periodicity_req p) = p.period < 16
InRange (periodicity_ans p) = IsU32 p.time
InRange (force_device_resync_req p) = p.nb_transmissions < 8

to_int-to_uint : (z : ℤ) → IsInt32 z → to_int 32 (uint32 (put_uint32 (to_uint 32 z))) ≡ z
to_int-to_uint (pos n) h = ground (arith, uint32-put_uint32 (to_uint 32 (pos n)))
to_int-to_uint (negsuc n) h = ground (arith, uint32-put_uint32 (to_uint 32 (negsuc n)))

pub InRange-Delimited : (p : Payload) → InRange p → Delimited codec (is_uplink p) (cid_of p) p
unfolding codec marshal_payload unmarshal_payload payload_size get_command_payload
    marshal_package_version_ans unmarshal_package_version_ans marshal_app_time_req
    unmarshal_app_time_req marshal_app_time_ans unmarshal_app_time_ans marshal_periodicity_req
    unmarshal_periodicity_req marshal_periodicity_ans unmarshal_periodicity_ans
    marshal_force_device_resync_req unmarshal_force_device_resync_req
InRange-Delimited (package_version_ans p) h = (_, refl, _, refl, refl, λ rest. refl)
InRange-Delimited (app_time_req p) h =
    let e = (if p.ans_required then 16 else 0) + p.token_req in
    (
      _,
      refl,
      put_uint32 p.device_time ++ (e ∷ []),
      ground (arith, low_nibble p.token_req, bit_or_fields_low 4 1 p.token_req),
      refl,
      λ rest. ground (arith, uint32-put_uint32 p.device_time, low_nibble e, bit_flag 4 e),
    )
InRange-Delimited (app_time_ans p) h = (
  _,
  refl,
  _,
  refl,
  refl,
  λ rest. ground (
    arith,
    to_int-to_uint p.time_correction,
    low_nibble p.token_ans,
    low_nibble (p.token_ans % 16),
  ),
)
InRange-Delimited (periodicity_req p) h = (
  _,
  refl,
  p.period ∷ [],
  ground (arith, low_nibble p.period),
  refl,
  λ rest. ground (arith, low_nibble p.period),
)
InRange-Delimited (periodicity_ans p) h =
    (_, refl, _, refl, refl, λ rest. ground (arith, uint32-put_uint32 p.time))
InRange-Delimited (force_device_resync_req p) h = (
  _,
  refl,
  p.nb_transmissions ∷ [],
  ground (arith, low_three_of_17 p.nb_transmissions),
  refl,
  λ rest. ground (arith, low_three_of_17 p.nb_transmissions),
)

-- A sequence of clock-synchronisation commands of one direction, each with its identifier's
-- payload in range (a time correction being a signed number of 32 bits) or an identifier that has
-- no payload, has bytes, which decode to the same sequence.
pub clock_sync_commands_lem :
    (uplink : Bool) (cs : List (Command Payload))
    → All
        (λ (c : Command Payload).
          CommandInRange codec InRange is_uplink cid_of uplink c.cid c.payload)
        cs
    → (bs : Bytes) × (marshal_commands cs ≡ ok bs) × (unmarshal_commands uplink bs ≡ ok cs)
unfolding marshal_commands unmarshal_commands
clock_sync_commands_lem uplink cs h =
    commands_back codec InRange is_uplink cid_of InRange-Delimited uplink cs h
