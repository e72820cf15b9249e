-- ===== src/Applayer/ClockSync.antt =====
-- The payloads of applayer/clocksync/clocksync.go. A struct inside that holds one field is written
-- as the field.
pub mod RoundTrip
use lorawan.Prelude.{
  ℕ, [], ◌∷◌, none, some, Bool, List, Result, Option, bit_and, ok, ◌>>=◌, err, if◌then◌else◌, ◌++◌,
  bit_or, bytes_expected, not, ◌==◌, false, true,
}
use lorawan.Prelude.Bytes.{Bytes, put_uint32, uint32}
use lorawan.Prelude.Bits.{shl}
use lorawan.Prelude.Int.{ℤ, pos, to_uint, to_int}
use lorawan.Applayer.Command.{CommandCodec, Command}
use lorawan.Applayer.Command

pub record PackageVersionAnsPayload : Type 0 where
  pub package_identifier : ℕ
  pub package_version : ℕ

unfoldable pub marshal_package_version_ans : PackageVersionAnsPayload → Result Bytes
marshal_package_version_ans p = ok (p.package_identifier ∷ p.package_version ∷ [])

-- Further bytes are left alone, here and below.
unfoldable pub unmarshal_package_version_ans : Bytes → Result PackageVersionAnsPayload
unmarshal_package_version_ans (a ∷ b ∷ _) =
    ok (record { package_identifier = a; package_version = b })
unmarshal_package_version_ans _ = err (bytes_expected 2)

pub record AppTimeReqPayload : Type 0 where
  pub device_time : ℕ
  pub ans_required : Bool
  pub token_req : ℕ

unfoldable pub marshal_app_time_req : AppTimeReqPayload → Result Bytes
marshal_app_time_req p =
    let b4 = bit_and p.token_req 0x0f in
    ok (put_uint32 p.device_time ++ ((if p.ans_required then bit_or b4 (shl 8 1 4) else b4) ∷ []))

-- The flag of the receiver is set and never cleared.
unfoldable pub unmarshal_app_time_req : AppTimeReqPayload → Bytes → Result AppTimeReqPayload
unmarshal_app_time_req p (a ∷ b ∷ c ∷ d ∷ e ∷ _) = ok (record {
  device_time = uint32 (a ∷ b ∷ c ∷ d ∷ []);
  ans_required = if not (bit_and e (shl 8 1 4) == 0) then true else p.ans_required;
  token_req = bit_and e 0x0f;
})
unmarshal_app_time_req p _ = err (bytes_expected 5)

pub record AppTimeAnsPayload : Type 0 where
  pub time_correction : ℤ
  pub token_ans : ℕ

unfoldable pub marshal_app_time_ans : AppTimeAnsPayload → Result Bytes
marshal_app_time_ans p =
    ok (put_uint32 (to_uint 32 p.time_correction) ++ (bit_and p.token_ans 0x0f ∷ []))

unfoldable pub unmarshal_app_time_ans : Bytes → Result AppTimeAnsPayload
unmarshal_app_time_ans (a ∷ b ∷ c ∷ d ∷ e ∷ _) = ok (record {
  time_correction = to_int 32 (uint32 (a ∷ b ∷ c ∷ d ∷ []));
  token_ans = bit_and e 0x0f;
})
unmarshal_app_time_ans _ = err (bytes_expected 5)

pub record DeviceAppTimePeriodicityReqPayload : Type 0 where
  pub period : ℕ

unfoldable pub marshal_periodicity_req : DeviceAppTimePeriodicityReqPayload → Result Bytes
marshal_periodicity_req p = ok (bit_and p.period 0x0f ∷ [])

unfoldable pub unmarshal_periodicity_req : Bytes → Result DeviceAppTimePeriodicityReqPayload
unmarshal_periodicity_req (a ∷ _) = ok (record { period = bit_and a 0x0f })
unmarshal_periodicity_req [] = err (bytes_expected 1)

pub record DeviceAppTimePeriodicityAnsPayload : Type 0 where
  pub not_supported : Bool
  pub time : ℕ

unfoldable pub marshal_periodicity_ans : DeviceAppTimePeriodicityAnsPayload → Result Bytes
marshal_periodicity_ans p = ok ((if p.not_supported then 1 else 0) ∷ put_uint32 p.time)

unfoldable pub unmarshal_periodicity_ans :
    DeviceAppTimePeriodicityAnsPayload → Bytes → Result DeviceAppTimePeriodicityAnsPayload
unmarshal_periodicity_ans p (a ∷ b ∷ c ∷ d ∷ e ∷ _) = ok (record {
  not_supported = if not (bit_and a 1 == 0) then true else p.not_supported;
  time = uint32 (b ∷ c ∷ d ∷ e ∷ []);
})
unmarshal_periodicity_ans p _ = err (bytes_expected 5)

pub record ForceDeviceResyncReqPayload : Type 0 where
  pub nb_transmissions : ℕ

-- The mask keeps the bits 0 to 2 and bit 4.
unfoldable pub marshal_force_device_resync_req : ForceDeviceResyncReqPayload → Result Bytes
marshal_force_device_resync_req p = ok (bit_and p.nb_transmissions 0x17 ∷ [])

unfoldable pub unmarshal_force_device_resync_req : Bytes → Result ForceDeviceResyncReqPayload
unmarshal_force_device_resync_req (a ∷ _) = ok (record { nb_transmissions = bit_and a 0x17 })
unmarshal_force_device_resync_req [] = err (bytes_expected 1)

-- The types that implement CommandPayload.
pub data Payload : Type 0 where
  package_version_ans : PackageVersionAnsPayload → Payload
  app_time_req : AppTimeReqPayload → Payload
  app_time_ans : AppTimeAnsPayload → Payload
  periodicity_req : DeviceAppTimePeriodicityReqPayload → Payload
  periodicity_ans : DeviceAppTimePeriodicityAnsPayload → Payload
  force_device_resync_req : ForceDeviceResyncReqPayload → Payload

unfoldable pub marshal_payload : Payload → Result Bytes
marshal_payload (package_version_ans p) = marshal_package_version_ans p
marshal_payload (app_time_req p) = marshal_app_time_req p
marshal_payload (app_time_ans p) = marshal_app_time_ans p
marshal_payload (periodicity_req p) = marshal_periodicity_req p
marshal_payload (periodicity_ans p) = marshal_periodicity_ans p
marshal_payload (force_device_resync_req p) = marshal_force_device_resync_req p

unfoldable pub unmarshal_payload : Payload → Bytes → Result Payload
unmarshal_payload (package_version_ans p) bs =
    unmarshal_package_version_ans bs >>= λ r. ok (package_version_ans r)
unmarshal_payload (app_time_req p) bs = unmarshal_app_time_req p bs >>= λ r. ok (app_time_req r)
unmarshal_payload (app_time_ans p) bs = unmarshal_app_time_ans bs >>= λ r. ok (app_time_ans r)
unmarshal_payload (periodicity_req p) bs =
    unmarshal_periodicity_req bs >>= λ r. ok (periodicity_req r)
unmarshal_payload (periodicity_ans p) bs =
    unmarshal_periodicity_ans p bs >>= λ r. ok (periodicity_ans r)
unmarshal_payload (force_device_resync_req p) bs =
    unmarshal_force_device_resync_req bs >>= λ r. ok (force_device_resync_req r)

unfoldable pub payload_size : Payload → ℕ
payload_size (package_version_ans p) = 2
payload_size (app_time_req p) = 5
payload_size (app_time_ans p) = 5
payload_size (periodicity_req p) = 1
payload_size (periodicity_ans p) = 5
payload_size (force_device_resync_req p) = 1

-- The registry of both directions, with new payloads.
unfoldable pub get_command_payload : Bool → ℕ → Option Payload
get_command_payload uplink cid =
    if uplink
    then if cid == 0
      then some (package_version_ans (record { package_identifier = 0; package_version = 0 }))
      else if cid == 1
      then some (app_time_req (record { device_time = 0; ans_required = false; token_req = 0 }))
      else if cid == 2
      then some (periodicity_ans (record { not_supported = false; time = 0 }))
      else none
    else if cid == 1
    then some (app_time_ans (record { time_correction = pos 0; token_ans = 0 }))
    else if cid == 2
    then some (periodicity_req (record { period = 0 }))
    else if cid == 3
    then some (force_device_resync_req (record { nb_transmissions = 0 }))
    else none

unfoldable pub codec : CommandCodec Payload
codec = record {
  get_command_payload = get_command_payload;
  marshal_binary = marshal_payload;
  unmarshal_binary = unmarshal_payload;
  size = payload_size;
}

-- The package's own methods of Command and Commands.
unfoldable pub marshal_command : Command Payload → Result Bytes
marshal_command c = Command.marshal_command codec c

unfoldable pub unmarshal_command : Bool → Bytes → Result (Command Payload)
unmarshal_command uplink bs = Command.unmarshal_command codec uplink bs

unfoldable pub command_size : Command Payload → ℕ
command_size c = Command.command_size codec c

unfoldable pub marshal_commands : List (Command Payload) → Result Bytes
marshal_commands cs = Command.marshal_commands codec cs

unfoldable pub unmarshal_commands : Bool → Bytes → Result (List (Command Payload))
unmarshal_commands uplink bs = Command.unmarshal_commands codec uplink bs
