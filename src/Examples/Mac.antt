-- ===== src/Examples/Mac.antt =====
-- The properties of MAC commands at concrete payloads, identifiers and sizes.
use lorawan.Prelude.{
  ℕ, [], ◌∷◌, List, length, ◌≡◌, arith, false, ok, some, true, ◌>>=◌, refl, none, ◌≤◌, ◌<◌, ◌+◌,
  ◌↔◌,
}
use lorawan.Mac.Payload.{
  MacCommandPayload, marshal_payload, dev_status_ans, unmarshal_payload, link_check_ans,
}
use lorawan.Mac.Payload.RoundTrip.{IsRegistered, InRange-IsRegistered}
use lorawan.Mac.Registry.{
  get_mac_payload_and_size, register_proprietary_mac_command, default_registry, lookup_cid,
}
use lorawan.Mac.Registry.Reachable.{initial, IsSound, Registered-IsSound}
use lorawan.Examples.Frame.{test_registry, test_registry-Registered}
use lorawan.Mac.Command.{decode_mac_commands, unmarshal_mac_command, MacCommand}
use lorawan.Mac.Status.{marshal_device_time_ans, unmarshal_device_time_ans, fraction}
use lorawan.Mac.Payload.Accepts.{marshal_payload_iff, IsAccepted}
use lorawan.Prelude.Int.{pos, negsuc}
use lorawan.Mac.Command.Decode.{total_size, decode_total_size}
use lorawan.Mac.Link.{unmarshal_link_check_ans}
use lorawan.Mac.Registry.Register.{registered, get-register}
use lorawan.Mac.Status.RoundTrip.{rounded, device_time_ans_lem}
use lorawan.Prelude.Bytes.{Bytes}
use lorawan.Mac.Command.Parse.{IsSequence, decode-IsSequence}

abbrev test_dev_status : MacCommandPayload
test_dev_status = dev_status_ans (record { battery = 255; margin = negsuc 31 })

InRange-IsRegistered_example : IsRegistered default_registry test_dev_status
InRange-IsRegistered_example =
    InRange-IsRegistered test_dev_status (ground arith, ground arith, ground arith)

marshal_payload_iff_example :
    ((bs : Bytes) × (marshal_payload test_dev_status ≡ ok bs)) ↔ IsAccepted test_dev_status
marshal_payload_iff_example = marshal_payload_iff test_dev_status (ground arith)

get-register_example :
    get_mac_payload_and_size
      (register_proprietary_mac_command default_registry true 0x80 3).0
      true
      0x80
    ≡ registered default_registry true 0x80 3 true 0x80
get-register_example = get-register default_registry true true 0x80 3 0x80

Registered-IsSound_example : IsSound test_registry
Registered-IsSound_example = Registered-IsSound test_registry test_registry-Registered

abbrev test_commands : List MacCommand
test_commands =
    record { cid = 0x02; payload = some (link_check_ans (record { margin = 10; gw_cnt = 2 })) }
    ∷ record { cid = 0x06; payload = none }
    ∷ []

decoded_commands :
    decode_mac_commands default_registry false 0 (0x02 ∷ 10 ∷ 2 ∷ 0x06 ∷ []) ≡ ok test_commands
unfolding decode_mac_commands unmarshal_mac_command get_mac_payload_and_size lookup_cid
    unmarshal_payload unmarshal_link_check_ans
decoded_commands = refl

decode-IsSequence_example :
    (decode_mac_commands default_registry false 0 (0x02 ∷ 10 ∷ 2 ∷ 0x06 ∷ []) ≡ ok test_commands)
    ↔ IsSequence default_registry false (0x02 ∷ 10 ∷ 2 ∷ 0x06 ∷ []) test_commands
decode-IsSequence_example =
    decode-IsSequence default_registry false initial (0x02 ∷ 10 ∷ 2 ∷ 0x06 ∷ []) test_commands

decode_total_size_example :
    length {A = ℕ} (0x02 ∷ 10 ∷ 2 ∷ 0x06 ∷ []) ≡ total_size default_registry false test_commands
decode_total_size_example =
    decode_total_size default_registry false (0x02 ∷ 10 ∷ 2 ∷ 0x06 ∷ []) decoded_commands

device_time_ans_lem_example :
    ((marshal_device_time_ans (record { time_since_gps_epoch = pos 1500000001 })
        >>= unmarshal_device_time_ans)
      ≡ ok (record { time_since_gps_epoch = pos (rounded 1500000001) }))
    × (rounded 1500000001 ≤ 1500000001)
    × (1500000001 < rounded 1500000001 + fraction)
device_time_ans_lem_example = device_time_ans_lem 1500000001 (ground arith)
