-- ===== src/Examples/Frame.antt =====
-- The properties of frames at concrete ones.
use lorawan.Prelude.{
  ℕ, [], ◌∷◌, All, List, none, some, true, arith, false, replicate, ◌≡◌, inr, message, ok, length,
  refl, ◌+◌, ◌↔◌, ◌%◌, ◌^◌, ◌≤◌, slice, inl,
}
use lorawan.Mac.Command.{MacCommand}
use lorawan.Frame.Body.{
  MacPayload, marshal_frm_payload, is_refused, marshal_mac_payload, unmarshal_mac_payload,
  zero_mac_payload,
}
use lorawan.Frame.Body.RoundTrip.{PortInRange, received_mac_payload, mac_payload_lem}
use lorawan.Mac.Registry.{
  get_mac_payload_and_size, default_registry, lookup_cid, MacPayloadRegistry,
  register_proprietary_mac_command,
}
use lorawan.Frame.Control.{FCtrl, unmarshal_f_ctrl}
use lorawan.Frame.Header.{Fhdr, marshal_fhdr, unmarshal_fhdr}
use lorawan.Frame.Element.{
  marshal_elements, as_commands, data_payload, marshal_element, marshal_data_payload,
  decode_data_payload_to_mac_commands,
}
use lorawan.Frame.Header.RoundTrip.{FhdrInRange, received_fhdr, fhdr_lem}
use lorawan.Prelude.Bytes.{Bytes, IsByte}
use lorawan.Mac.Command.RoundTrip.{Carries}
use lorawan.Examples.{test_addr, test_addr-IsArray}
use lorawan.Mac.Registry.Reachable.{Registered, initial, register}
use lorawan.Mac.Payload.{link_check_ans, proprietary}
use lorawan.Mac.Payload.RoundTrip.{InRange-IsRegistered}
use lorawan.Frame.Element.Commands.{decode-marshal, IsCommand}
use lorawan.Frame.Header.Length.{marshal_fhdr_iff}

abbrev pub link_check : MacCommand
link_check = record {
  cid = 0x02;
  payload = some (link_check_ans (record { margin = 10; gw_cnt = 2 }));
}

-- An identifier that the registry does not hold downlink.
abbrev pub status_request : MacCommand
status_request = record { cid = 0x06; payload = none }

abbrev pub test_commands : List MacCommand
test_commands = link_check ∷ status_request ∷ []

link_check-Carries : Carries default_registry false link_check
link_check-Carries =
    InRange-IsRegistered (link_check_ans (record { margin = 10; gw_cnt = 2 })) (ground arith)

status_request-Carries : Carries default_registry false status_request
unfolding get_mac_payload_and_size lookup_cid
status_request-Carries = (message "payload unknown", refl)

pub test_commands-Carries : All (Carries default_registry false) test_commands
test_commands-Carries = (link_check-Carries, (status_request-Carries, tt))

-- The default registry with a proprietary command of two bytes.
abbrev pub test_registry : MacPayloadRegistry
test_registry = (register_proprietary_mac_command default_registry false 0x80 2).0

pub test_registry-Registered : Registered test_registry
test_registry-Registered = register false 0x80 2 refl initial

abbrev vendor_commands : List MacCommand
vendor_commands =
    link_check
    ∷ status_request
    ∷ record { cid = 0x80; payload = some (proprietary (7 ∷ 9 ∷ [])) }
    ∷ []

vendor_commands-IsCommand : All (IsCommand test_registry false) vendor_commands
unfolding register_proprietary_mac_command get_mac_payload_and_size lookup_cid
vendor_commands-IsCommand = (
  inl (ground arith, refl, refl),
  (
    (message "payload unknown", refl),
    (
      inr (
        7 ∷ 9 ∷ [],
        record { size = 2; payload = proprietary [] },
        refl,
        omega arith,
        refl,
        (refl, ground arith),
      ),
      tt,
    ),
  ),
)

decode-marshal_example :
    (bs : Bytes) × (marshal_elements (as_commands vendor_commands) ≡ ok bs)
    × (decode_data_payload_to_mac_commands test_registry false (data_payload bs ∷ [])
        ≡ ok (as_commands vendor_commands))
decode-marshal_example =
    decode-marshal test_registry false vendor_commands test_registry-Registered
      vendor_commands-IsCommand

abbrev pub test_ctrl : FCtrl
test_ctrl = record {
  adr = true;
  adr_ack_req = false;
  ack = true;
  f_pending = true;
  class_b = false;
  f_opts_len = 0;
}

-- A header with one option of two bytes and a counter above 16 bits.
abbrev pub test_fhdr : Fhdr
test_fhdr = record {
  dev_addr = test_addr;
  f_ctrl = test_ctrl;
  f_cnt = 0x10005;
  f_opts = data_payload (0x06 ∷ 0x0a ∷ []) ∷ [];
}

test_opts : marshal_elements test_fhdr.f_opts ≡ ok (0x06 ∷ 0x0a ∷ [])
unfolding marshal_elements marshal_element marshal_data_payload
test_opts = refl

pub test_fhdr-InRange : FhdrInRange test_fhdr (0x06 ∷ 0x0a ∷ [])
test_fhdr-InRange = (test_addr-IsArray, test_opts, ground arith, ground arith)

fhdr_lem_example :
    (bs : Bytes) × (marshal_fhdr test_fhdr ≡ ok bs)
    × (length bs ≡ 9)
    × All IsByte bs
    × (unmarshal_fhdr zero_mac_payload.fhdr bs ≡ ok (received_fhdr test_fhdr (0x06 ∷ 0x0a ∷ [])))
    × (unmarshal_f_ctrl (slice 4 5 bs) ≡ ok (received_fhdr test_fhdr (0x06 ∷ 0x0a ∷ [])).f_ctrl)
fhdr_lem_example =
    fhdr_lem test_fhdr (0x06 ∷ 0x0a ∷ []) test_fhdr-InRange zero_mac_payload.fhdr refl

-- 256 bytes of options.
abbrev long_fhdr : Fhdr
long_fhdr = record test_fhdr { f_opts = data_payload (replicate 256 1) ∷ [] }

long_opts : marshal_elements long_fhdr.f_opts ≡ ok (replicate 256 1)
unfolding marshal_elements marshal_element marshal_data_payload
long_opts = refl

marshal_fhdr_iff_example :
    ((bs : Bytes) × (marshal_fhdr long_fhdr ≡ ok bs)
      × (length bs ≡ 7 + length (replicate {A = ℕ} 256 1)))
    ↔ (length (replicate {A = ℕ} 256 1) % 2 ^ 8 ≤ 15)
marshal_fhdr_iff_example = marshal_fhdr_iff long_fhdr (replicate 256 1) test_addr-IsArray long_opts

abbrev pub test_frame : MacPayload
test_frame = record {
  fhdr = test_fhdr;
  f_port = some 10;
  frm_payload = data_payload (1 ∷ 2 ∷ 3 ∷ []) ∷ [];
}

pub test_frm : marshal_frm_payload (some 10) test_frame.frm_payload ≡ ok (1 ∷ 2 ∷ 3 ∷ [])
unfolding marshal_frm_payload is_refused marshal_element marshal_data_payload
test_frm = refl

pub test_port-InRange : PortInRange test_frame (1 ∷ 2 ∷ 3 ∷ []) (some 10)
test_port-InRange = (ground arith, test_frm, ground arith, inr (λ e. omega arith))

mac_payload_lem_example :
    (bs : Bytes) × (marshal_mac_payload test_frame ≡ ok bs)
    × (length bs ≡ 13)
    × All IsByte bs
    × (unmarshal_mac_payload zero_mac_payload bs
        ≡ ok (received_mac_payload test_frame (0x06 ∷ 0x0a ∷ []) (1 ∷ 2 ∷ 3 ∷ [])))
mac_payload_lem_example =
    mac_payload_lem test_frame (0x06 ∷ 0x0a ∷ []) (1 ∷ 2 ∷ 3 ∷ []) test_fhdr-InRange
      test_port-InRange
