-- ===== src/Examples/Phy.antt =====
-- The properties of physical payloads and their encryption at concrete ones.
use lorawan.Prelude.{
  [], ◌∷◌, Error, All, some, ◌≡◌, false, ok, err, refl, replicate, true, length, arith, reverse,
}
use lorawan.Prelude.Bytes.{Bytes, IsByte}
use lorawan.Frame.Element.{
  as_commands, marshal_elements, marshal_element, marshal_data_payload, data_payload,
}
use lorawan.Frame.Body.{MacPayload, is_empty}
use lorawan.Phy.Keystream.{cipher_of, encrypt_frm_payload, xor_bytes}
use lorawan.Phy.Packet.{
  is_uplink, PhyPayload, marshal_phy_payload, unmarshal_phy_payload, mac_payload,
}
use lorawan.Examples.{
  xor_aes, test_key, xor_aes-IsAes, test_addr, test_key-IsArray, test_addr-IsArray,
  test_mic-IsArray,
}
use lorawan.Phy.Methods.{
  encrypt_f_opts_method, encrypt_frm_payload_method, with_f_opts, with_frame, decrypt_f_opts,
  decrypt_frm_payload,
}
use lorawan.Phy.JoinAccept.{encrypt_join_accept_payload, decrypt_join_accept_payload}
use lorawan.Examples.Frame.{
  test_fhdr, test_frame, test_commands, test_commands-Carries, test_frm, test_fhdr-InRange,
  test_port-InRange,
}
use lorawan.Mac.Registry.{default_registry}
use lorawan.Mac.Command.{marshal_mac_command}
use lorawan.Examples.Codes.{test_packet}
use lorawan.Phy.JoinAccept.RoundTrip.{with_join_accept, decrypt-encrypt_join_accept}
use lorawan.Mac.Command.RoundTrip.{Carries}
use lorawan.Mac.Payload.{marshal_payload}
use lorawan.Phy.Methods.Data.{with_frm, decrypt-encrypt_commands, decrypt-encrypt_frm_payload}
use lorawan.Mac.Link.{marshal_link_check_ans}
use lorawan.Examples.Join.{test_join_accept, test_join_accept-InRange, test_channels-InRange}
use lorawan.Phy.Methods.Options.{decrypt-encrypt_f_opts, decrypt_f_opts_silent}
use lorawan.Phy.Keystream.Involution.{keystream, blocks, encrypt_frm_payload_lem}
use lorawan.Frame.Body.RoundTrip.{received_mac_payload}
use lorawan.Phy.Packet.RoundTrip.{phy_payload_lem, of_frame}

phy_payload_lem_example :
    (bs : Bytes) × (marshal_phy_payload test_packet ≡ ok bs)
    × All IsByte bs
    × (unmarshal_phy_payload bs
        ≡ ok (record test_packet {
          contents =
              some
                (mac_payload (received_mac_payload test_frame (0x06 ∷ 0x0a ∷ []) (1 ∷ 2 ∷ 3 ∷ [])));
        }))
phy_payload_lem_example =
    phy_payload_lem test_packet (mac_payload test_frame)
      (mac_payload (received_mac_payload test_frame (0x06 ∷ 0x0a ∷ []) (1 ∷ 2 ∷ 3 ∷ []))) refl
      (ground arith, ground arith) test_mic-IsArray
      (of_frame test_frame (0x06 ∷ 0x0a ∷ []) (1 ∷ 2 ∷ 3 ∷ []) (ground arith, ground arith)
        test_fhdr-InRange test_port-InRange)

encrypt_frm_payload_lem_example :
    (block : Unit {0}) × (cipher_of xor_aes test_key ≡ ok block)
    × ((bs : Bytes)
        → encrypt_frm_payload xor_aes test_key true test_addr 5 bs
          ≡ ok (xor_bytes bs (keystream xor_aes block true (reverse test_addr) 5 0 (blocks bs))))
encrypt_frm_payload_lem_example =
    encrypt_frm_payload_lem xor_aes xor_aes-IsAes test_key true test_addr 5 test_key-IsArray
      test_addr-IsArray

decrypt-encrypt_frm_payload_example :
    (enc : Bytes) × (encrypt_frm_payload_method xor_aes default_registry
        (with_frame test_packet test_frame)
        test_key
      ≡ (with_frm test_packet test_frame enc, ok tt))
    × (length enc ≡ 3)
    × (decrypt_frm_payload xor_aes default_registry (with_frm test_packet test_frame enc) test_key
        ≡ (with_frm test_packet test_frame (1 ∷ 2 ∷ 3 ∷ []), ok tt))
decrypt-encrypt_frm_payload_example =
    decrypt-encrypt_frm_payload xor_aes default_registry test_key test_packet xor_aes-IsAes
      test_frame (1 ∷ 2 ∷ 3 ∷ []) test_key-IsArray test_addr-IsArray refl (ground arith) test_frm

abbrev command_frame : MacPayload
command_frame = record {
  fhdr = record test_fhdr { f_opts = [] };
  f_port = some 0;
  frm_payload = as_commands test_commands;
}

command_frame-full : is_empty command_frame.frm_payload ≡ false
unfolding as_commands
command_frame-full = refl

test_downlink : All (Carries default_registry (is_uplink test_packet)) test_commands
unfolding is_uplink
test_downlink = test_commands-Carries

decrypt-encrypt_commands_example :
    (q : PhyPayload) × (encrypt_frm_payload_method xor_aes default_registry
        (with_frame test_packet command_frame)
        test_key
      ≡ (q, ok tt))
    × (decrypt_frm_payload xor_aes default_registry q test_key
        ≡ (with_frame test_packet command_frame, ok tt))
decrypt-encrypt_commands_example =
    decrypt-encrypt_commands xor_aes default_registry test_key test_packet xor_aes-IsAes
      command_frame test_commands test_key-IsArray test_addr-IsArray refl refl command_frame-full
      test_downlink

abbrev option_frame : MacPayload
option_frame = with_f_opts test_frame (as_commands test_commands)

option_frame-full : is_empty option_frame.fhdr.f_opts ≡ false
unfolding as_commands
option_frame-full = refl

option_bytes : marshal_elements option_frame.fhdr.f_opts ≡ ok (0x02 ∷ 10 ∷ 2 ∷ 0x06 ∷ [])
unfolding marshal_elements marshal_element marshal_mac_command marshal_payload
    marshal_link_check_ans as_commands
option_bytes = refl

decrypt-encrypt_f_opts_example :
    (q : PhyPayload) × (encrypt_f_opts_method xor_aes default_registry
        (with_frame test_packet option_frame)
        test_key
      ≡ (q, ok tt))
    × (decrypt_f_opts xor_aes default_registry q test_key
        ≡ (with_frame test_packet option_frame, ok tt))
decrypt-encrypt_f_opts_example =
    decrypt-encrypt_f_opts xor_aes default_registry test_key test_packet xor_aes-IsAes option_frame
      test_commands (0x02 ∷ 10 ∷ 2 ∷ 0x06 ∷ []) test_key-IsArray refl option_frame-full
      test_downlink option_bytes (ground arith)

-- Sixteen bytes of options.
abbrev long_frame : MacPayload
long_frame = with_f_opts test_frame (data_payload (replicate 16 1) ∷ [])

long_bytes : marshal_elements long_frame.fhdr.f_opts ≡ ok (replicate 16 1)
unfolding marshal_elements marshal_element marshal_data_payload
long_bytes = refl

decrypt_f_opts_silent_example :
    ((e : Error) × (encrypt_f_opts_method xor_aes default_registry
          (with_frame test_packet long_frame)
          test_key
        ≡ (with_frame test_packet long_frame, err e)))
    × (decrypt_f_opts xor_aes default_registry (with_frame test_packet long_frame) test_key
        ≡ (with_frame test_packet long_frame, ok tt))
decrypt_f_opts_silent_example =
    decrypt_f_opts_silent xor_aes default_registry test_key test_packet long_frame (replicate 16 1)
      refl long_bytes (ground arith)

decrypt-encrypt_join_accept_example :
    (q : PhyPayload) × (encrypt_join_accept_payload xor_aes
        (with_join_accept test_packet test_join_accept)
        test_key
      ≡ (q, ok tt))
    × (decrypt_join_accept_payload xor_aes q test_key
        ≡ (with_join_accept test_packet test_join_accept, ok tt))
decrypt-encrypt_join_accept_example =
    decrypt-encrypt_join_accept xor_aes xor_aes-IsAes test_key test_packet test_join_accept
      test_key-IsArray test_mic-IsArray test_join_accept-InRange test_channels-InRange
