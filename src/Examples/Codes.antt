-- ===== src/Examples/Codes.antt =====
-- The properties of integrity codes at concrete frames.
use lorawan.Prelude.{[], ◌∷◌, some, ◌≡◌, inr, refl, ok, reverse, drop}
use lorawan.Phy.Mic.{
  calculate_downlink_data_mic, calculate_uplink_data_mic, set_downlink_data_mic,
  set_downlink_join_mic, set_uplink_data_mic, set_uplink_join_mic, calculate_downlink_join_mic,
  calculate_uplink_join_mic, cmac_sum, validate_uplink_data_mic, lorawan1_1, write_all, join_prefix,
  validate_uplink_data_micf,
}
use lorawan.Phy.Packet.{PhyPayload, element, mac_payload, marshal_mhdr, marshal_contents}
use lorawan.Examples.{test_cmac, test_key, test_mic, test_cmac-IsCmac, test_key-IsArray}
use lorawan.Frame.Element.{
  join_accept, join_request, marshal_element, marshal_elements, marshal_data_payload,
}
use lorawan.Examples.Frame.{test_frame}
use lorawan.Examples.Join.{test_join_accept, test_join_request}
use lorawan.Phy.Mic.Counter.{uplink_counter}
use lorawan.Frame.Body.{
  marshal_mac_payload, marshal_port_and_payload, marshal_frm_payload, is_refused,
}
use lorawan.Frame.Header.{marshal_fhdr}
use lorawan.Join.Accept.{marshal_join_accept, marshal_optional_cf_list}
use lorawan.Join.{marshal_join_request}
use lorawan.Ident.{
  marshal_eui64, marshal_dev_addr, marshal_dev_nonce, marshal_join_nonce, marshal_net_id,
}
use lorawan.Frame.Control.{marshal_f_ctrl}
use lorawan.Mac.Settings.{marshal_dl_settings}
use lorawan.Join.CfList.{marshal_cf_list, marshal_cf_list_payload, marshal_channels}
use lorawan.Prelude.Bytes.{Bytes, bytes_eq}
use lorawan.Phy.Mic.Forwarding.{set-validate_uplink_data_micf}
use lorawan.Phy.Mic.Uplink.{IsDigest, serving_block, forwarding_block, code_of, uplink_mic_lem}

abbrev pub test_packet : PhyPayload
test_packet = record {
  mhdr = record { m_type = 3; major = 0 };
  contents = some (mac_payload test_frame);
  mic = test_mic;
}

abbrev join_packet : PhyPayload
join_packet = record {
  mhdr = record { m_type = 0; major = 0 };
  contents = some (element (join_request test_join_request));
  mic = test_mic;
}

abbrev accept_packet : PhyPayload
accept_packet = record {
  mhdr = record { m_type = 1; major = 0 };
  contents = some (element (join_accept test_join_accept));
  mic = test_mic;
}

-- The starting block has 1 in its direction byte, and the counter in bytes 1 and 2.
abbrev downlink_signed : PhyPayload
downlink_signed = record test_packet { mic = 0x49 ∷ 7 ∷ 0 ∷ 0 ∷ [] }

abbrev uplink_signed : PhyPayload
uplink_signed = record test_packet { mic = 0x49 ∷ 7 ∷ 0x49 ∷ 0 ∷ [] }

abbrev join_signed : PhyPayload
join_signed = record join_packet { mic = 0 ∷ 8 ∷ 7 ∷ 6 ∷ [] }

abbrev accept_signed : PhyPayload
accept_signed = record accept_packet { mic = 0xff ∷ 8 ∷ 7 ∷ 6 ∷ [] }

uplink_set :
    set_uplink_data_mic test_cmac test_packet lorawan1_1 7 1 2 test_key test_key ≡ ok uplink_signed
unfolding set_uplink_data_mic calculate_uplink_data_mic cmac_sum write_all marshal_mhdr
    marshal_mac_payload marshal_fhdr marshal_elements marshal_element marshal_data_payload
    marshal_dev_addr marshal_f_ctrl marshal_port_and_payload marshal_frm_payload is_refused
uplink_set = refl

downlink_set :
    set_downlink_data_mic test_cmac test_packet lorawan1_1 7 test_key ≡ ok downlink_signed
unfolding set_downlink_data_mic calculate_downlink_data_mic cmac_sum write_all marshal_mhdr
    marshal_mac_payload marshal_fhdr marshal_elements marshal_element marshal_data_payload
    marshal_dev_addr marshal_f_ctrl marshal_port_and_payload marshal_frm_payload is_refused
downlink_set = refl

join_set : set_uplink_join_mic test_cmac join_packet test_key ≡ ok join_signed
unfolding set_uplink_join_mic calculate_uplink_join_mic cmac_sum write_all marshal_mhdr
    marshal_contents marshal_element marshal_join_request marshal_eui64 marshal_dev_nonce
join_set = refl

accept_set :
    set_downlink_join_mic test_cmac accept_packet 0xff
      (reverse (8 ∷ 7 ∷ 6 ∷ 5 ∷ 4 ∷ 3 ∷ 2 ∷ 1 ∷ []))
      9
      test_key
    ≡ ok accept_signed
unfolding set_downlink_join_mic calculate_downlink_join_mic cmac_sum write_all marshal_mhdr
    marshal_contents marshal_element marshal_join_accept marshal_eui64 marshal_dev_nonce join_prefix
    marshal_join_nonce marshal_net_id marshal_dev_addr marshal_dl_settings marshal_optional_cf_list
    marshal_cf_list marshal_cf_list_payload marshal_channels
accept_set = refl

uplink_counter_example :
    calculate_uplink_data_mic test_cmac test_packet lorawan1_1 7 1 2 test_key test_key
    ≡ calculate_uplink_data_mic test_cmac test_packet lorawan1_1 0x10007 1 2 test_key test_key
uplink_counter_example =
    uplink_counter test_cmac test_packet test_frame refl lorawan1_1 7 0x10007 1 2 test_key test_key
      (inr refl)

abbrev frame_bytes : Bytes
frame_bytes = 4 ∷ 3 ∷ 2 ∷ 1 ∷ 0xb2 ∷ 5 ∷ 0 ∷ 0x06 ∷ 0x0a ∷ 10 ∷ 1 ∷ 2 ∷ 3 ∷ []

frame_marshalled : marshal_mac_payload test_frame ≡ ok frame_bytes
unfolding marshal_mac_payload marshal_fhdr marshal_elements marshal_element marshal_data_payload
    marshal_dev_addr marshal_f_ctrl marshal_port_and_payload marshal_frm_payload is_refused
frame_marshalled = refl

set-validate_uplink_data_micf_example :
    (q : PhyPayload) × (set_uplink_data_mic test_cmac test_packet lorawan1_1 7 1 2 test_key test_key
      ≡ ok q)
    × ((mic : Bytes)
        → validate_uplink_data_micf test_cmac (record q { mic = mic }) test_key
          ≡ ok (bytes_eq (drop 2 mic) (drop 2 q.mic)))
set-validate_uplink_data_micf_example =
    set-validate_uplink_data_micf test_cmac test_cmac-IsCmac test_packet test_frame frame_bytes refl
      frame_marshalled 7 1 2 test_key test_key test_key-IsArray test_key-IsArray

head_marshalled : marshal_mhdr test_packet.mhdr ≡ ok (0x60 ∷ [])
unfolding marshal_mhdr
head_marshalled = refl

uplink_mic_lem_example :
    (s : Bytes) × (f : Bytes) × IsDigest test_cmac test_key
      (serving_block test_frame.fhdr 7 1 2 14)
      (0x60 ∷ frame_bytes)
      s
    × IsDigest test_cmac test_key (forwarding_block test_frame.fhdr 14) (0x60 ∷ frame_bytes) f
    × (set_uplink_data_mic test_cmac test_packet lorawan1_1 7 1 2 test_key test_key
        ≡ ok (record test_packet { mic = code_of lorawan1_1 s f }))
    × ((mic : Bytes)
        → validate_uplink_data_mic test_cmac
            (record test_packet { mic = mic })
            lorawan1_1
            7
            1
            2
            test_key
            test_key
          ≡ ok (bytes_eq mic (code_of lorawan1_1 s f)))
uplink_mic_lem_example =
    uplink_mic_lem test_cmac test_cmac-IsCmac test_packet test_frame (0x60 ∷ []) frame_bytes refl
      head_marshalled frame_marshalled lorawan1_1 7 1 2 test_key test_key test_key-IsArray
      test_key-IsArray
