-- ===== src/Mac/Payload/RoundTrip.antt =====
-- The payloads of MAC commands against the registry of mac_commands.go.
use lorawan.Mac.Payload.{
  link_check_ans, link_adr_req, link_adr_ans, duty_cycle_req, rx_param_setup_req,
  rx_param_setup_ans, dev_status_ans, new_channel_req, new_channel_ans, rx_timing_setup_req,
  tx_param_setup_req, dl_channel_req, dl_channel_ans, ping_slot_info_req, beacon_freq_req,
  beacon_freq_ans, ping_slot_channel_req, ping_slot_channel_ans, device_time_ans, reset_ind,
  reset_conf, rekey_ind, rekey_conf, adr_param_setup_req, force_rejoin_req, rejoin_param_setup_req,
  rejoin_param_setup_ans, device_mode_ind, device_mode_conf, proprietary,
}
use lorawan.Prelude.{ℕ, Result, ◌≡◌, ok, ap, ◌<◌, arith, refl}
use lorawan.Mac.Payload.{MacCommandPayload, marshal_payload, unmarshal_payload, map_ok}
use lorawan.Mac.Registry.{
  MacPayloadRegistry, MacPayloadInfo, get_mac_payload_and_size, lookup_cid, default_registry,
}
use lorawan.Prelude.Bytes.{Bytes, RoundTrips}
use lorawan.Mac.Link.RoundTrip.{link_check_ans_lem, link_adr_req_lem, link_adr_ans_lem}
use lorawan.Mac.Settings.RoundTrip.{
  duty_cycle_req_lem, rx_param_setup_req_lem, rx_param_setup_ans_lem, rx_timing_setup_req_lem,
  tx_param_setup_req_lem,
}
use lorawan.Mac.Status.RoundTrip.{dev_status_ans_lem, device_time_exact}
use lorawan.Mac.Channel.RoundTrip.{
  new_channel_req_lem, new_channel_ans_lem, dl_channel_req_lem, dl_channel_ans_lem,
}
use lorawan.Mac.ClassB.RoundTrip.{
  ping_slot_info_req_lem, beacon_freq_req_lem, beacon_freq_ans_lem, ping_slot_channel_req_lem,
  ping_slot_channel_ans_lem,
}
use lorawan.Mac.Session.RoundTrip.{
  version_lem, adr_param_lem, force_rejoin_req_lem, rejoin_param_setup_req_lem,
  rejoin_param_setup_ans_lem, device_mode_lem,
}
use lorawan.Mac.Payload.Ranges.{InRange, is_uplink_payload, cid_of}

-- A codec of one payload type is one of the interface.
wrap :
    {A : Type 0} (f : A → MacCommandPayload) {unmarshal : Bytes → Result A} {n : ℕ} {a : A}
    {r : Result Bytes}
    → RoundTrips (λ (_ : A). r) unmarshal n a
    → RoundTrips (λ (_ : MacCommandPayload). r) (λ bs. map_ok f (unmarshal bs)) n (f a)
wrap f (bs, eq, len, bytes, back) = (bs, eq, len, bytes, ap (map_ok f) back)

-- The registry's entry for the payload, with which it comes back.
abbrev pub IsRegistered : MacPayloadRegistry → MacCommandPayload → Type 0
IsRegistered reg p =
    (info : MacPayloadInfo) × (get_mac_payload_and_size reg (is_uplink_payload p) (cid_of p)
      ≡ ok info)
    × (0 < info.size)
    × RoundTrips marshal_payload (unmarshal_payload info.payload) info.size p

-- Every MAC command payload in range, for each of the 29 commands with a payload, has an entry in
-- the default registry under its direction and identifier, whose size is positive and is the
-- number of bytes that it is written as, and which decodes those bytes to the payload.
pub InRange-IsRegistered : (p : MacCommandPayload) → InRange p → IsRegistered default_registry p
unfolding marshal_payload unmarshal_payload get_mac_payload_and_size lookup_cid
InRange-IsRegistered (link_check_ans p) h =
    (_, refl, omega arith, wrap link_check_ans (link_check_ans_lem p h))
InRange-IsRegistered (link_adr_req p) h =
    (_, refl, omega arith, wrap link_adr_req (link_adr_req_lem p h))
InRange-IsRegistered (link_adr_ans p) h =
    (_, refl, omega arith, wrap link_adr_ans (link_adr_ans_lem p))
InRange-IsRegistered (duty_cycle_req p) h =
    (_, refl, omega arith, wrap duty_cycle_req (duty_cycle_req_lem p h))
InRange-IsRegistered (rx_param_setup_req p) h =
    (_, refl, omega arith, wrap rx_param_setup_req (rx_param_setup_req_lem p h))
InRange-IsRegistered (rx_param_setup_ans p) h =
    (_, refl, omega arith, wrap rx_param_setup_ans (rx_param_setup_ans_lem p))
InRange-IsRegistered (dev_status_ans p) h =
    (_, refl, omega arith, wrap dev_status_ans (dev_status_ans_lem p h))
InRange-IsRegistered (new_channel_req p) h =
    (_, refl, omega arith, wrap new_channel_req (new_channel_req_lem p h))
InRange-IsRegistered (new_channel_ans p) h =
    (_, refl, omega arith, wrap new_channel_ans (new_channel_ans_lem p))
InRange-IsRegistered (rx_timing_setup_req p) h =
    (_, refl, omega arith, wrap rx_timing_setup_req (rx_timing_setup_req_lem p h))
InRange-IsRegistered (tx_param_setup_req p) h =
    (_, refl, omega arith, wrap tx_param_setup_req (tx_param_setup_req_lem p h))
InRange-IsRegistered (dl_channel_req p) h =
    (_, refl, omega arith, wrap dl_channel_req (dl_channel_req_lem p h))
InRange-IsRegistered (dl_channel_ans p) h =
    (_, refl, omega arith, wrap dl_channel_ans (dl_channel_ans_lem p))
InRange-IsRegistered (ping_slot_info_req p) h =
    (_, refl, omega arith, wrap ping_slot_info_req (ping_slot_info_req_lem p h))
InRange-IsRegistered (beacon_freq_req p) h =
    (_, refl, omega arith, wrap beacon_freq_req (beacon_freq_req_lem p h))
InRange-IsRegistered (beacon_freq_ans p) h =
    (_, refl, omega arith, wrap beacon_freq_ans (beacon_freq_ans_lem p))
InRange-IsRegistered (ping_slot_channel_req p) h =
    (_, refl, omega arith, wrap ping_slot_channel_req (ping_slot_channel_req_lem p h))
InRange-IsRegistered (ping_slot_channel_ans p) h =
    (_, refl, omega arith, wrap ping_slot_channel_ans (ping_slot_channel_ans_lem p))
InRange-IsRegistered (device_time_ans p) h =
    (_, refl, omega arith, wrap device_time_ans (device_time_exact p h))
InRange-IsRegistered (reset_ind p) h = (_, refl, omega arith, wrap reset_ind (version_lem p h))
InRange-IsRegistered (reset_conf p) h = (_, refl, omega arith, wrap reset_conf (version_lem p h))
InRange-IsRegistered (rekey_ind p) h = (_, refl, omega arith, wrap rekey_ind (version_lem p h))
InRange-IsRegistered (rekey_conf p) h = (_, refl, omega arith, wrap rekey_conf (version_lem p h))
InRange-IsRegistered (adr_param_setup_req p) h =
    (_, refl, omega arith, wrap adr_param_setup_req (adr_param_lem p h))
InRange-IsRegistered (force_rejoin_req p) h =
    (_, refl, omega arith, wrap force_rejoin_req (force_rejoin_req_lem p h))
InRange-IsRegistered (rejoin_param_setup_req p) h =
    (_, refl, omega arith, wrap rejoin_param_setup_req (rejoin_param_setup_req_lem p h))
InRange-IsRegistered (rejoin_param_setup_ans p) h =
    (_, refl, omega arith, wrap rejoin_param_setup_ans (rejoin_param_setup_ans_lem p))
InRange-IsRegistered (device_mode_ind p) h =
    (_, refl, omega arith, wrap device_mode_ind (device_mode_lem p h))
InRange-IsRegistered (device_mode_conf p) h =
    (_, refl, omega arith, wrap device_mode_conf (device_mode_lem p h))
InRange-IsRegistered (proprietary bs) h = absurd h
