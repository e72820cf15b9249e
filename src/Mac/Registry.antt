-- ===== src/Mac/Registry.antt =====
-- The registry of mac_commands.go, which sizes the payload of each command.
pub mod Sizes
pub mod Register
pub mod Reachable
use lorawan.Prelude.{
  ℕ, Bool, true, false, Option, none, some, List, [], ◌∷◌, Result, ok, err, leb, ◌==◌,
  if◌then◌else◌, not, ◌&&◌, message,
}
use lorawan.Mac.Link.{zero_link_adr_req, zero_link_adr_ans}
use lorawan.Mac.Settings.{zero_tx_param_setup_req}
use lorawan.Prelude.Int.{pos}
use lorawan.Mac.Session.{Version}
use lorawan.Mac.Payload.{
  MacCommandPayload, link_check_ans, link_adr_req, link_adr_ans, duty_cycle_req, rx_param_setup_req,
  rx_param_setup_ans, dev_status_ans, new_channel_req, new_channel_ans, rx_timing_setup_req,
  tx_param_setup_req, dl_channel_req, dl_channel_ans, ping_slot_info_req, beacon_freq_req,
  beacon_freq_ans, ping_slot_channel_req, ping_slot_channel_ans, device_time_ans, reset_ind,
  reset_conf, rekey_ind, rekey_conf, adr_param_setup_req, force_rejoin_req, rejoin_param_setup_req,
  rejoin_param_setup_ans, device_mode_ind, device_mode_conf, proprietary,
}

-- `macPayloadInfo`: the size, and the zero value that `payload()` returns
pub record MacPayloadInfo : Type 0 where
  pub size : ℕ
  pub payload : MacCommandPayload

abbrev entry : ℕ → MacCommandPayload → MacPayloadInfo
entry n p = record { size = n; payload = p }

abbrev z_version : Version
z_version = record { minor = 0 }

-- `macPayloadRegistry`, a map for each direction, as association lists. The mutex that guards it
-- makes each access one step.
pub record MacPayloadRegistry : Type 0 where
  pub downlink : List (ℕ × MacPayloadInfo)
  pub uplink : List (ℕ × MacPayloadInfo)

abbrev pub default_registry : MacPayloadRegistry
default_registry = record {
  downlink =
      (0x01, entry 1 (reset_conf z_version))
      ∷ (0x02, entry 2 (link_check_ans (record { margin = 0; gw_cnt = 0 })))
      ∷ (0x03, entry 4 (link_adr_req zero_link_adr_req))
      ∷ (0x04, entry 1 (duty_cycle_req (record { max_d_cycle = 0 })))
      ∷ (
        0x05,
        entry 4 (
            rx_param_setup_req (record {
              frequency = 0;
              dl_settings = record { opt_neg = false; rx2_data_rate = 0; rx1_dr_offset = 0 };
            })),
      )
      ∷ (
        0x07,
        entry 5 (new_channel_req (record { ch_index = 0; freq = 0; max_dr = 0; min_dr = 0 })),
      )
      ∷ (0x08, entry 1 (rx_timing_setup_req (record { delay = 0 })))
      ∷ (0x09, entry 1 (tx_param_setup_req zero_tx_param_setup_req))
      ∷ (0x0a, entry 4 (dl_channel_req (record { ch_index = 0; freq = 0 })))
      ∷ (0x13, entry 3 (beacon_freq_req (record { frequency = 0 })))
      ∷ (0x11, entry 4 (ping_slot_channel_req (record { frequency = 0; dr = 0 })))
      ∷ (0x0d, entry 5 (device_time_ans (record { time_since_gps_epoch = pos 0 })))
      ∷ (0x0b, entry 1 (rekey_conf z_version))
      ∷ (0x0c, entry 1 (adr_param_setup_req (record { limit_exp = 0; delay_exp = 0 })))
      ∷ (
        0x0e,
        entry 2
            (force_rejoin_req (record { period = 0; max_retries = 0; rejoin_type = 0; dr = 0 })),
      )
      ∷ (0x0f, entry 1 (rejoin_param_setup_req (record { max_time_n = 0; max_count_n = 0 })))
      ∷ (0x20, entry 1 (device_mode_conf (record { class = 0 })))
      ∷ [];
  uplink =
      (0x01, entry 1 (reset_ind z_version))
      ∷ (0x03, entry 1 (link_adr_ans zero_link_adr_ans))
      ∷ (
        0x05,
        entry 1 (
            rx_param_setup_ans (record {
              channel_ack = false;
              rx2_data_rate_ack = false;
              rx1_dr_offset_ack = false;
            })),
      )
      ∷ (0x06, entry 2 (dev_status_ans (record { battery = 0; margin = pos 0 })))
      ∷ (
        0x07,
        entry 1
            (new_channel_ans (record { channel_frequency_ok = false; data_rate_range_ok = false })),
      )
      ∷ (
        0x0a,
        entry 1 (
            dl_channel_ans
              (record { uplink_frequency_exists = false; channel_frequency_ok = false })),
      )
      ∷ (0x10, entry 1 (ping_slot_info_req (record { periodicity = 0 })))
      ∷ (0x13, entry 1 (beacon_freq_ans (record { beacon_frequency_ok = false })))
      ∷ (
        0x11,
        entry 1
            (ping_slot_channel_ans (record { data_rate_ok = false; channel_frequency_ok = false })),
      )
      ∷ (0x0b, entry 1 (rekey_ind z_version))
      ∷ (0x0f, entry 1 (rejoin_param_setup_ans (record { time_ok = false })))
      ∷ (0x20, entry 1 (device_mode_ind (record { class = 0 })))
      ∷ [];
}

unfoldable pub lookup_cid : ℕ → List (ℕ × MacPayloadInfo) → Option MacPayloadInfo
lookup_cid c [] = none
lookup_cid c ((d, info) ∷ m) = if d == c then some info else lookup_cid c m

abbrev pub direction : MacPayloadRegistry → Bool → List (ℕ × MacPayloadInfo)
direction reg true = reg.uplink
direction reg false = reg.downlink

unfoldable pub get_mac_payload_and_size : MacPayloadRegistry → Bool → ℕ → Result MacPayloadInfo
get_mac_payload_and_size reg uplink c = elim (lookup_cid c (direction reg uplink)) [
  | none ↦ err (message "payload unknown")
  | some info ↦ ok info
]

-- A write of a map entry puts it in front, where `lookup_cid` finds it first.
unfoldable pub register_proprietary_mac_command :
    MacPayloadRegistry → Bool → ℕ → ℕ → MacPayloadRegistry × Result (Unit {0})
register_proprietary_mac_command reg uplink cid payload_size =
    if not (leb 128 cid && leb cid 255)
    then (reg, err (message "invalid CID"))
    else if payload_size == 0
    then (reg, ok tt)
    else let e : ℕ × MacPayloadInfo = (cid, entry payload_size (proprietary [])) in
      (
        (if uplink
            then record reg { uplink = e ∷ reg.uplink }
            else record reg { downlink = e ∷ reg.downlink }),
        ok tt,
      )
