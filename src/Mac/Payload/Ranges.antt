-- ===== src/Mac/Payload/Ranges.antt =====
-- The values that the payloads of MAC commands can hold, and those that they can carry.
use lorawan.Mac.Payload.{
  link_check_ans, link_adr_req, link_adr_ans, duty_cycle_req, rx_param_setup_req,
  rx_param_setup_ans, dev_status_ans, new_channel_req, new_channel_ans, rx_timing_setup_req,
  tx_param_setup_req, dl_channel_req, dl_channel_ans, ping_slot_info_req, beacon_freq_req,
  beacon_freq_ans, ping_slot_channel_req, ping_slot_channel_ans, device_time_ans, reset_ind,
  reset_conf, rekey_ind, rekey_conf, adr_param_setup_req, force_rejoin_req, rejoin_param_setup_req,
  rejoin_param_setup_ans, device_mode_ind, device_mode_conf, proprietary,
}
use lorawan.Prelude.{ℕ, Bool, ◌≡◌, false, length, true}
use lorawan.Mac.Payload.{MacCommandPayload}
use lorawan.Prelude.Bytes.{IsByte, Bytes}
use lorawan.Mac.Status.{DeviceTimeAnsPayload}
use lorawan.Mac.Link.RoundTrip.{LinkCheckAnsInRange, LinkAdrReqInRange}
use lorawan.Mac.Settings.RoundTrip.{
  DutyCycleReqInRange, RxParamSetupReqInRange, RxTimingSetupReqInRange, TxParamSetupReqInRange,
}
use lorawan.Mac.Status.RoundTrip.{DeviceTimeAnsExact, DevStatusAnsInRange}
use lorawan.Mac.Channel.RoundTrip.{NewChannelReqInRange, DlChannelReqInRange}
use lorawan.Mac.ClassB.RoundTrip.{
  PingSlotInfoReqInRange, BeaconFreqReqInRange, PingSlotChannelReqInRange,
}
use lorawan.Mac.Session.RoundTrip.{
  VersionInRange, AdrParamInRange, ForceRejoinReqInRange, RejoinParamSetupReqInRange,
  DeviceModeInRange,
}

-- What the Go types of the fields say: bytes, and the sixteen flags of a channel mask.
abbrev pub IsTyped : MacCommandPayload → Type 0
IsTyped (link_check_ans p) = IsByte p.margin × IsByte p.gw_cnt
IsTyped (link_adr_req p) = length p.ch_mask ≡ 16
IsTyped (link_adr_ans p) = Unit
IsTyped (duty_cycle_req p) = IsByte p.max_d_cycle
IsTyped (rx_param_setup_req p) = Unit
IsTyped (rx_param_setup_ans p) = Unit
IsTyped (dev_status_ans p) = IsByte p.battery
IsTyped (new_channel_req p) = IsByte p.ch_index
IsTyped (new_channel_ans p) = Unit
IsTyped (rx_timing_setup_req p) = Unit
IsTyped (tx_param_setup_req p) = Unit
IsTyped (dl_channel_req p) = IsByte p.ch_index
IsTyped (dl_channel_ans p) = Unit
IsTyped (ping_slot_info_req p) = Unit
IsTyped (beacon_freq_req p) = Unit
IsTyped (beacon_freq_ans p) = Unit
IsTyped (ping_slot_channel_req p) = Unit
IsTyped (ping_slot_channel_ans p) = Unit
IsTyped (device_time_ans p) = Unit
IsTyped (reset_ind p) = Unit
IsTyped (reset_conf p) = Unit
IsTyped (rekey_ind p) = Unit
IsTyped (rekey_conf p) = Unit
IsTyped (adr_param_setup_req p) = Unit
IsTyped (force_rejoin_req p) = Unit
IsTyped (rejoin_param_setup_req p) = Unit
IsTyped (rejoin_param_setup_ans p) = Unit
IsTyped (device_mode_ind p) = IsByte p.class
IsTyped (device_mode_conf p) = IsByte p.class
IsTyped (proprietary bs) = Unit

-- The payloads that `MarshalBinary` writes whatever they hold.
pub data AlwaysWritten : MacCommandPayload → Type 0 where
  always_time : (p : DeviceTimeAnsPayload) → AlwaysWritten (device_time_ans p)
  always_proprietary : (bs : Bytes) → AlwaysWritten (proprietary bs)

-- The values that come back from their bytes.
abbrev pub InRange : MacCommandPayload → Type 0
InRange (link_check_ans p) = LinkCheckAnsInRange p
InRange (link_adr_req p) = LinkAdrReqInRange p
InRange (link_adr_ans p) = Unit
InRange (duty_cycle_req p) = DutyCycleReqInRange p
InRange (rx_param_setup_req p) = RxParamSetupReqInRange p
InRange (rx_param_setup_ans p) = Unit
InRange (dev_status_ans p) = DevStatusAnsInRange p
InRange (new_channel_req p) = NewChannelReqInRange p
InRange (new_channel_ans p) = Unit
InRange (rx_timing_setup_req p) = RxTimingSetupReqInRange p
InRange (tx_param_setup_req p) = TxParamSetupReqInRange p
InRange (dl_channel_req p) = DlChannelReqInRange p
InRange (dl_channel_ans p) = Unit
InRange (ping_slot_info_req p) = PingSlotInfoReqInRange p
InRange (beacon_freq_req p) = BeaconFreqReqInRange p
InRange (beacon_freq_ans p) = Unit
InRange (ping_slot_channel_req p) = PingSlotChannelReqInRange p
InRange (ping_slot_channel_ans p) = Unit
InRange (device_time_ans p) = DeviceTimeAnsExact p
InRange (reset_ind p) = VersionInRange p
InRange (reset_conf p) = VersionInRange p
InRange (rekey_ind p) = VersionInRange p
InRange (rekey_conf p) = VersionInRange p
InRange (adr_param_setup_req p) = AdrParamInRange p
InRange (force_rejoin_req p) = ForceRejoinReqInRange p
InRange (rejoin_param_setup_req p) = RejoinParamSetupReqInRange p
InRange (rejoin_param_setup_ans p) = Unit
InRange (device_mode_ind p) = DeviceModeInRange p
InRange (device_mode_conf p) = DeviceModeInRange p
InRange (proprietary bs) = ⊥

-- The direction and the identifier of the command that carries the payload.
abbrev pub is_uplink_payload : MacCommandPayload → Bool
is_uplink_payload (link_check_ans _) = false
is_uplink_payload (link_adr_req _) = false
is_uplink_payload (link_adr_ans _) = true
is_uplink_payload (duty_cycle_req _) = false
is_uplink_payload (rx_param_setup_req _) = false
is_uplink_payload (rx_param_setup_ans _) = true
is_uplink_payload (dev_status_ans _) = true
is_uplink_payload (new_channel_req _) = false
is_uplink_payload (new_channel_ans _) = true
is_uplink_payload (rx_timing_setup_req _) = false
is_uplink_payload (tx_param_setup_req _) = false
is_uplink_payload (dl_channel_req _) = false
is_uplink_payload (dl_channel_ans _) = true
is_uplink_payload (ping_slot_info_req _) = true
is_uplink_payload (beacon_freq_req _) = false
is_uplink_payload (beacon_freq_ans _) = true
is_uplink_payload (ping_slot_channel_req _) = false
is_uplink_payload (ping_slot_channel_ans _) = true
is_uplink_payload (device_time_ans _) = false
is_uplink_payload (reset_ind _) = true
is_uplink_payload (reset_conf _) = false
is_uplink_payload (rekey_ind _) = true
is_uplink_payload (rekey_conf _) = false
is_uplink_payload (adr_param_setup_req _) = false
is_uplink_payload (force_rejoin_req _) = false
is_uplink_payload (rejoin_param_setup_req _) = false
is_uplink_payload (rejoin_param_setup_ans _) = true
is_uplink_payload (device_mode_ind _) = true
is_uplink_payload (device_mode_conf _) = false
is_uplink_payload (proprietary _) = false

abbrev pub cid_of : MacCommandPayload → ℕ
cid_of (link_check_ans _) = 0x02
cid_of (link_adr_req _) = 0x03
cid_of (link_adr_ans _) = 0x03
cid_of (duty_cycle_req _) = 0x04
cid_of (rx_param_setup_req _) = 0x05
cid_of (rx_param_setup_ans _) = 0x05
cid_of (dev_status_ans _) = 0x06
cid_of (new_channel_req _) = 0x07
cid_of (new_channel_ans _) = 0x07
cid_of (rx_timing_setup_req _) = 0x08
cid_of (tx_param_setup_req _) = 0x09
cid_of (dl_channel_req _) = 0x0a
cid_of (dl_channel_ans _) = 0x0a
cid_of (ping_slot_info_req _) = 0x10
cid_of (beacon_freq_req _) = 0x13
cid_of (beacon_freq_ans _) = 0x13
cid_of (ping_slot_channel_req _) = 0x11
cid_of (ping_slot_channel_ans _) = 0x11
cid_of (device_time_ans _) = 0x0d
cid_of (reset_ind _) = 0x01
cid_of (reset_conf _) = 0x01
cid_of (rekey_ind _) = 0x0b
cid_of (rekey_conf _) = 0x0b
cid_of (adr_param_setup_req _) = 0x0c
cid_of (force_rejoin_req _) = 0x0e
cid_of (rejoin_param_setup_req _) = 0x0f
cid_of (rejoin_param_setup_ans _) = 0x0f
cid_of (device_mode_ind _) = 0x20
cid_of (device_mode_conf _) = 0x20
cid_of (proprietary _) = 0
