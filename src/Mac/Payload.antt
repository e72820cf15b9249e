-- ===== src/Mac/Payload.antt =====
-- The payloads of MAC commands behind their interface (mac_commands.go).
pub mod Ranges
pub mod RoundTrip
pub mod Accepts
use lorawan.Prelude.{Result, ok, ◌>>=◌}
use lorawan.Prelude.Bytes.{Bytes}
use lorawan.Mac.Link.{
  LinkCheckAnsPayload, marshal_link_check_ans, unmarshal_link_check_ans, LinkAdrReqPayload,
  marshal_link_adr_req, unmarshal_link_adr_req, LinkAdrAnsPayload, marshal_link_adr_ans,
  unmarshal_link_adr_ans,
}
use lorawan.Mac.Settings.{
  DutyCycleReqPayload, marshal_duty_cycle_req, unmarshal_duty_cycle_req, RxParamSetupReqPayload,
  marshal_rx_param_setup_req, unmarshal_rx_param_setup_req, RxParamSetupAnsPayload,
  marshal_rx_param_setup_ans, unmarshal_rx_param_setup_ans, RxTimingSetupReqPayload,
  marshal_rx_timing_setup_req, unmarshal_rx_timing_setup_req, TxParamSetupReqPayload,
  marshal_tx_param_setup_req, unmarshal_tx_param_setup_req,
}
use lorawan.Mac.Status.{
  DevStatusAnsPayload, marshal_dev_status_ans, unmarshal_dev_status_ans, DeviceTimeAnsPayload,
  marshal_device_time_ans, unmarshal_device_time_ans,
}
use lorawan.Mac.Channel.{
  NewChannelReqPayload, marshal_new_channel_req, unmarshal_new_channel_req, NewChannelAnsPayload,
  marshal_new_channel_ans, unmarshal_new_channel_ans, DlChannelReqPayload, marshal_dl_channel_req,
  unmarshal_dl_channel_req, DlChannelAnsPayload, marshal_dl_channel_ans, unmarshal_dl_channel_ans,
}
use lorawan.Mac.ClassB.{
  PingSlotInfoReqPayload, marshal_ping_slot_info_req, unmarshal_ping_slot_info_req,
  BeaconFreqReqPayload, marshal_beacon_freq_req, unmarshal_beacon_freq_req, BeaconFreqAnsPayload,
  marshal_beacon_freq_ans, unmarshal_beacon_freq_ans, PingSlotChannelReqPayload,
  marshal_ping_slot_channel_req, unmarshal_ping_slot_channel_req, PingSlotChannelAnsPayload,
  marshal_ping_slot_channel_ans, unmarshal_ping_slot_channel_ans,
}
use lorawan.Mac.Session.{
  Version, marshal_version, unmarshal_version, AdrParam, marshal_adr_param, unmarshal_adr_param,
  ForceRejoinReqPayload, marshal_force_rejoin_req, unmarshal_force_rejoin_req,
  RejoinParamSetupReqPayload, marshal_rejoin_param_setup_req, unmarshal_rejoin_param_setup_req,
  RejoinParamSetupAnsPayload, marshal_rejoin_param_setup_ans, unmarshal_rejoin_param_setup_ans,
  DeviceModePayload, marshal_device_mode, unmarshal_device_mode,
}

-- The dynamic types behind the interface `MACCommandPayload`.
pub data MacCommandPayload : Type 0 where
  proprietary : Bytes → MacCommandPayload
  link_check_ans : LinkCheckAnsPayload → MacCommandPayload
  link_adr_req : LinkAdrReqPayload → MacCommandPayload
  link_adr_ans : LinkAdrAnsPayload → MacCommandPayload
  duty_cycle_req : DutyCycleReqPayload → MacCommandPayload
  rx_param_setup_req : RxParamSetupReqPayload → MacCommandPayload
  rx_param_setup_ans : RxParamSetupAnsPayload → MacCommandPayload
  dev_status_ans : DevStatusAnsPayload → MacCommandPayload
  new_channel_req : NewChannelReqPayload → MacCommandPayload
  new_channel_ans : NewChannelAnsPayload → MacCommandPayload
  rx_timing_setup_req : RxTimingSetupReqPayload → MacCommandPayload
  tx_param_setup_req : TxParamSetupReqPayload → MacCommandPayload
  dl_channel_req : DlChannelReqPayload → MacCommandPayload
  dl_channel_ans : DlChannelAnsPayload → MacCommandPayload
  ping_slot_info_req : PingSlotInfoReqPayload → MacCommandPayload
  beacon_freq_req : BeaconFreqReqPayload → MacCommandPayload
  beacon_freq_ans : BeaconFreqAnsPayload → MacCommandPayload
  ping_slot_channel_req : PingSlotChannelReqPayload → MacCommandPayload
  ping_slot_channel_ans : PingSlotChannelAnsPayload → MacCommandPayload
  device_time_ans : DeviceTimeAnsPayload → MacCommandPayload
  reset_ind reset_conf rekey_ind rekey_conf : Version → MacCommandPayload
  adr_param_setup_req : AdrParam → MacCommandPayload
  force_rejoin_req : ForceRejoinReqPayload → MacCommandPayload
  rejoin_param_setup_req : RejoinParamSetupReqPayload → MacCommandPayload
  rejoin_param_setup_ans : RejoinParamSetupAnsPayload → MacCommandPayload
  device_mode_ind device_mode_conf : DeviceModePayload → MacCommandPayload

-- `Payload.MarshalBinary()` by the dynamic type
unfoldable pub marshal_payload : MacCommandPayload → Result Bytes
marshal_payload (proprietary bs) = ok bs
marshal_payload (link_check_ans p) = marshal_link_check_ans p
marshal_payload (link_adr_req p) = marshal_link_adr_req p
marshal_payload (link_adr_ans p) = marshal_link_adr_ans p
marshal_payload (duty_cycle_req p) = marshal_duty_cycle_req p
marshal_payload (rx_param_setup_req p) = marshal_rx_param_setup_req p
marshal_payload (rx_param_setup_ans p) = marshal_rx_param_setup_ans p
marshal_payload (dev_status_ans p) = marshal_dev_status_ans p
marshal_payload (new_channel_req p) = marshal_new_channel_req p
marshal_payload (new_channel_ans p) = marshal_new_channel_ans p
marshal_payload (rx_timing_setup_req p) = marshal_rx_timing_setup_req p
marshal_payload (tx_param_setup_req p) = marshal_tx_param_setup_req p
marshal_payload (dl_channel_req p) = marshal_dl_channel_req p
marshal_payload (dl_channel_ans p) = marshal_dl_channel_ans p
marshal_payload (ping_slot_info_req p) = marshal_ping_slot_info_req p
marshal_payload (beacon_freq_req p) = marshal_beacon_freq_req p
marshal_payload (beacon_freq_ans p) = marshal_beacon_freq_ans p
marshal_payload (ping_slot_channel_req p) = marshal_ping_slot_channel_req p
marshal_payload (ping_slot_channel_ans p) = marshal_ping_slot_channel_ans p
marshal_payload (device_time_ans p) = marshal_device_time_ans p
marshal_payload (reset_ind v) = marshal_version v
marshal_payload (reset_conf v) = marshal_version v
marshal_payload (rekey_ind v) = marshal_version v
marshal_payload (rekey_conf v) = marshal_version v
marshal_payload (adr_param_setup_req p) = marshal_adr_param p
marshal_payload (force_rejoin_req p) = marshal_force_rejoin_req p
marshal_payload (rejoin_param_setup_req p) = marshal_rejoin_param_setup_req p
marshal_payload (rejoin_param_setup_ans p) = marshal_rejoin_param_setup_ans p
marshal_payload (device_mode_ind p) = marshal_device_mode p
marshal_payload (device_mode_conf p) = marshal_device_mode p

-- `f` on the result of a decoder
abbrev pub map_ok {ℓ κ} : {A : Type ℓ} {B : Type κ} → (A → B) → Result A → Result B
map_ok f r = r >>= λ a. ok (f a)

-- `Payload.UnmarshalBinary(data)` by the dynamic type of the receiver. Each of these returns its
-- error before it writes to the receiver.
unfoldable pub unmarshal_payload : MacCommandPayload → Bytes → Result MacCommandPayload
unmarshal_payload (proprietary _) bs = ok (proprietary bs)
unmarshal_payload (link_check_ans _) bs = map_ok link_check_ans (unmarshal_link_check_ans bs)
unmarshal_payload (link_adr_req p) bs = map_ok link_adr_req (unmarshal_link_adr_req p bs)
unmarshal_payload (link_adr_ans p) bs = map_ok link_adr_ans (unmarshal_link_adr_ans p bs)
unmarshal_payload (duty_cycle_req _) bs = map_ok duty_cycle_req (unmarshal_duty_cycle_req bs)
unmarshal_payload (rx_param_setup_req _) bs =
    map_ok rx_param_setup_req (unmarshal_rx_param_setup_req bs)
unmarshal_payload (rx_param_setup_ans _) bs =
    map_ok rx_param_setup_ans (unmarshal_rx_param_setup_ans bs)
unmarshal_payload (dev_status_ans _) bs = map_ok dev_status_ans (unmarshal_dev_status_ans bs)
unmarshal_payload (new_channel_req _) bs = map_ok new_channel_req (unmarshal_new_channel_req bs)
unmarshal_payload (new_channel_ans _) bs = map_ok new_channel_ans (unmarshal_new_channel_ans bs)
unmarshal_payload (rx_timing_setup_req _) bs =
    map_ok rx_timing_setup_req (unmarshal_rx_timing_setup_req bs)
unmarshal_payload (tx_param_setup_req p) bs =
    map_ok tx_param_setup_req (unmarshal_tx_param_setup_req p bs)
unmarshal_payload (dl_channel_req _) bs = map_ok dl_channel_req (unmarshal_dl_channel_req bs)
unmarshal_payload (dl_channel_ans _) bs = map_ok dl_channel_ans (unmarshal_dl_channel_ans bs)
unmarshal_payload (ping_slot_info_req _) bs =
    map_ok ping_slot_info_req (unmarshal_ping_slot_info_req bs)
unmarshal_payload (beacon_freq_req _) bs = map_ok beacon_freq_req (unmarshal_beacon_freq_req bs)
unmarshal_payload (beacon_freq_ans _) bs = map_ok beacon_freq_ans (unmarshal_beacon_freq_ans bs)
unmarshal_payload (ping_slot_channel_req _) bs =
    map_ok ping_slot_channel_req (unmarshal_ping_slot_channel_req bs)
unmarshal_payload (ping_slot_channel_ans _) bs =
    map_ok ping_slot_channel_ans (unmarshal_ping_slot_channel_ans bs)
unmarshal_payload (device_time_ans _) bs = map_ok device_time_ans (unmarshal_device_time_ans bs)
unmarshal_payload (reset_ind _) bs = map_ok reset_ind (unmarshal_version bs)
unmarshal_payload (reset_conf _) bs = map_ok reset_conf (unmarshal_version bs)
unmarshal_payload (rekey_ind _) bs = map_ok rekey_ind (unmarshal_version bs)
unmarshal_payload (rekey_conf _) bs = map_ok rekey_conf (unmarshal_version bs)
unmarshal_payload (adr_param_setup_req _) bs = map_ok adr_param_setup_req (unmarshal_adr_param bs)
unmarshal_payload (force_rejoin_req _) bs = map_ok force_rejoin_req (unmarshal_force_rejoin_req bs)
unmarshal_payload (rejoin_param_setup_req _) bs =
    map_ok rejoin_param_setup_req (unmarshal_rejoin_param_setup_req bs)
unmarshal_payload (rejoin_param_setup_ans _) bs =
    map_ok rejoin_param_setup_ans (unmarshal_rejoin_param_setup_ans bs)
unmarshal_payload (device_mode_ind _) bs = map_ok device_mode_ind (unmarshal_device_mode bs)
unmarshal_payload (device_mode_conf _) bs = map_ok device_mode_conf (unmarshal_device_mode bs)
