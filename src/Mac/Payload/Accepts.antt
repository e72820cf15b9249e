-- ===== src/Mac/Payload/Accepts.antt =====
-- The errors of `MarshalBinary` of the payloads (mac_commands.go).
use lorawan.Mac.Payload.{
  link_check_ans, link_adr_req, link_adr_ans, duty_cycle_req, rx_param_setup_req,
  rx_param_setup_ans, dev_status_ans, new_channel_req, new_channel_ans, rx_timing_setup_req,
  tx_param_setup_req, dl_channel_req, dl_channel_ans, ping_slot_info_req, beacon_freq_req,
  beacon_freq_ans, ping_slot_channel_req, ping_slot_channel_ans, device_time_ans, reset_ind,
  reset_conf, rekey_ind, rekey_conf, adr_param_setup_req, force_rejoin_req, rejoin_param_setup_req,
  rejoin_param_setup_ans, device_mode_ind, device_mode_conf, proprietary,
}
use lorawan.Prelude.{◌≡◌, ok, arith, inl, ◌↔◌, ◌⊎◌, inr, refl}
use lorawan.Mac.Payload.{MacCommandPayload, marshal_payload}
use lorawan.Mac.Session.{
  marshal_adr_param, marshal_device_mode, marshal_force_rejoin_req, marshal_rejoin_param_setup_req,
  marshal_version,
}
use lorawan.Prelude.Bytes.{Bytes}
use lorawan.Mac.ClassB.{
  marshal_beacon_freq_req, marshal_ping_slot_channel_req, marshal_ping_slot_info_req,
}
use lorawan.Mac.Status.{marshal_dev_status_ans, marshal_device_time_ans}
use lorawan.Mac.Channel.{marshal_dl_channel_req, marshal_new_channel_req}
use lorawan.Mac.Settings.{
  marshal_dl_settings, marshal_duty_cycle_req, marshal_rx_param_setup_req,
  marshal_rx_timing_setup_req, marshal_tx_param_setup_req,
}
use lorawan.Mac.Link.{marshal_link_adr_req, marshal_link_check_ans, marshal_redundancy}
use lorawan.Mac.Payload.RoundTrip.{InRange-IsRegistered}
use lorawan.Mac.Payload.Ranges.{AlwaysWritten, always_time, always_proprietary, IsTyped, InRange}

-- What is written.
abbrev pub IsAccepted : MacCommandPayload → Type 0
IsAccepted p = InRange p ⊎ AlwaysWritten p

marshal_payload-IsAccepted :
    (p : MacCommandPayload) (bs : Bytes) → IsTyped p → marshal_payload p ≡ ok bs → IsAccepted p
unfolding marshal_payload marshal_adr_param marshal_beacon_freq_req marshal_dev_status_ans
    marshal_device_mode marshal_dl_channel_req marshal_dl_settings marshal_duty_cycle_req
    marshal_force_rejoin_req marshal_link_adr_req marshal_link_check_ans marshal_new_channel_req
    marshal_ping_slot_channel_req marshal_ping_slot_info_req marshal_redundancy
    marshal_rejoin_param_setup_req marshal_rx_param_setup_req marshal_rx_timing_setup_req
    marshal_tx_param_setup_req marshal_version
marshal_payload-IsAccepted (link_check_ans p) bs t e = inl t
marshal_payload-IsAccepted (link_adr_req p) bs t e = inl (ground arith)
marshal_payload-IsAccepted (link_adr_ans p) bs t e = inl tt
marshal_payload-IsAccepted (duty_cycle_req p) bs t e = inl (ground arith)
marshal_payload-IsAccepted (rx_param_setup_req p) bs t e = inl (ground arith)
marshal_payload-IsAccepted (rx_param_setup_ans p) bs t e = inl tt
marshal_payload-IsAccepted (dev_status_ans p) bs t e = inl (ground arith)
marshal_payload-IsAccepted (new_channel_req p) bs t e = inl (ground arith)
marshal_payload-IsAccepted (new_channel_ans p) bs t e = inl tt
marshal_payload-IsAccepted (rx_timing_setup_req p) bs t e = inl (ground arith)
marshal_payload-IsAccepted (tx_param_setup_req p) bs t e = inl (ground arith)
marshal_payload-IsAccepted (dl_channel_req p) bs t e = inl (ground arith)
marshal_payload-IsAccepted (dl_channel_ans p) bs t e = inl tt
marshal_payload-IsAccepted (ping_slot_info_req p) bs t e = inl (ground arith)
marshal_payload-IsAccepted (beacon_freq_req p) bs t e = inl (ground arith)
marshal_payload-IsAccepted (beacon_freq_ans p) bs t e = inl tt
marshal_payload-IsAccepted (ping_slot_channel_req p) bs t e = inl (ground arith)
marshal_payload-IsAccepted (ping_slot_channel_ans p) bs t e = inl tt
marshal_payload-IsAccepted (device_time_ans p) bs t e = inr (always_time p)
marshal_payload-IsAccepted (reset_ind p) bs t e = inl (ground arith)
marshal_payload-IsAccepted (reset_conf p) bs t e = inl (ground arith)
marshal_payload-IsAccepted (rekey_ind p) bs t e = inl (ground arith)
marshal_payload-IsAccepted (rekey_conf p) bs t e = inl (ground arith)
marshal_payload-IsAccepted (adr_param_setup_req p) bs t e = inl (ground arith)
marshal_payload-IsAccepted (force_rejoin_req p) bs t e = inl (ground arith)
marshal_payload-IsAccepted (rejoin_param_setup_req p) bs t e = inl (ground arith)
marshal_payload-IsAccepted (rejoin_param_setup_ans p) bs t e = inl tt
marshal_payload-IsAccepted (device_mode_ind p) bs t e = inl t
marshal_payload-IsAccepted (device_mode_conf p) bs t e = inl t
marshal_payload-IsAccepted (proprietary bs) _ t e = inr (always_proprietary bs)

always-written :
    (p : MacCommandPayload) → AlwaysWritten p → (bs : Bytes) × (marshal_payload p ≡ ok bs)
unfolding marshal_payload marshal_device_time_ans
always-written _ (always_time p) = (_, refl)
always-written _ (always_proprietary bs) = (bs, refl)

-- For a MAC command payload whose bytes and channel masks fit their Go types, MarshalBinary
-- returns bytes exactly when the payload is in range, or is a device time or proprietary bytes,
-- which are never refused: every other value has an error.
pub marshal_payload_iff :
    (p : MacCommandPayload)
    → IsTyped p
    → ((bs : Bytes) × (marshal_payload p ≡ ok bs)) ↔ IsAccepted p
marshal_payload_iff p t = (
  λ (bs, e). marshal_payload-IsAccepted p bs t e,
  λ accepted. elim accepted [
    | inl h ↦ let (info, found, size, (bs, e, _, _, _)) = InRange-IsRegistered p h in (bs, e)
    | inr h ↦ always-written p h
  ],
)
