-- ===== src/Mac/Registry/Sizes.antt =====
-- The sizes in the registry of mac_commands.go and the decoders of its payloads.
use lorawan.Prelude.{
  ℕ, Result, Bool, List, ok, All, err, length, ◌≡◌, some, [], ◌∷◌, Bool-cases, arith, true, ◌==◌,
  false, inl, subst, inr,
}
use lorawan.Mac.Registry.{
  MacPayloadInfo, MacPayloadRegistry, lookup_cid, get_mac_payload_and_size, default_registry,
}
use lorawan.Prelude.Bytes.{Bytes, Bytewise, bytewise}
use lorawan.Mac.Payload.{unmarshal_payload}
use lorawan.Mac.Link.{
  unmarshal_link_check_ans, unmarshal_link_adr_req, unmarshal_link_adr_ans, unmarshal_ch_mask,
  unmarshal_redundancy,
}
use lorawan.Mac.Settings.{
  unmarshal_duty_cycle_req, unmarshal_rx_param_setup_req, unmarshal_dl_settings,
  unmarshal_rx_param_setup_ans, unmarshal_rx_timing_setup_req, unmarshal_tx_param_setup_req,
}
use lorawan.Mac.Status.{unmarshal_dev_status_ans, unmarshal_device_time_ans}
use lorawan.Mac.Channel.{
  unmarshal_new_channel_req, unmarshal_new_channel_ans, unmarshal_dl_channel_req,
  unmarshal_dl_channel_ans,
}
use lorawan.Mac.ClassB.{
  unmarshal_ping_slot_info_req, unmarshal_beacon_freq_req, unmarshal_beacon_freq_ans,
  unmarshal_ping_slot_channel_req, unmarshal_ping_slot_channel_ans,
}
use lorawan.Mac.Session.{
  unmarshal_version, unmarshal_adr_param, unmarshal_force_rejoin_req,
  unmarshal_rejoin_param_setup_req, unmarshal_rejoin_param_setup_ans, unmarshal_device_mode,
}

abbrev pub IsOk {ℓ} : {A : Type ℓ} → Result A → Type 0
IsOk (ok a) = Unit
IsOk (err e) = ⊥

-- The decoder of the entry returns no error on as many bytes as the entry says.
abbrev pub AcceptsSize : MacPayloadInfo → Type 0
AcceptsSize info = (bs : Bytes) → length bs ≡ info.size → IsOk (unmarshal_payload info.payload bs)

abbrev pub FitsSizes : MacPayloadRegistry → Type 0
FitsSizes reg =
    (uplink : Bool) (c : ℕ) (info : MacPayloadInfo)
    → get_mac_payload_and_size reg uplink c ≡ ok info
    → AcceptsSize info

pub lookup_cid-All :
    (P : MacPayloadInfo → Type 0) (m : List (ℕ × MacPayloadInfo)) (c : ℕ) (info : MacPayloadInfo)
    → All (λ (e : ℕ × MacPayloadInfo). P e.1) m
    → lookup_cid c m ≡ some info
    → P info
unfolding lookup_cid
lookup_cid-All P [] c info h e = cc
lookup_cid-All P ((d, i) ∷ m) c info h e = elim (Bool-cases (d == c)) [
  | inl same ↦ let found : i ≡ info = ground arith in subst P found h.0
  | inr other ↦ lookup_cid-All P m c info h.1 (rw other at e)
]

abbrev AcceptsBytewise : ℕ × MacPayloadInfo → Type 0
AcceptsBytewise (c, info) = Bytewise info.size (λ bs. IsOk (unmarshal_payload info.payload bs))

accepts-All :
    (m : List (ℕ × MacPayloadInfo))
    → All AcceptsBytewise m
    → All (λ (e : ℕ × MacPayloadInfo). AcceptsSize e.1) m
accepts-All [] h = tt
accepts-All ((c, info) ∷ m) h =
    (bytewise info.size (λ bs. IsOk (unmarshal_payload info.payload bs)) h.0, accepts-All m h.1)

-- One entry more.
infixr 20 ◌▹◌
abbrev ◌▹◌ : {A B : Type 0} → A → B → A × B
a ▹ b = (a, b)

downlink_sizes : All AcceptsBytewise default_registry.downlink
unfolding unmarshal_payload unmarshal_link_check_ans unmarshal_link_adr_req unmarshal_link_adr_ans
    unmarshal_ch_mask unmarshal_redundancy unmarshal_duty_cycle_req unmarshal_rx_param_setup_req
    unmarshal_dl_settings unmarshal_rx_param_setup_ans unmarshal_dev_status_ans
    unmarshal_new_channel_req unmarshal_new_channel_ans unmarshal_rx_timing_setup_req
    unmarshal_tx_param_setup_req unmarshal_dl_channel_req unmarshal_dl_channel_ans
    unmarshal_ping_slot_info_req unmarshal_beacon_freq_req unmarshal_beacon_freq_ans
    unmarshal_ping_slot_channel_req unmarshal_ping_slot_channel_ans unmarshal_device_time_ans
    unmarshal_version unmarshal_adr_param unmarshal_force_rejoin_req
    unmarshal_rejoin_param_setup_req unmarshal_rejoin_param_setup_ans unmarshal_device_mode
downlink_sizes =
    (λ a. tt)
    ▹ (λ a b. tt)
    ▹ (λ a b c d. tt)
    ▹ (λ a. tt)
    ▹ (λ a b c d. tt)
    ▹ (λ a b c d e. tt)
    ▹ (λ a. tt)
    ▹ (λ a. tt)
    ▹ (λ a b c d. tt)
    ▹ (λ a b c. tt)
    ▹ (λ a b c d. tt)
    ▹ (λ a b c d e. tt)
    ▹ (λ a. tt)
    ▹ (λ a. tt)
    ▹ (λ a b. tt)
    ▹ (λ a. tt)
    ▹ (λ a. tt)
    ▹ tt

uplink_sizes : All AcceptsBytewise default_registry.uplink
unfolding unmarshal_payload unmarshal_link_check_ans unmarshal_link_adr_req unmarshal_link_adr_ans
    unmarshal_ch_mask unmarshal_redundancy unmarshal_duty_cycle_req unmarshal_rx_param_setup_req
    unmarshal_dl_settings unmarshal_rx_param_setup_ans unmarshal_dev_status_ans
    unmarshal_new_channel_req unmarshal_new_channel_ans unmarshal_rx_timing_setup_req
    unmarshal_tx_param_setup_req unmarshal_dl_channel_req unmarshal_dl_channel_ans
    unmarshal_ping_slot_info_req unmarshal_beacon_freq_req unmarshal_beacon_freq_ans
    unmarshal_ping_slot_channel_req unmarshal_ping_slot_channel_ans unmarshal_device_time_ans
    unmarshal_version unmarshal_adr_param unmarshal_force_rejoin_req
    unmarshal_rejoin_param_setup_req unmarshal_rejoin_param_setup_ans unmarshal_device_mode
uplink_sizes =
    (λ a. tt)
    ▹ (λ a. tt)
    ▹ (λ a. tt)
    ▹ (λ a b. tt)
    ▹ (λ a. tt)
    ▹ (λ a. tt)
    ▹ (λ a. tt)
    ▹ (λ a. tt)
    ▹ (λ a. tt)
    ▹ (λ a. tt)
    ▹ (λ a. tt)
    ▹ (λ a. tt)
    ▹ tt

-- Each entry of the default registry decodes every byte string of its size without an error.
pub default_registry-FitsSizes : FitsSizes default_registry
unfolding get_mac_payload_and_size
default_registry-FitsSizes true c info e =
    lookup_cid-All AcceptsSize default_registry.uplink c info
      (accepts-All default_registry.uplink uplink_sizes) (ground arith)
default_registry-FitsSizes false c info e =
    lookup_cid-All AcceptsSize default_registry.downlink c info
      (accepts-All default_registry.downlink downlink_sizes) (ground arith)
