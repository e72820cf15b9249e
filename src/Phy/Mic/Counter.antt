-- ===== src/Phy/Mic/Counter.antt =====
-- The confirmed frame counter in the integrity codes of phypayload.go.
use lorawan.Prelude.{ℕ, ◌≡◌, some, false, ◌⊎◌, ◌%◌, ◌^◌, not, arith, refl, ◌||◌, inl, inr}
use lorawan.Phy.Primitives.{Cmac}
use lorawan.Phy.Packet.{PhyPayload, mac_payload}
use lorawan.Frame.Body.{MacPayload}
use lorawan.Phy.Mic.{
  calculate_downlink_data_mic, calculate_uplink_data_mic, MacVersion, lorawan1_0, conf_counter,
  is_1_0,
}
use lorawan.Prelude.Bytes.{Bytes}

module _ (C : Cmac) (p : PhyPayload) (m : MacPayload) where
  -- For a data frame the uplink MIC is the same at any two confirmed frame counters when the
  -- frame has no ACK, and otherwise at any two that agree modulo 2 ^ 16.
  pub uplink_counter :
      p.contents ≡ some (mac_payload m)
      → (v : MacVersion) (conf conf' dr ch : ℕ) (f_key s_key : Bytes)
      → (m.fhdr.f_ctrl.ack ≡ false) ⊎ (conf % 2 ^ 16 ≡ conf' % 2 ^ 16)
      → calculate_uplink_data_mic C p v conf dr ch f_key s_key
        ≡ calculate_uplink_data_mic C p v conf' dr ch f_key s_key
  unfolding calculate_uplink_data_mic
  uplink_counter c v conf conf' dr ch f_key s_key h =
      let same : conf_counter m.fhdr.f_ctrl.ack conf ≡ conf_counter m.fhdr.f_ctrl.ack conf' =
        ground (arith, h) in
      rw (c, same) refl

  -- For a data frame the downlink MIC is the same at any two confirmed frame counters in version
  -- 1.0, or when the frame has no ACK, and otherwise at any two that agree modulo 2 ^ 16.
  pub downlink_counter :
      p.contents ≡ some (mac_payload m)
      → (v : MacVersion) (conf conf' : ℕ) (s_key : Bytes)
      → (v ≡ lorawan1_0) ⊎ (m.fhdr.f_ctrl.ack ≡ false) ⊎ (conf % 2 ^ 16 ≡ conf' % 2 ^ 16)
      → calculate_downlink_data_mic C p v conf s_key ≡ calculate_downlink_data_mic C p v conf' s_key
  unfolding calculate_downlink_data_mic
  downlink_counter c v conf conf' s_key h =
      let acks = not (is_1_0 v || not m.fhdr.f_ctrl.ack) in
      let same : conf_counter acks conf ≡ conf_counter acks conf' = elim h [
        | inl old ↦ rw old refl
        | inr rest ↦ ground (arith, rest)
      ] in
      rw (c, same) refl
