-- ===== src/Phy/Mic/Forwarding.antt =====
-- ValidateUplinkDataMICF of phypayload.go, against SetUplinkDataMIC.
use lorawan.Prelude.{
  ℕ, [], ◌∷◌, ◌++◌, ◌≤◌, ◌≡◌, ok, length, some, ltb, false, arith, refl, drop, bit_or, bit_and,
  reverse, take, length-take, drop-append,
}
use lorawan.Phy.Primitives.{Cmac, IsCmac}
use lorawan.Phy.Mic.{
  cmac_sum, set_uplink_data_mic, validate_uplink_data_micf, write_all, calculate_uplink_data_mic,
  lorawan1_1, mic_block, conf_counter,
}
use lorawan.Prelude.Bytes.{Bytes, IsArray, bytes_eq, put_uint16}
use lorawan.Phy.Packet.{marshal_mhdr, PhyPayload, mac_payload}
use lorawan.Ident.{marshal_dev_addr}
use lorawan.Frame.Body.{MacPayload, marshal_mac_payload}
use lorawan.Prelude.Bits.{shl}

module _ (C : Cmac) (laws : IsCmac C) where
  -- With a hash as documented the sum of two parts has sixteen bytes.
  cmac_sum_two :
      (key x y : Bytes) (least : ℕ)
      → IsArray 16 key
      → least ≤ 16
      → (s : Bytes) × (cmac_sum C key (x ∷ y ∷ []) least ≡ ok s) × (length s ≡ 16)
  unfolding cmac_sum write_all
  cmac_sum_two key x y least k small =
      let (h, e) = laws.accepts key k in
      let (h1, e1) = laws.writes h x in
      let (h2, e2) = laws.writes h1 y in
      let len = laws.sixteen h2 in
      let enough : ltb (length (C.sum h2)) least ≡ false = ground (arith, len) in
      (C.sum h2, rw (e, e1, e2, enough) refl, len)

  -- With a hash as documented and two 16-byte keys, SetUplinkDataMIC of version 1.1 succeeds on a
  -- data frame that has bytes, and ValidateUplinkDataMICF with the forwarding key alone, whatever
  -- the counter, data rate, channel and other key were, compares the last two bytes of the MIC
  -- with those that were set.
  pub set-validate_uplink_data_micf :
      (p : PhyPayload) (m : MacPayload) (b : Bytes)
      → p.contents ≡ some (mac_payload m)
      → marshal_mac_payload m ≡ ok b
      → (conf dr ch : ℕ) (f_key s_key : Bytes) → IsArray 16 f_key
      → IsArray 16 s_key
      → (q : PhyPayload) × (set_uplink_data_mic C p lorawan1_1 conf dr ch f_key s_key ≡ ok q)
        × ((mic : Bytes)
            → validate_uplink_data_micf C (record q { mic = mic }) f_key
              ≡ ok (bytes_eq (drop 2 mic) (drop 2 q.mic)))
  unfolding set_uplink_data_mic validate_uplink_data_micf calculate_uplink_data_mic marshal_mhdr
      marshal_dev_addr
  set-validate_uplink_data_micf p m b c e conf dr ch f_key s_key fk sk =
      let head : Bytes = bit_or (shl 8 p.mhdr.m_type 5) (bit_and p.mhdr.major 0x03) ∷ [] in
      let msg = head ++ b in
      let addr = reverse m.fhdr.dev_addr in
      let acks = m.fhdr.f_ctrl.ack in
      let b0 = mic_block (0 ∷ 0 ∷ 0 ∷ 0 ∷ 0 ∷ []) addr m.fhdr.f_cnt (length msg) in
      let b1 =
        mic_block (put_uint16 (conf_counter acks conf) ++ (dr ∷ ch ∷ 0 ∷ [])) addr m.fhdr.f_cnt
          (length msg) in
      let b2 =
        mic_block (put_uint16 (conf_counter acks 0) ++ (0 ∷ 0 ∷ 0 ∷ [])) addr m.fhdr.f_cnt
          (length msg) in
      let (s, s_eq, s_len) = cmac_sum_two s_key b1 msg 4 sk (omega arith) in
      let (f, f_eq, f_len) = cmac_sum_two f_key b0 msg 2 fk (omega arith) in
      let (t, t_eq, t_len) = cmac_sum_two f_key b2 msg 4 fk (omega arith) in
      let s_two : length (take 2 s) ≡ 2 = omega (arith, length-take 2 s, s_len) in
      let t_two : length (take 2 t) ≡ 2 = omega (arith, length-take 2 t, t_len) in
      let s_rest : drop 2 (take 2 s ++ take 2 f) ≡ take 2 f =
        drop-append 2 (take 2 s) (take 2 f) s_two in
      let t_rest : drop 2 (take 2 t ++ take 2 f) ≡ take 2 f =
        drop-append 2 (take 2 t) (take 2 f) t_two in
      (
        record p { mic = take 2 s ++ take 2 f },
        rw (c, e, s_eq, f_eq) refl,
        λ mic. rw (c, e, t_eq, f_eq, s_rest, t_rest) refl,
      )
