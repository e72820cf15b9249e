-- ===== src/Phy/Mic/Uplink.antt =====
-- The integrity code of an uplink data frame (phypayload.go), against its description by blocks.
use lorawan.Prelude.{
  ap₂, subst, ℕ, [], ◌∷◌, ◌++◌, ◌≡◌, ◌%◌, ◌/◌, ◌^◌, ok, some, length, take, ltb, false, arith, refl,
  reverse, if◌then◌else◌, ◌≤◌,
}
use lorawan.Phy.Primitives.{Cmac, IsCmac}
use lorawan.Prelude.Bytes.{Bytes, IsArray, bytes_eq, put_uint16, put_uint32}
use lorawan.Phy.Packet.{marshal_mhdr, PhyPayload, mac_payload}
use lorawan.Ident.{DevAddr, marshal_dev_addr}
use lorawan.Frame.Body.{MacPayload, marshal_mac_payload}
use lorawan.Frame.Header.{Fhdr}
use lorawan.Phy.Mic.{
  MacVersion, lorawan1_0, lorawan1_1, cmac_sum, write_all, set_uplink_data_mic,
  validate_uplink_data_mic, calculate_uplink_data_mic, mic_block, conf_counter, uplink_mic,
}

-- A block: its first byte, five that vary, the address as it is sent, the counter, 0 and the length.
abbrev pub block_of : ℕ → ℕ → ℕ → ℕ → ℕ → DevAddr → ℕ → ℕ → Bytes
block_of a b c d direction addr f_cnt size =
    0x49
    ∷ a
    ∷ b
    ∷ c
    ∷ d
    ∷ direction
    ∷ (reverse addr ++ (put_uint32 f_cnt ++ (0 ∷ (size % 256) ∷ [])))

-- The block of the forwarding key, and that of the serving key, whose counter is the confirmed one of
-- a frame with an ACK.
abbrev pub forwarding_block : Fhdr → ℕ → Bytes
forwarding_block h size = block_of 0 0 0 0 0 h.dev_addr h.f_cnt size

abbrev pub serving_block : Fhdr → ℕ → ℕ → ℕ → ℕ → Bytes
serving_block h conf dr ch size =
    let c = if h.f_ctrl.ack then conf else 0 in
    block_of (c % 256) (c / 256 % 256) dr ch 0 h.dev_addr h.f_cnt size

abbrev pub code_of : MacVersion → Bytes → Bytes → Bytes
code_of lorawan1_0 serving forwarding = take 4 forwarding
code_of lorawan1_1 serving forwarding = take 2 serving ++ take 2 forwarding

module _ (C : Cmac) where
  -- The sum of a hash of the key after the block and the message.
  abbrev pub IsDigest : Bytes → Bytes → Bytes → Bytes → Type 0
  IsDigest key block msg s =
      (h : C.Hash) × (h1 : C.Hash) × (h2 : C.Hash) × (C.new key ≡ ok h)
      × (C.write h block ≡ ok h1)
      × (C.write h1 msg ≡ ok h2)
      × (s ≡ C.sum h2)

  digest_lem :
      (laws : IsCmac C) (key block msg : Bytes) (least : ℕ)
      → IsArray 16 key
      → least ≤ 16
      → (s : Bytes) × IsDigest key block msg s × (cmac_sum C key (block ∷ msg ∷ []) least ≡ ok s)
  unfolding cmac_sum write_all
  digest_lem laws key block msg least k small =
      let (h, e) = laws.accepts key k in
      let (h1, e1) = laws.writes h block in
      let (h2, e2) = laws.writes h1 msg in
      let enough : ltb (length (C.sum h2)) least ≡ false = ground (arith, laws.sixteen h2) in
      (C.sum h2, (h, h1, h2, e, e1, e2, refl), rw (e, e1, e2, enough) refl)

  serving_block_lem :
      (h : Fhdr) (conf dr ch size : ℕ)
      → mic_block
          (put_uint16 (conf_counter h.f_ctrl.ack conf) ++ (dr ∷ ch ∷ 0 ∷ []))
          (reverse h.dev_addr)
          h.f_cnt
          size
        ≡ serving_block h conf dr ch size
  serving_block_lem h conf dr ch size =
      let c = if h.f_ctrl.ack then conf else 0 in
      let low : c % 2 ^ 16 % 256 ≡ c % 256 = omega arith in
      let high : c % 2 ^ 16 / 256 % 256 ≡ c / 256 % 256 = omega arith in
      ap₂ (λ (lo hi : ℕ). block_of lo hi dr ch 0 h.dev_addr h.f_cnt size) low high

  -- With a hash as documented, two 16-byte keys and a data frame that has bytes, SetUplinkDataMIC
  -- sets, in version 1.0, the first four bytes of the hash of the forwarding block and the frame
  -- under the forwarding key, and in version 1.1 the first two bytes of the hash of the serving
  -- block and the frame under the serving key before the first two of the other; the serving
  -- block holds the confirmed counter modulo 2 ^ 16 of a frame with an ACK and 0 otherwise, the
  -- data rate and the channel. ValidateUplinkDataMIC with the same arguments accepts exactly that
  -- code.
  pub uplink_mic_lem :
      (laws : IsCmac C) (p : PhyPayload) (m : MacPayload) (head body : Bytes)
      → p.contents ≡ some (mac_payload m)
      → marshal_mhdr p.mhdr ≡ ok head
      → marshal_mac_payload m ≡ ok body
      → (v : MacVersion) (conf dr ch : ℕ) (f_key s_key : Bytes) → IsArray 16 f_key
      → IsArray 16 s_key
      → (let msg = head ++ body in
          (s : Bytes) × (f : Bytes) × IsDigest s_key
            (serving_block m.fhdr conf dr ch (length msg))
            msg
            s
          × IsDigest f_key (forwarding_block m.fhdr (length msg)) msg f
          × (set_uplink_data_mic C p v conf dr ch f_key s_key
              ≡ ok (record p { mic = code_of v s f }))
          × ((mic : Bytes)
              → validate_uplink_data_mic C (record p { mic = mic }) v conf dr ch f_key s_key
                ≡ ok (bytes_eq mic (code_of v s f))))
  unfolding set_uplink_data_mic validate_uplink_data_mic calculate_uplink_data_mic marshal_dev_addr
  uplink_mic_lem laws p m head body c h e v conf dr ch f_key s_key fk sk =
      let msg = head ++ body in
      let (s, s_digest, s_eq) =
        digest_lem laws s_key
          (mic_block (put_uint16 (conf_counter m.fhdr.f_ctrl.ack conf) ++ (dr ∷ ch ∷ 0 ∷ []))
            (reverse m.fhdr.dev_addr) m.fhdr.f_cnt (length msg))
          msg 4 sk (omega arith) in
      let (f, f_digest, f_eq) =
        digest_lem laws f_key (forwarding_block m.fhdr (length msg)) msg 2 fk (omega arith) in
      let serving =
        subst (λ (block : Bytes). IsDigest s_key block msg s)
          (serving_block_lem m.fhdr conf dr ch (length msg)) s_digest in
      let same : uplink_mic v s f ≡ code_of v s f = version_lem v s f in
      (
        s,
        f,
        serving,
        f_digest,
        rw (c, h, e, s_eq, f_eq, same) refl,
        λ mic. rw (c, h, e, s_eq, f_eq, same) refl,
      )
    where
      version_lem : (v : MacVersion) (s f : Bytes) → uplink_mic v s f ≡ code_of v s f
      version_lem lorawan1_0 s f = refl
      version_lem lorawan1_1 s f = refl
