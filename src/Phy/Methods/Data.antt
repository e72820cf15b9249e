-- ===== src/Phy/Methods/Data.antt =====
-- EncryptFRMPayload and DecryptFRMPayload, the methods of PHYPayload (phypayload.go).
use lorawan.Prelude.{
  ℕ, List, [], ◌∷◌, ◌≡◌, some, false, ok, Option, length, ap, refl, ◌∙◌, All, none, sym,
}
use lorawan.Phy.Primitives.{Aes, IsAes}
use lorawan.Mac.Registry.{MacPayloadRegistry}
use lorawan.Prelude.Bytes.{Bytes, IsArray}
use lorawan.Phy.Methods.{
  encrypt_frm_payload_method, decrypt_frm_payload, encrypt_frm_payload_in, decode_at_port_zero,
  with_frame, decode_frm_payload_in, and_then,
}
use lorawan.Frame.Body.{marshal_frm_payload, is_refused, MacPayload, is_empty, is_port_zero}
use lorawan.Frame.Element.{
  marshal_element, marshal_data_payload, data_payload, marshal_elements, as_commands, Payload,
}
use lorawan.Phy.Packet.{is_uplink, PhyPayload}
use lorawan.Phy.Keystream.Involution.{encrypt_frm_payload_twice}
use lorawan.Phy.Keystream.{encrypt_frm_payload}
use lorawan.Mac.Command.{MacCommand}
use mathlib.Core.List.{append-nil}
use lorawan.Mac.Command.RoundTrip.{Carries}
use lorawan.Frame.Element.Commands.{carried_commands}

-- A payload of bytes alone takes those bytes, at any port.
marshal_data_element :
    (port : Option ℕ) (bs : Bytes) → marshal_frm_payload port (data_payload bs ∷ []) ≡ ok bs
unfolding marshal_frm_payload is_refused marshal_element marshal_data_payload
marshal_data_element none bs = ap ok (append-nil bs)
marshal_data_element (some port) bs = ap ok (append-nil bs)

-- MAC commands pass the test of the port at port 0.
marshal_commands :
    (ms : List MacCommand)
    → marshal_frm_payload (some 0) (as_commands ms) ≡ marshal_elements (as_commands ms)
unfolding marshal_frm_payload is_refused marshal_elements as_commands
marshal_commands [] = refl
marshal_commands (m ∷ ms) = rw (marshal_commands ms) refl

abbrev pub with_frm : PhyPayload → MacPayload → Bytes → PhyPayload
with_frm p m bs = with_frame p (record m { frm_payload = data_payload bs ∷ [] })

module _ (A : Aes) (reg : MacPayloadRegistry) (key : Bytes) (p : PhyPayload) where
  encrypt_frm_step :
      (m : MacPayload) (bs enc : Bytes)
      → is_empty m.frm_payload ≡ false
      → marshal_frm_payload m.f_port m.frm_payload ≡ ok bs
      → encrypt_frm_payload A key (is_uplink p) m.fhdr.dev_addr m.fhdr.f_cnt bs ≡ ok enc
      → encrypt_frm_payload_method A reg (with_frame p m) key ≡ (with_frm p m enc, ok tt)
  unfolding encrypt_frm_payload_method encrypt_frm_payload_in is_uplink
  encrypt_frm_step m bs enc full h e = rw (full, h, e)

  -- Encrypted twice, which is encrypted and decrypted, a payload is its bytes.
  encrypt_frm_twice :
      IsAes A
      → (m : MacPayload) (bs : Bytes) → IsArray 16 key
      → IsArray 4 m.fhdr.dev_addr
      → is_empty m.frm_payload ≡ false
      → marshal_frm_payload m.f_port m.frm_payload ≡ ok bs
      → (enc : Bytes) × (encrypt_frm_payload_method A reg (with_frame p m) key
          ≡ (with_frm p m enc, ok tt))
        × (length enc ≡ length bs)
        × (encrypt_frm_payload_method A reg (with_frm p m enc) key ≡ (with_frm p m bs, ok tt))
  encrypt_frm_twice laws m bs k a full h =
      let (enc, e, len, back) =
        encrypt_frm_payload_twice A laws key (is_uplink p) m.fhdr.dev_addr m.fhdr.f_cnt k a bs in
      (
        enc,
        encrypt_frm_step m bs enc full h e,
        len,
        encrypt_frm_step (record m { frm_payload = data_payload enc ∷ [] }) enc bs refl
            (marshal_data_element m.f_port enc) back,
      )

  -- The method as its two steps.
  decrypt_frm_step :
      (m : MacPayload) (bs : Bytes) (q : PhyPayload)
      → encrypt_frm_payload_method A reg q key ≡ (with_frm p m bs, ok tt)
      → decrypt_frm_payload A reg q key ≡ decode_at_port_zero A reg (with_frm p m bs)
  unfolding decrypt_frm_payload
  decrypt_frm_step m bs q e = ap (λ o. and_then o (decode_at_port_zero A reg)) e

  -- With a lawful cipher and a 16-byte key, a frame with a nonempty FRMPayload of some bytes at a
  -- port other than 0, or at none, is encrypted to a payload of the same length without error,
  -- and decrypting that gives the frame with those bytes as its FRMPayload.
  pub decrypt-encrypt_frm_payload :
      IsAes A
      → (m : MacPayload) (bs : Bytes) → IsArray 16 key
      → IsArray 4 m.fhdr.dev_addr
      → is_empty m.frm_payload ≡ false
      → is_port_zero m.f_port ≡ false
      → marshal_frm_payload m.f_port m.frm_payload ≡ ok bs
      → (enc : Bytes) × (encrypt_frm_payload_method A reg (with_frame p m) key
          ≡ (with_frm p m enc, ok tt))
        × (length enc ≡ length bs)
        × (decrypt_frm_payload A reg (with_frm p m enc) key ≡ (with_frm p m bs, ok tt))
  unfolding decode_at_port_zero
  decrypt-encrypt_frm_payload laws m bs k a full port h =
      let (enc, e, len, back) = encrypt_frm_twice laws m bs k a full h in
      (enc, e, len, decrypt_frm_step m bs (with_frm p m enc) back ∙ rw port refl)

  -- With a lawful cipher and a 16-byte key, a frame at FPort 0 whose FRMPayload is a nonempty
  -- list of MAC commands that the registry carries is encrypted without error, and decrypting the
  -- result gives back the very frame, its commands decoded.
  pub decrypt-encrypt_commands :
      IsAes A
      → (m : MacPayload) (ms : List MacCommand) → IsArray 16 key
      → IsArray 4 m.fhdr.dev_addr
      → m.f_port ≡ some 0
      → m.frm_payload ≡ as_commands ms
      → is_empty m.frm_payload ≡ false
      → All (Carries reg (is_uplink p)) ms
      → (q : PhyPayload) × (encrypt_frm_payload_method A reg (with_frame p m) key ≡ (q, ok tt))
        × (decrypt_frm_payload A reg q key ≡ (with_frame p m, ok tt))
  unfolding decode_at_port_zero decode_frm_payload_in is_uplink
  decrypt-encrypt_commands laws m ms k a port frm full h =
      let (bs, es, back) = carried_commands reg (is_uplink p) ms h in
      let marshalled : marshal_frm_payload m.f_port m.frm_payload ≡ ok bs =
        rw (port, frm) (marshal_commands ms ∙ es) in
      let (enc, e, len, twice) = encrypt_frm_twice laws m bs k a full marshalled in
      let decoded : decode_at_port_zero A reg (with_frm p m bs)
          ≡ (with_frame p (record m { frm_payload = as_commands ms }), ok tt) =
        rw (port, back) refl in
      (
        with_frm p m enc,
        e,
        decrypt_frm_step m bs (with_frm p m enc) twice
            ∙ decoded
            ∙ ap (λ (ps : List Payload). (with_frame p (record m { frm_payload = ps }), ok tt))
                (sym frm),
      )
