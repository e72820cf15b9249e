-- ===== src/Phy/Methods/Options.antt =====
-- EncryptFOpts and DecryptFOpts, the methods of PHYPayload (phypayload.go).
use lorawan.Prelude.{
  Bool, List, [], ◌∷◌, ◌≡◌, not, ok, ap, ◌&&◌, false, ◌<◌, length, Error, All, err, message, arith,
  ◌≤◌, ok_injective, sym, ◌∙◌, refl,
}
use lorawan.Phy.Packet.{is_uplink, PhyPayload}
use lorawan.Frame.Element.{
  marshal_elements, marshal_element, marshal_data_payload, data_payload, as_commands, Payload,
}
use lorawan.Phy.Primitives.{Aes, IsAes}
use lorawan.Mac.Registry.{MacPayloadRegistry}
use lorawan.Prelude.Bytes.{Bytes, IsArray}
use lorawan.Phy.Methods.{
  decrypt_f_opts, encrypt_f_opts_method, decode_f_opts_to_mac_commands, encrypt_f_opts_in,
  with_frame, decode_f_opts_in, with_f_opts, is_port_positive, or_return,
}
use lorawan.Frame.Body.{MacPayload, is_empty}
use lorawan.Phy.Keystream.{encrypt_f_opts}
use mathlib.Core.List.{append-nil}
use lorawan.Mac.Command.{MacCommand}
use lorawan.Mac.Command.RoundTrip.{Carries}
use lorawan.Frame.Element.Commands.{carried_commands}
use lorawan.Phy.Keystream.Involution.{encrypt_f_opts_twice}

marshal_data_elements : (bs : Bytes) → marshal_elements (data_payload bs ∷ []) ≡ ok bs
unfolding marshal_elements marshal_element marshal_data_payload
marshal_data_elements bs = ap ok (append-nil bs)

abbrev pub with_opts : PhyPayload → MacPayload → Bytes → PhyPayload
with_opts p m bs = with_frame p (with_f_opts m (data_payload bs ∷ []))

abbrev pub is_a_f_cnt_down : PhyPayload → MacPayload → Bool
is_a_f_cnt_down p m = not (is_uplink p) && is_port_positive m.f_port

module _ (A : Aes) (reg : MacPayloadRegistry) (key : Bytes) (p : PhyPayload) where
  encrypt_step :
      (m : MacPayload) (bs enc : Bytes)
      → is_empty m.fhdr.f_opts ≡ false
      → marshal_elements m.fhdr.f_opts ≡ ok bs
      → encrypt_f_opts A key (is_a_f_cnt_down p m) (is_uplink p) m.fhdr.dev_addr m.fhdr.f_cnt bs
        ≡ ok enc
      → encrypt_f_opts_method A reg (with_frame p m) key ≡ (with_opts p m enc, ok tt)
  unfolding encrypt_f_opts_method encrypt_f_opts_in is_uplink
  encrypt_step m bs enc full h e = rw (full, h, e)

  -- With a lawful cipher and a 16-byte key, a frame whose FOpts are a nonempty list of MAC
  -- commands that the registry carries, in at most 15 bytes, has its FOpts encrypted without
  -- error, and decrypting the result gives back the very frame.
  pub decrypt-encrypt_f_opts :
      IsAes A
      → (m : MacPayload) (ms : List MacCommand) (bs : Bytes) → IsArray 16 key
      → m.fhdr.f_opts ≡ as_commands ms
      → is_empty m.fhdr.f_opts ≡ false
      → All (Carries reg (is_uplink p)) ms
      → marshal_elements m.fhdr.f_opts ≡ ok bs
      → length bs ≤ 15
      → (q : PhyPayload) × (encrypt_f_opts_method A reg (with_frame p m) key ≡ (q, ok tt))
        × (decrypt_f_opts A reg q key ≡ (with_frame p m, ok tt))
  unfolding decrypt_f_opts decode_f_opts_to_mac_commands decode_f_opts_in is_uplink
  decrypt-encrypt_f_opts laws m ms bs k opts full h es fits =
      let (bs', es', back) = carried_commands reg (is_uplink p) ms h in
      let same : bs' ≡ bs = ok_injective (sym es' ∙ (rw opts at es)) in
      let (enc, e, len, twice) =
        encrypt_f_opts_twice A laws key (is_uplink p) m.fhdr.dev_addr m.fhdr.f_cnt
          (is_a_f_cnt_down p m) k bs fits in
      let again : encrypt_f_opts_method A reg (with_opts p m enc) key ≡ (with_opts p m bs, ok tt) =
        encrypt_step (with_f_opts m (data_payload enc ∷ [])) enc bs refl (marshal_data_elements enc)
          twice in
      let decoded : decode_f_opts_to_mac_commands A reg (with_opts p m bs)
          ≡ (with_frame p (with_f_opts m (as_commands ms)), ok tt) =
        rw (← same) (rw back refl) in
      (
        with_opts p m enc,
        encrypt_step m bs enc full es e,
        ap (λ o. or_return (ok tt) o (decode_f_opts_to_mac_commands A reg)) again
            ∙ decoded
            ∙ ap (λ (ps : List Payload). (with_frame p (with_f_opts m ps), ok tt)) (sym opts),
      )

  -- On a frame with nonempty FOpts of more than 15 bytes EncryptFOpts returns an error, and
  -- DecryptFOpts returns none and leaves the frame as it was, neither decrypted nor decoded.
  pub decrypt_f_opts_silent :
      (m : MacPayload) (bs : Bytes)
      → is_empty m.fhdr.f_opts ≡ false
      → marshal_elements m.fhdr.f_opts ≡ ok bs
      → 15 < length bs
      → ((e : Error) × (encrypt_f_opts_method A reg (with_frame p m) key ≡ (with_frame p m, err e)))
        × (decrypt_f_opts A reg (with_frame p m) key ≡ (with_frame p m, ok tt))
  unfolding decrypt_f_opts encrypt_f_opts_method encrypt_f_opts_in encrypt_f_opts
  decrypt_f_opts_silent m bs full es long =
      let refused : encrypt_f_opts_method A reg (with_frame p m) key
          ≡ (with_frame p m, err (message "max size of FOpts is 15 bytes")) =
        rw (full, es) (ground arith) in
      (
        (message "max size of FOpts is 15 bytes", refused),
        ap (λ o. or_return (ok tt) o (decode_f_opts_to_mac_commands A reg)) refused,
      )
