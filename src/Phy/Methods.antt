-- ===== src/Phy/Methods.antt =====
-- The methods of PHYPayload that encrypt, decrypt and decode its parts (phypayload.go). A method
-- returns the receiver as it leaves it, with the error or none.
pub mod Data
pub mod Options
use lorawan.Prelude.{
  ℕ, Bool, List, [], ◌∷◌, ◌++◌, Option, Result, false, ok, some, err, if◌then◌else◌, ltb, ◌>>=◌,
  none, not, ◌&&◌,
}
use lorawan.Phy.Packet.{PhyPayload, contents_of, mac_payload, is_uplink}
use lorawan.Frame.Body.{MacPayload, is_empty, is_port_zero, marshal_frm_payload}
use lorawan.Phy.Primitives.{Aes}
use lorawan.Mac.Registry.{MacPayloadRegistry}
use lorawan.Frame.Element.{
  Payload, decode_data_payload_to_mac_commands, marshal_elements, data_payload,
}
use lorawan.Prelude.Bytes.{Bytes}
use lorawan.Phy.Mic.{mac_payload_of}
use lorawan.Phy.Keystream.{encrypt_frm_payload, encrypt_f_opts}

abbrev pub Outcome : Type 0
Outcome = PhyPayload × Result (Unit {0})

-- The receiver stays as it was on an error.
abbrev pub outcome : PhyPayload → Result PhyPayload → Outcome
outcome p (ok q) = (q, ok tt)
outcome p (err e) = (p, err e)

-- `if err := …; err != nil { return err }`, and with another value returned for the error
abbrev pub and_then : Outcome → (PhyPayload → Outcome) → Outcome
and_then (q, ok u) f = f q
and_then (q, err e) f = (q, err e)

abbrev pub or_return : Result (Unit {0}) → Outcome → (PhyPayload → Outcome) → Outcome
or_return r (q, ok u) f = f q
or_return r (q, err e) f = (q, r)

-- `p.MACPayload.(*MACPayload)`; a nil field fails the assertion too
abbrev pub frame_of : PhyPayload → Result MacPayload
frame_of p = contents_of p.contents "MACPayload must be of type *MACPayload" >>= mac_payload_of

abbrev pub with_frame : PhyPayload → MacPayload → PhyPayload
with_frame p m = record p { contents = some (mac_payload m) }

abbrev pub with_f_opts : MacPayload → List Payload → MacPayload
with_f_opts m opts = record m { fhdr = record m.fhdr { f_opts = opts } }

-- `macPL.FPort != nil && *macPL.FPort > 0`
abbrev pub is_port_positive : Option ℕ → Bool
is_port_positive none = false
is_port_positive (some port) = ltb 0 port

-- What the loop of `decodeDataPayloadToMACCommands` leaves in the field: nil with an error.
abbrev pub elements_or_nil : Result (List Payload) → List Payload × Result (Unit {0})
elements_or_nil (ok ps) = (ps, ok tt)
elements_or_nil (err e) = ([], err e)

module _ (A : Aes) (reg : MacPayloadRegistry) where
  unfoldable pub encrypt_f_opts_in : PhyPayload → Bytes → MacPayload → Result PhyPayload
  encrypt_f_opts_in p key m = do
    bs ← marshal_elements m.fhdr.f_opts
    let down = not (is_uplink p) && is_port_positive m.f_port
    enc ← encrypt_f_opts A key down (is_uplink p) m.fhdr.dev_addr m.fhdr.f_cnt bs
    ok (with_frame p (with_f_opts m (data_payload enc ∷ [])))

  unfoldable pub encrypt_f_opts_method : PhyPayload → Bytes → Outcome
  encrypt_f_opts_method p key =
      outcome p
        (do m ← frame_of p; if is_empty m.fhdr.f_opts then ok p else encrypt_f_opts_in p key m)

  unfoldable pub decode_f_opts_in : PhyPayload → MacPayload → Outcome
  decode_f_opts_in p m =
      let (opts, e) =
        elements_or_nil (decode_data_payload_to_mac_commands reg (is_uplink p) m.fhdr.f_opts) in
      if is_empty m.fhdr.f_opts then (p, ok tt) else (with_frame p (with_f_opts m opts), e)

  unfoldable pub decode_f_opts_to_mac_commands : PhyPayload → Outcome
  decode_f_opts_to_mac_commands p = elim (frame_of p) [
    | ok m ↦ decode_f_opts_in p m
    | err e ↦ (p, err e)
  ]

  -- An error of the first step is returned as none: `return nil`.
  unfoldable pub decrypt_f_opts : PhyPayload → Bytes → Outcome
  decrypt_f_opts p key =
      or_return (ok tt) (encrypt_f_opts_method p key) decode_f_opts_to_mac_commands

  unfoldable pub encrypt_frm_payload_in : PhyPayload → Bytes → MacPayload → Result PhyPayload
  encrypt_frm_payload_in p key m = do
    bs ← marshal_frm_payload m.f_port m.frm_payload
    enc ← encrypt_frm_payload A key (is_uplink p) m.fhdr.dev_addr m.fhdr.f_cnt bs
    ok (with_frame p (record m { frm_payload = data_payload enc ∷ [] }))

  unfoldable pub encrypt_frm_payload_method : PhyPayload → Bytes → Outcome
  encrypt_frm_payload_method p key =
      outcome p
        (do m ← frame_of p; if is_empty m.frm_payload then ok p else encrypt_frm_payload_in p key m)

  unfoldable pub decode_frm_payload_in : PhyPayload → MacPayload → Outcome
  decode_frm_payload_in p m =
      let (ps, e) =
        elements_or_nil (decode_data_payload_to_mac_commands reg (is_uplink p) m.frm_payload) in
      (with_frame p (record m { frm_payload = ps }), e)

  unfoldable pub decode_frm_payload_to_mac_commands : PhyPayload → Outcome
  decode_frm_payload_to_mac_commands p = elim (frame_of p) [
    | ok m ↦ decode_frm_payload_in p m
    | err e ↦ (p, err e)
  ]

  -- The commands are decoded where FPort is 0.
  unfoldable pub decode_at_port_zero : PhyPayload → Outcome
  decode_at_port_zero p = elim (frame_of p) [
    | ok m ↦ if is_port_zero m.f_port then decode_frm_payload_in p m else (p, ok tt)
    | err e ↦ (p, err e)
  ]

  unfoldable pub decrypt_frm_payload : PhyPayload → Bytes → Outcome
  decrypt_frm_payload p key = and_then (encrypt_frm_payload_method p key) decode_at_port_zero
