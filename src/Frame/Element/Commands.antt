-- ===== src/Frame/Element/Commands.antt =====
-- MAC commands as the elements of a frame (mac_commands.go), written and decoded.
use lorawan.Prelude.{
  Option, Error, err, inl, inr, none, some, [], ◌∷◌, Bool, List, All, ◌≡◌, ok, refl, ◌++◌, ◌∙◌, ap,
  ◌>>=◌, ℕ, ◌⊎◌, Bool-cases, ltb, ◌≤◌, arith, subst,
}
use lorawan.Mac.Payload.{proprietary, MacCommandPayload, marshal_payload, unmarshal_payload}
use lorawan.Mac.Payload.RoundTrip.{InRange-IsRegistered}
use lorawan.Mac.Payload.Ranges.{InRange, is_uplink_payload, cid_of}
use lorawan.Mac.Registry.Reachable.{
  Registered, Registered-IsExtension, default_unknown, IsProprietary,
}
use lorawan.Mac.Registry.{
  MacPayloadRegistry, get_mac_payload_and_size, default_registry, MacPayloadInfo,
}
use lorawan.Frame.Element.{
  decode_data_payload_to_mac_commands, marshal_elements, as_commands, marshal_element, data_payload,
}
use lorawan.Mac.Command.{MacCommand, decode_mac_commands}
use lorawan.Mac.Command.RoundTrip.{Carries, Carries-IsDecoded}
use lorawan.Prelude.Bytes.{Bytes, IsArray}

module _ (reg : MacPayloadRegistry) (uplink : Bool) where
  commands_lem :
      (ms : List MacCommand)
      → All (Carries reg uplink) ms
      → (bs : Bytes) × (marshal_elements (as_commands ms) ≡ ok bs)
        × (decode_mac_commands reg uplink 0 bs ≡ ok ms)
  unfolding marshal_elements as_commands marshal_element decode_mac_commands
  commands_lem [] h = ([], refl, refl)
  commands_lem (m ∷ ms) h =
      let (b, e, front) = Carries-IsDecoded reg uplink m h.0 in
      let (bs, es, back) = commands_lem ms h.1 in
      (b ++ bs, rw (e, es) refl, front bs ∙ ap (λ r. r >>= λ cs. ok (m ∷ cs)) back)

  pub carried_commands :
      (ms : List MacCommand)
      → All (Carries reg uplink) ms
      → (bs : Bytes) × (marshal_elements (as_commands ms) ≡ ok bs)
        × (decode_data_payload_to_mac_commands reg uplink (data_payload bs ∷ [])
            ≡ ok (as_commands ms))
  unfolding decode_data_payload_to_mac_commands
  carried_commands ms h = let (bs, es, back) = commands_lem ms h in (bs, es, rw back refl)

  -- A command of the direction with its own payload in range, a proprietary one with as many bytes as
  -- were registered, or an identifier that the registry does not hold and no payload.
  abbrev pub IsCommand : MacCommand → Type 0
  IsCommand m = elim m.payload [
    | none ↦ (e : Error) × (get_mac_payload_and_size reg uplink m.cid ≡ err e)
    | some p ↦
        (InRange p × (is_uplink_payload p ≡ uplink) × (cid_of p ≡ m.cid))
        ⊎ ((bs : Bytes) × (info : MacPayloadInfo) × (p ≡ proprietary bs)
            × (128 ≤ m.cid)
            × (get_mac_payload_and_size reg uplink m.cid ≡ ok info)
            × IsArray info.size bs)
  ]

  standard_command :
      (p : MacCommandPayload)
      → Registered reg
      → InRange p
      → is_uplink_payload p ≡ uplink
      → Carries reg uplink (record { cid = cid_of p; payload = some p })
  standard_command p calls h up =
      let (info, found, size, trip) = InRange-IsRegistered p h in
      let here : get_mac_payload_and_size default_registry uplink (cid_of p) ≡ ok info =
        rw up at found in
      let extends = Registered-IsExtension reg calls uplink (cid_of p) in
      elim (Bool-cases (ltb (cid_of p) 128)) [
        | inl low ↦ (info, extends.0 (ground (arith, low)) ∙ here, size, trip)
        | inr high ↦ let (e, g) = default_unknown uplink (cid_of p) (ground (arith, high)) in cc
      ]

  proprietary_command :
      (c : ℕ) (bs : Bytes) (info : MacPayloadInfo)
      → Registered reg
      → 128 ≤ c
      → get_mac_payload_and_size reg uplink c ≡ ok info
      → IsArray info.size bs
      → Carries reg uplink (record { cid = c; payload = some (proprietary bs) })
  unfolding marshal_payload unmarshal_payload
  proprietary_command c bs info calls high found size =
      let (small, positive, payload) =
        subst (IsProprietary c) found ((Registered-IsExtension reg calls uplink c).1 high) in
      (info, found, positive, (bs, refl, size.0, size.1, rw payload refl))

  IsCommand-Carries : (m : MacCommand) → Registered reg → IsCommand m → Carries reg uplink m
  IsCommand-Carries m calls h = is_carried m.cid m.payload h
    where
      is_carried :
          (c : ℕ) (p : Option MacCommandPayload)
          → IsCommand (record { cid = c; payload = p })
          → Carries reg uplink (record { cid = c; payload = p })
      is_carried c none h = h
      is_carried c (some p) (inl (range, up, same)) = rw⁻¹ same (standard_command p calls range up)
      is_carried c (some p) (inr (bs, info, eq, high, found, size)) =
          rw eq (proprietary_command c bs info calls high found size)

  All-Carries :
      (ms : List MacCommand) → Registered reg → All IsCommand ms → All (Carries reg uplink) ms
  All-Carries [] calls h = tt
  All-Carries (m ∷ ms) calls h = (IsCommand-Carries m calls h.0, All-Carries ms calls h.1)

  -- With a registry that calls of RegisterProprietaryMACCommand make of the default one, a list
  -- of MAC commands of one direction has bytes, and one DataPayload of those bytes decodes to the
  -- same list; each command being one with its own payload in range, a proprietary one from the
  -- identifier 128 on with as many bytes as were registered, or an identifier that the registry
  -- does not hold and no payload.
  pub decode-marshal :
      (ms : List MacCommand)
      → Registered reg
      → All IsCommand ms
      → (bs : Bytes) × (marshal_elements (as_commands ms) ≡ ok bs)
        × (decode_data_payload_to_mac_commands reg uplink (data_payload bs ∷ [])
            ≡ ok (as_commands ms))
  decode-marshal ms calls h = carried_commands ms (All-Carries ms calls h)
