-- ===== src/Mac/Command/Parse.antt =====
-- The decoding loop of mac_commands.go against a description of the sequences of commands.
use lorawan.Prelude.{
  ℕ, zero, suc, [], ◌∷◌, ◌++◌, Bool, List, Error, false, ok, err, some, none, length, take, drop,
  ltb, ◌≡◌, ◌≤◌, ◌<◌, ◌+◌, ◌↔◌, arith, refl, sym, subst, ◌∙◌, Bool-cases, Result-cases, inl, inr,
  >>=-eq-ok, ok_injective, take-append-drop, length-take, length-drop,
}
use lorawan.Prelude.Bytes.{Bytes}
use lorawan.Mac.Payload.{MacCommandPayload, unmarshal_payload}
use lorawan.Mac.Registry.{MacPayloadInfo, MacPayloadRegistry, get_mac_payload_and_size}
use lorawan.Mac.Registry.Reachable.{Registered, EntryAccepts, Registered-accepts}
use lorawan.Mac.Registry.Sizes.{IsOk}
use lorawan.Mac.Command.{MacCommand, decode_mac_commands, unmarshal_mac_command}
use lorawan.Mac.Command.RoundTrip.{decode_sized, decode_bare, skip_payload}

module _ (reg : MacPayloadRegistry) (uplink : Bool) where
  -- The bytes are commands one after the other: an identifier that the registry does not hold, or one
  -- that it holds and as many bytes as it says, which decode to the payload.
  pub data IsSequence : Bytes → List MacCommand → Type 0 where
    ends : IsSequence [] []
    bare :
        {bs : Bytes} {cs : List MacCommand}
        → (c : ℕ) (e : Error) → get_mac_payload_and_size reg uplink c ≡ err e
        → IsSequence bs cs
        → IsSequence (c ∷ bs) (record { cid = c; payload = none } ∷ cs)
    sized :
        {whole rest : Bytes} {cs : List MacCommand}
        → (c : ℕ) (info : MacPayloadInfo) (b : Bytes) (p : MacCommandPayload)
        → get_mac_payload_and_size reg uplink c ≡ ok info
        → length b ≡ info.size
        → unmarshal_payload info.payload b ≡ ok p
        → b ++ rest ≡ whole
        → IsSequence rest cs
        → IsSequence (c ∷ whole) (record { cid = c; payload = some p } ∷ cs)

  module _ (calls : Registered reg) where
    decoded_bytes :
        (bs : Bytes) (cs : List MacCommand)
        → IsSequence bs cs
        → decode_mac_commands reg uplink 0 bs ≡ ok cs
    unfolding decode_mac_commands
    decoded_bytes [] [] ends = refl
    decoded_bytes _ _ (bare {bs} {cs} c e g s) =
        decode_bare reg uplink c bs g ∙ rw (decoded_bytes bs cs s) refl
    decoded_bytes _ _ (sized {whole} {rest} {cs} c info b p g len u eq s) =
        let accepts = Registered-accepts reg uplink c info calls g in
        subst
          (λ (w : Bytes).
            decode_mac_commands reg uplink 0 (c ∷ w)
            ≡ ok (record { cid = c; payload = some p } ∷ cs))
          eq
          (decode_sized reg uplink c b rest g accepts.0 len u ∙ rw (decoded_bytes rest cs s) refl)

    accepted_bytes :
        (info : MacPayloadInfo) (b : Bytes)
        → EntryAccepts info
        → length b ≡ info.size
        → (p : MacCommandPayload) × (unmarshal_payload info.payload b ≡ ok p)
    accepted_bytes info b h len = elim (Result-cases (unmarshal_payload info.payload b)) [
      | inl (p, u) ↦ (p, u)
      | inr (e, u) ↦ absurd (subst IsOk u (h.1 b len))
    ]

    known_command :
        (c : ℕ) (b : Bytes) (info : MacPayloadInfo) (p : MacCommandPayload)
        → get_mac_payload_and_size reg uplink c ≡ ok info
        → unmarshal_payload info.payload b ≡ ok p
        → 0 < length b
        → unmarshal_mac_command reg uplink (record { cid = 0; payload = none }) (c ∷ b)
          ≡ (record { cid = c; payload = some p }, ok tt)
    unfolding unmarshal_mac_command
    known_command c [] info p g u h = absurd (omega arith)
    known_command c (x ∷ b) info p g u h = rw (g, u) refl

    room : (n : ℕ) → ltb (suc n) (0 + 1) ≡ false
    room n = ground arith

    IsSequence-below :
        (n : ℕ) (bs : Bytes) (cs : List MacCommand)
        → length bs ≤ n
        → decode_mac_commands reg uplink 0 bs ≡ ok cs
        → IsSequence bs cs
    unfolding decode_mac_commands unmarshal_mac_command
    IsSequence-below n [] cs h e = subst (IsSequence []) (ok_injective e) ends
    IsSequence-below zero (c ∷ bs) cs h e = absurd (omega arith)
    IsSequence-below (suc n) (c ∷ bs) cs h e =
        elim (Result-cases (get_mac_payload_and_size reg uplink c)) [
          | inl (info, g) ↦
              let accepts = Registered-accepts reg uplink c info calls g in
              elim (Bool-cases (ltb (length (c ∷ bs)) (info.size + 1))) [
                | inl cut ↦ cc (rw (g, cut) at e)
                | inr fits ↦
                    let b = take info.size bs in
                    let rest = drop info.size bs in
                    let whole : b ++ rest ≡ bs = take-append-drop info.size bs in
                    let len : length b ≡ info.size =
                      ground (arith, length-take info.size bs, fits) in
                    let (p, u) = accepted_bytes info b accepts len in
                    let (ms, run, eq) =
                      >>=-eq-ok (decode_mac_commands reg uplink info.size bs) _
                        (rw (g, fits) at e) in
                    let tail : decode_mac_commands reg uplink 0 rest ≡ ok ms =
                      sym (skip_payload reg uplink info.size b rest len) ∙ rw whole run in
                    subst (IsSequence (c ∷ bs))
                      (ok_injective
                        (rw (known_command c b info p g u (omega (arith, len, accepts.0))) at eq))
                      (sized c info b p g len u whole
                        (IsSequence-below n rest ms (omega (arith, length-drop info.size bs)) tail))
              ]
          | inr (unknown, g) ↦
              let (ms, run, eq) =
                >>=-eq-ok (decode_mac_commands reg uplink 0 bs) _ (rw (g, room (length bs)) at e) in
              subst (IsSequence (c ∷ bs)) (ok_injective eq)
                (bare c unknown g (IsSequence-below n bs ms (omega arith) run))
        ]

    -- With a registry that calls of RegisterProprietaryMACCommand make of the default one, and
    -- for any bytes, the decoding loop returns some commands exactly when the bytes are those
    -- commands one after the other: an identifier that the registry does not hold, with no
    -- payload, or one that it holds, followed by as many bytes as it says, which the entry
    -- decodes without an error to the payload of the command.
    pub decode-IsSequence :
        (bs : Bytes) (cs : List MacCommand)
        → (decode_mac_commands reg uplink 0 bs ≡ ok cs) ↔ IsSequence bs cs
    decode-IsSequence bs cs =
        (λ e. IsSequence-below (length bs) bs cs (omega arith) e, decoded_bytes bs cs)
