-- ===== src/Mac/Command/Decode.antt =====
-- The decoding loop of mac_commands.go on any bytes.
use lorawan.Prelude.{
  ℕ, Bool, List, ◌∷◌, ◌≡◌, ◌≤◌, arith, length, ok, suc, [], ◌+◌, refl, zero, subst, ok_injective,
  Bool-cases, ltb, inl, inr, >>=-eq-ok,
}
use lorawan.Mac.Command.{MacCommand, decode_mac_commands, unmarshal_mac_command, size_of}
use lorawan.Mac.Registry.{MacPayloadRegistry, get_mac_payload_and_size}
use lorawan.Prelude.Bytes.{Bytes}

module _ (reg : MacPayloadRegistry) (uplink : Bool) where
  cid-unmarshal :
      (m : MacCommand) (c : ℕ) (bs : Bytes)
      → (unmarshal_mac_command reg uplink m (c ∷ bs)).0.cid ≡ c
  unfolding unmarshal_mac_command
  cid-unmarshal m c [] = refl
  cid-unmarshal m c (b ∷ bs) = ground arith

  -- The bytes of the commands: an identifier each, and the payload that the registry sizes.
  abbrev pub total_size : List MacCommand → ℕ
  total_size [] = 0
  total_size (m ∷ ms) = suc (size_of (get_mac_payload_and_size reg uplink m.cid)) + total_size ms

  decode_all_bytes :
      (skip : ℕ) (bs : Bytes) (cs : List MacCommand)
      → skip ≤ length bs
      → decode_mac_commands reg uplink skip bs ≡ ok cs
      → length bs ≡ skip + total_size cs
  unfolding decode_mac_commands
  decode_all_bytes skip [] cs h e =
      subst (λ ms. 0 ≡ skip + total_size ms) (ok_injective e) (omega arith)
  decode_all_bytes (suc skip) (b ∷ bs) cs h e =
      omega (arith, decode_all_bytes skip bs cs (omega arith) e)
  decode_all_bytes zero (b ∷ bs) cs h e =
      let n = size_of (get_mac_payload_and_size reg uplink b) in
      elim (Bool-cases (ltb (length (b ∷ bs)) (n + 1))) [
        | inl cut ↦ cc (rw cut at e)
        | inr fits ↦
            let (ms, rest, whole) =
              >>=-eq-ok (decode_mac_commands reg uplink n bs) _ (rw fits at e) in
            let size : length bs ≡ n + total_size ms =
              decode_all_bytes n bs ms (ground arith) rest in
            subst (λ ms. suc (length bs) ≡ 0 + total_size ms) (ok_injective whole)
              (rw cid-unmarshal (omega (arith, size)))
      ]

  -- Where the decoding loop returns commands, for any bytes, the commands account for every byte:
  -- one for each identifier, and the size that the registry gives it.
  pub decode_total_size :
      (bs : Bytes) {cs : List MacCommand}
      → decode_mac_commands reg uplink 0 bs ≡ ok cs
      → length bs ≡ total_size cs
  decode_total_size bs {cs} e = omega (arith, decode_all_bytes 0 bs cs (omega arith) e)
