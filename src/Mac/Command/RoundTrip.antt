-- ===== src/Mac/Command/RoundTrip.antt =====
-- MAC commands of mac_commands.go in a sequence, written and decoded.
use lorawan.Prelude.{
  ℕ, Bool, Error, length, ◌≡◌, err, ok, ◌++◌, ◌<◌, ◌>>=◌, ◌∷◌, arith, none, some, suc, Option, take,
  zero, [], ap, refl, take-append, length-append,
}
use lorawan.Mac.Registry.{MacPayloadRegistry, MacPayloadInfo, get_mac_payload_and_size}
use lorawan.Mac.Command.{
  MacCommand, decode_mac_commands, unmarshal_mac_command, marshal_mac_command,
}
use lorawan.Prelude.Bytes.{Bytes, RoundTrips}
use lorawan.Mac.Payload.{MacCommandPayload, unmarshal_payload, marshal_payload}

-- The registry sizes the command, and its payload comes back with that entry; a command with no
-- payload has no entry.
abbrev pub Carries : MacPayloadRegistry → Bool → MacCommand → Type 0
Carries reg uplink m = elim m.payload [
  | none ↦ (e : Error) × (get_mac_payload_and_size reg uplink m.cid ≡ err e)
  | some p ↦
      (info : MacPayloadInfo) × (get_mac_payload_and_size reg uplink m.cid ≡ ok info)
      × (0 < info.size)
      × RoundTrips marshal_payload (unmarshal_payload info.payload) info.size p
]

-- The command has bytes, and the loop takes it off the front of any sequence that begins with them.
abbrev pub IsDecoded : MacPayloadRegistry → Bool → MacCommand → Type 0
IsDecoded reg uplink m =
    (bs : Bytes) × (marshal_mac_command m ≡ ok bs)
    × ((rest : Bytes)
        → decode_mac_commands reg uplink 0 (bs ++ rest)
          ≡ (decode_mac_commands reg uplink 0 rest >>= λ cs. ok (m ∷ cs)))

module _ (reg : MacPayloadRegistry) (uplink : Bool) where
  pub skip_payload :
      (n : ℕ) (bs rest : Bytes)
      → length bs ≡ n
      → decode_mac_commands reg uplink n (bs ++ rest) ≡ decode_mac_commands reg uplink 0 rest
  unfolding decode_mac_commands
  skip_payload zero [] rest h = refl
  skip_payload zero (b ∷ bs) rest h = absurd (omega arith)
  skip_payload (suc n) [] rest h = absurd (omega arith)
  skip_payload (suc n) (b ∷ bs) rest h = skip_payload n bs rest (omega arith)

  -- One command whose payload has the size that the registry gives.
  pub decode_sized :
      (c : ℕ) (bs rest : Bytes) {info : MacPayloadInfo} {p : MacCommandPayload}
      → get_mac_payload_and_size reg uplink c ≡ ok info
      → 0 < info.size
      → length bs ≡ info.size
      → unmarshal_payload info.payload bs ≡ ok p
      → decode_mac_commands reg uplink 0 (c ∷ (bs ++ rest)) ≡ (
          decode_mac_commands reg uplink 0 rest >>= λ cs.
          ok (record { cid = c; payload = some p } ∷ cs))
  unfolding decode_mac_commands unmarshal_mac_command
  decode_sized c [] rest g z l u = absurd (omega arith)
  decode_sized c (b ∷ bs) rest {info} g z l u =
      let front : take (suc info.size) (c ∷ b ∷ (bs ++ rest)) ≡ c ∷ b ∷ bs =
        ap (λ (t : Bytes). c ∷ t) (take-append info.size (b ∷ bs) rest l) in
      rw g (
        rw front (
          rw (g, u)
            (ground (arith, skip_payload info.size (b ∷ bs) rest l, length-append bs rest))))

  pub decode_bare :
      (c : ℕ) (rest : Bytes) {e : Error}
      → get_mac_payload_and_size reg uplink c ≡ err e
      → decode_mac_commands reg uplink 0 (c ∷ rest) ≡ (
          decode_mac_commands reg uplink 0 rest >>= λ cs.
          ok (record { cid = c; payload = none } ∷ cs))
  unfolding decode_mac_commands unmarshal_mac_command
  decode_bare c rest g = rw g (ground arith)

  carried :
      (c : ℕ) (p : Option MacCommandPayload)
      → Carries reg uplink (record { cid = c; payload = p })
      → IsDecoded reg uplink (record { cid = c; payload = p })
  unfolding marshal_mac_command
  carried c none (e, g) = (c ∷ [], refl, λ rest. decode_bare c rest g)
  carried c (some p) (info, g, z, (bs, eq, len, bytes, back)) =
      (c ∷ bs, rw eq, λ rest. decode_sized c bs rest g z len back)

  pub Carries-IsDecoded : (m : MacCommand) → Carries reg uplink m → IsDecoded reg uplink m
  unfolding marshal_mac_command
  Carries-IsDecoded m h = carried m.cid m.payload h
