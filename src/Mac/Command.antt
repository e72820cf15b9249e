-- ===== src/Mac/Command.antt =====
-- MAC commands of mac_commands.go and the loop that decodes a sequence of them.
pub mod RoundTrip
pub mod Decode
pub mod Parse
use lorawan.Prelude.{
  ℕ, zero, suc, ◌+◌, Bool, Option, none, some, List, [], ◌∷◌, Result, ok, err, ◌>>=◌, ltb,
  if◌then◌else◌, take, length, message, bytes_at_least,
}
use lorawan.Prelude.Bytes.{Bytes}
use lorawan.Mac.Payload.{MacCommandPayload, marshal_payload, unmarshal_payload}
use lorawan.Mac.Registry.{MacPayloadInfo, MacPayloadRegistry, get_mac_payload_and_size}

pub record MacCommand : Type 0 where
  pub cid : ℕ
  pub payload : Option MacCommandPayload

unfoldable pub marshal_mac_command : MacCommand → Result Bytes
marshal_mac_command m = elim m.payload [
  | none ↦ ok (m.cid ∷ [])
  | some pl ↦ do p ← marshal_payload pl; ok (m.cid ∷ p)
]

-- What becomes of the command when its payload has been looked up and decoded.
abbrev pub decoded : ℕ → MacPayloadInfo → Result MacCommandPayload → MacCommand × Result (Unit {0})
decoded c info (ok p) = (record { cid = c; payload = some p }, ok tt)
decoded c info (err e) = (record { cid = c; payload = some info.payload }, err e)

abbrev pub decode_known :
    MacCommand → ℕ → Bytes → Result MacPayloadInfo → MacCommand × Result (Unit {0})
decode_known m c bs (ok info) = decoded c info (unmarshal_payload info.payload bs)
decode_known m c bs (err e) = (record m { cid = c }, err e)

-- The receiver comes back with the error, since the caller keeps it.
unfoldable pub unmarshal_mac_command :
    MacPayloadRegistry → Bool → MacCommand → Bytes → MacCommand × Result (Unit {0})
unmarshal_mac_command reg uplink m [] = (m, err (bytes_at_least 1))
unmarshal_mac_command reg uplink m (c ∷ []) = (record m { cid = c }, ok tt)
unmarshal_mac_command reg uplink m (c ∷ b ∷ bs) =
    decode_known m c (b ∷ bs) (get_mac_payload_and_size reg uplink c)

-- The size that the decoding loop takes: 0 for a command that the registry does not hold.
abbrev pub size_of : Result MacPayloadInfo → ℕ
size_of (ok info) = info.size
size_of (err e) = 0

-- The loop of `decodeDataPayloadToMACCommands`. The first argument counts the bytes of the last
-- command's payload that the index has still to pass (`i = i + plLen`). An error of
-- `UnmarshalBinary` is logged, and the command is kept.
unfoldable pub decode_mac_commands :
    MacPayloadRegistry → Bool → ℕ → Bytes → Result (List MacCommand)
decode_mac_commands reg uplink skip [] = ok []
decode_mac_commands reg uplink (suc skip) (b ∷ bs) = decode_mac_commands reg uplink skip bs
decode_mac_commands reg uplink zero (b ∷ bs) =
    let pl_len = size_of (get_mac_payload_and_size reg uplink b) in
    let rest = decode_mac_commands reg uplink pl_len bs in
    let mc =
      unmarshal_mac_command reg uplink (record { cid = 0; payload = none })
        (take (suc pl_len) (b ∷ bs)) in
    if ltb (length (b ∷ bs)) (pl_len + 1)
    then err (message "not enough remaining bytes")
    else do cs ← rest; ok (mc.0 ∷ cs)
