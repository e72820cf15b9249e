-- ===== src/Applayer/Command.antt =====
-- The commands that the three packages of applayer declare in the same words, over the interface
-- CommandPayload and the registry of each.
pub mod RoundTrip
use lorawan.Prelude.{
  ℕ, zero, suc, [], ◌∷◌, none, some, Bool, List, Option, Result, ◌+◌, err, ok, ◌>>=◌,
  bytes_at_least, ◌++◌, ◌-◌,
}
use lorawan.Prelude.Bytes.{Bytes}

-- The methods of CommandPayload, and GetCommandPayload, which gives a new payload.
pub record CommandCodec (P : Type 0) : Type 0 where
  pub get_command_payload : Bool → ℕ → Option P
  pub marshal_binary : P → Result Bytes
  pub unmarshal_binary : P → Bytes → Result P
  pub size : P → ℕ

pub record Command (P : Type 0) : Type 0 where
  pub cid : ℕ
  pub payload : Option P

module _ {P : Type 0} (codec : CommandCodec P) where
  abbrev pub marshal_optional : Option P → Result Bytes
  marshal_optional none = ok []
  marshal_optional (some p) = codec.marshal_binary p

  unfoldable pub marshal_command : Command P → Result Bytes
  marshal_command c = do p ← marshal_optional c.payload; ok (c.cid ∷ p)

  -- An identifier that has no payload is no error.
  abbrev pub decode_payload : Option P → Bytes → Result (Option P)
  decode_payload none bs = ok none
  decode_payload (some zero_payload) bs = do p ← codec.unmarshal_binary zero_payload bs; ok (some p)

  unfoldable pub unmarshal_command : Bool → Bytes → Result (Command P)
  unmarshal_command uplink [] = err (bytes_at_least 1)
  unmarshal_command uplink (c ∷ bs) = do
    p ← decode_payload (codec.get_command_payload uplink c) bs
    ok (record { cid = c; payload = p })

  abbrev pub optional_size : Option P → ℕ
  optional_size none = 0
  optional_size (some p) = codec.size p

  unfoldable pub command_size : Command P → ℕ
  command_size c = optional_size c.payload + 1

  unfoldable pub marshal_commands : List (Command P) → Result Bytes
  marshal_commands [] = ok []
  marshal_commands (c ∷ cs) = do b ← marshal_command c; rest ← marshal_commands cs; ok (b ++ rest)

  -- The loop over the bytes. The first argument counts those of the last command that the index has
  -- still to pass (`i += cmd.Size()`).
  unfoldable pub decode_commands : Bool → ℕ → Bytes → Result (List (Command P))
  decode_commands uplink skip [] = ok []
  decode_commands uplink (suc skip) (b ∷ bs) = decode_commands uplink skip bs
  decode_commands uplink zero (b ∷ bs) = do
    c ← unmarshal_command uplink (b ∷ bs)
    cs ← decode_commands uplink (command_size c - 1) bs
    ok (c ∷ cs)

  unfoldable pub unmarshal_commands : Bool → Bytes → Result (List (Command P))
  unmarshal_commands uplink bs = decode_commands uplink 0 bs
