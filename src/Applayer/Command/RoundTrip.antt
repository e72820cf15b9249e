-- ===== src/Applayer/Command/RoundTrip.antt =====
-- The commands of applayer in a sequence, written and decoded.
use mathlib.Core.List.{append-nil}
use lorawan.Prelude.{
  ℕ, zero, suc, [], ◌∷◌, none, some, Bool, List, Option, length, ◌≡◌, ok, ◌++◌, arith, ◌+◌, ◌>>=◌,
  ◌∙◌, refl, ◌-◌, All,
}
use lorawan.Prelude.Bytes.{Bytes}
use lorawan.Applayer.Command.{
  CommandCodec, Command, marshal_command, unmarshal_command, marshal_commands, decode_commands,
  unmarshal_commands, command_size,
}

module _ {P : Type 0} (codec : CommandCodec P) where
  -- A new payload of the identifier decodes the bytes of this one, whatever follows them.
  abbrev pub Delimited : Bool → ℕ → P → Type 0
  Delimited uplink cid p =
      (z : P) × (codec.get_command_payload uplink cid ≡ some z)
      × (bs : Bytes) × (codec.marshal_binary p ≡ ok bs)
      × (length bs ≡ codec.size p)
      × ((rest : Bytes) → codec.unmarshal_binary z (bs ++ rest) ≡ ok p)

  -- The same with nothing behind them.
  abbrev pub AtEnd : Bool → ℕ → P → Type 0
  AtEnd uplink cid p =
      (z : P) × (codec.get_command_payload uplink cid ≡ some z)
      × (bs : Bytes) × (codec.marshal_binary p ≡ ok bs)
      × (length bs ≡ codec.size p)
      × (codec.unmarshal_binary z bs ≡ ok p)

  -- Where there is no payload, the identifier has none.
  abbrev pub Carried : (Bool → ℕ → P → Type 0) → Bool → ℕ → Option P → Type 0
  Carried Good uplink cid none = codec.get_command_payload uplink cid ≡ none
  Carried Good uplink cid (some p) = Good uplink cid p

  -- All commands but the last are delimited.
  abbrev pub AllCarried : Bool → List (Command P) → Type 0
  AllCarried uplink [] = Unit {0}
  AllCarried uplink (c ∷ []) = Carried AtEnd uplink c.cid c.payload
  AllCarried uplink (c ∷ d ∷ cs) =
      Carried Delimited uplink c.cid c.payload × AllCarried uplink (d ∷ cs)

  skip_bytes :
      (uplink : Bool) (n : ℕ) (bs rest : Bytes)
      → length bs ≡ n
      → decode_commands codec uplink n (bs ++ rest) ≡ decode_commands codec uplink 0 rest
  unfolding decode_commands
  skip_bytes uplink zero [] rest h = refl
  skip_bytes uplink zero (b ∷ bs) rest h = absurd (omega arith)
  skip_bytes uplink (suc n) [] rest h = absurd (omega arith)
  skip_bytes uplink (suc n) (b ∷ bs) rest h = skip_bytes uplink n bs rest (omega arith)

  -- The bytes of one command, and what decodes from them before the others.
  abbrev Leads : Bool → Command P → Bytes → Bytes → Type 0
  Leads uplink c bs rest =
      (marshal_command codec c ≡ ok bs)
      × (decode_commands codec uplink 0 (bs ++ rest)
          ≡ (decode_commands codec uplink 0 rest >>= λ cs. ok (c ∷ cs)))

  payload-Leads :
      (uplink : Bool) (cid : ℕ) (z p : P) (bs rest : Bytes)
      → codec.get_command_payload uplink cid ≡ some z
      → codec.marshal_binary p ≡ ok bs
      → length bs ≡ codec.size p
      → codec.unmarshal_binary z (bs ++ rest) ≡ ok p
      → Leads uplink (record { cid = cid; payload = some p }) (cid ∷ bs) rest
  unfolding decode_commands unmarshal_command marshal_command command_size
  payload-Leads uplink cid z p bs rest g m len u =
      let size : codec.size p + 1 - 1 ≡ codec.size p = omega arith in
      (rw m refl, rw g (rw u (rw (size, skip_bytes uplink (codec.size p) bs rest len) refl)))

  bare-Leads :
      (uplink : Bool) (cid : ℕ) (rest : Bytes)
      → codec.get_command_payload uplink cid ≡ none
      → Leads uplink (record { cid = cid; payload = none }) (cid ∷ []) rest
  unfolding decode_commands unmarshal_command marshal_command command_size
  bare-Leads uplink cid rest g = (refl, rw g refl)

  Delimited-Leads :
      (uplink : Bool) (cid : ℕ) (p : Option P) (rest : Bytes)
      → Carried Delimited uplink cid p
      → (bs : Bytes) × Leads uplink (record { cid = cid; payload = p }) bs rest
  Delimited-Leads uplink cid none rest h = (cid ∷ [], bare-Leads uplink cid rest h)
  Delimited-Leads uplink cid (some p) rest (z, g, bs, m, len, u) =
      (cid ∷ bs, payload-Leads uplink cid z p bs rest g m len (u rest))

  AtEnd-Leads :
      (uplink : Bool) (cid : ℕ) (p : Option P)
      → Carried AtEnd uplink cid p
      → (bs : Bytes) × Leads uplink (record { cid = cid; payload = p }) bs []
  AtEnd-Leads uplink cid none h = (cid ∷ [], bare-Leads uplink cid [] h)
  AtEnd-Leads uplink cid (some p) (z, g, bs, m, len, u) =
      (cid ∷ bs, payload-Leads uplink cid z p bs [] g m len (rw append-nil u))

  -- A sequence of commands that are delimited, the last at least decoded from its own bytes, has bytes,
  -- which decode to the same sequence.
  pub unmarshal-marshal_commands :
      (uplink : Bool) (cs : List (Command P))
      → AllCarried uplink cs
      → (bs : Bytes) × (marshal_commands codec cs ≡ ok bs)
        × (unmarshal_commands codec uplink bs ≡ ok cs)
  unfolding marshal_commands unmarshal_commands decode_commands
  unmarshal-marshal_commands uplink [] h = ([], refl, refl)
  unmarshal-marshal_commands uplink (c ∷ []) h =
      let (bs, (m, d)) = AtEnd-Leads uplink c.cid c.payload h in (bs ++ [], rw m refl, d)
  unmarshal-marshal_commands uplink (c ∷ d ∷ cs) h =
      let (rest, m', d') = unmarshal-marshal_commands uplink (d ∷ cs) h.1 in
      let (bs, (m, e)) = Delimited-Leads uplink c.cid c.payload rest h.0 in
      (bs ++ rest, rw m (rw m' refl), e ∙ rw d' refl)

  at_end :
      (uplink : Bool) (cid : ℕ) (p : Option P)
      → Carried Delimited uplink cid p
      → Carried AtEnd uplink cid p
  at_end uplink cid none h = h
  at_end uplink cid (some p) (z, g, bs, m, len, u) = (z, g, bs, m, len, rw append-nil at (u []))

  pub Delimited-AllCarried :
      (uplink : Bool) (cs : List (Command P))
      → All (λ (c : Command P). Carried Delimited uplink c.cid c.payload) cs
      → AllCarried uplink cs
  Delimited-AllCarried uplink [] h = tt
  Delimited-AllCarried uplink (c ∷ []) h = at_end uplink c.cid c.payload h.0
  Delimited-AllCarried uplink (c ∷ d ∷ cs) h = (h.0, Delimited-AllCarried uplink (d ∷ cs) h.1)

  pub followed-AllCarried :
      (uplink : Bool) (cs : List (Command P)) (last : Command P)
      → All (λ (c : Command P). Carried Delimited uplink c.cid c.payload) cs
      → Carried AtEnd uplink last.cid last.payload
      → AllCarried uplink (cs ++ (last ∷ []))
  followed-AllCarried uplink [] last h k = k
  followed-AllCarried uplink (c ∷ []) last h k = (h.0, k)
  followed-AllCarried uplink (c ∷ d ∷ cs) last h k =
      (h.0, followed-AllCarried uplink (d ∷ cs) last h.1 k)

-- A command of the direction with its own payload, or with none where the identifier has none.
abbrev pub CommandInRange :
    {P : Type 0}
    → CommandCodec P
    → (P → Type 0)
    → (P → Bool)
    → (P → ℕ)
    → Bool
    → ℕ
    → Option P
    → Type 0
CommandInRange codec InRange is_uplink cid_of uplink cid none =
    codec.get_command_payload uplink cid ≡ none
CommandInRange codec InRange is_uplink cid_of uplink cid (some p) =
    InRange p × (is_uplink p ≡ uplink) × (cid_of p ≡ cid)

-- A package whose payloads in range are delimited under their direction and identifier.
module _ {P : Type 0} (codec : CommandCodec P) (InRange : P → Type 0) (is_uplink : P → Bool)
    (cid_of : P → ℕ)
    (delimits : (p : P) → InRange p → Delimited codec (is_uplink p) (cid_of p) p) where
  InRange-Carried :
      (uplink : Bool) (cid : ℕ) (p : Option P)
      → CommandInRange codec InRange is_uplink cid_of uplink cid p
      → Carried codec (Delimited codec) uplink cid p
  InRange-Carried uplink cid none h = h
  InRange-Carried uplink cid (some p) (h, up, same) = rw⁻¹ (up, same) (delimits p h)

  pub All-Carried :
      (uplink : Bool) (cs : List (Command P))
      → All
          (λ (c : Command P). CommandInRange codec InRange is_uplink cid_of uplink c.cid c.payload)
          cs
      → All (λ (c : Command P). Carried codec (Delimited codec) uplink c.cid c.payload) cs
  All-Carried uplink [] h = tt
  All-Carried uplink (c ∷ cs) h =
      (InRange-Carried uplink c.cid c.payload h.0, All-Carried uplink cs h.1)

  pub commands_back :
      (uplink : Bool) (cs : List (Command P))
      → All
          (λ (c : Command P). CommandInRange codec InRange is_uplink cid_of uplink c.cid c.payload)
          cs
      → (bs : Bytes) × (marshal_commands codec cs ≡ ok bs)
        × (unmarshal_commands codec uplink bs ≡ ok cs)
  commands_back uplink cs h =
      unmarshal-marshal_commands codec uplink cs
        (Delimited-AllCarried codec uplink cs (All-Carried uplink cs h))
