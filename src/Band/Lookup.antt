-- ===== src/Band/Lookup.antt =====
-- The tables of a band: data rates, payload sizes, the first receive window and transmit power
-- (band.go).
use lorawan.Prelude.{
  ℕ, Bool, List, [], ◌∷◌, Option, Result, if◌then◌else◌, none, err, some, true, ◌&&◌, ◌==◌, leb,
  message, ok, ◌>>=◌, false, get_or, length, ◌>>◌, fail_if, found,
}
use text.Mathlib.Text.{◌==◌ as str_eq}
use lorawan.Band.Channel.{
  Band, DataRate, Modulation, get_uplink_channel_index, MaxPayloadSize, zero_channel,
  lora_modulation, fsk_modulation, no_modulation,
}
use Prim.Native.String.{String}
use lorawan.Prelude.Int.{ℤ, pos}

-- `v, ok := m[key]`
unfoldable pub lookup_dr {ℓ} : {A : Type ℓ} → ℕ → List (ℕ × A) → Option A
lookup_dr k [] = none
lookup_dr k ((i, a) ∷ m) = if i == k then some a else lookup_dr k m

unfoldable pub lookup_name {ℓ} : {A : Type ℓ} → String → List (String × A) → Option A
lookup_name k [] = none
lookup_name k ((i, a) ∷ m) = if str_eq i k then some a else lookup_name k m

unfoldable pub get_data_rate : Band → ℕ → Result DataRate
get_data_rate b dr = found (message "invalid data-rate") (lookup_dr dr b.data_rates)

unfoldable pub same_modulation : Modulation → Modulation → Bool
same_modulation lora_modulation lora_modulation = true
same_modulation fsk_modulation fsk_modulation = true
same_modulation no_modulation no_modulation = true
same_modulation _ _ = false

unfoldable pub is_data_rate_for : Bool → DataRate → DataRate → Bool
is_data_rate_for up wanted d =
    (if up then d.uplink else d.downlink)
    && same_modulation d.modulation wanted.modulation
    && d.bandwidth == wanted.bandwidth
    && d.bit_rate == wanted.bit_rate
    && d.spread_factor == wanted.spread_factor

-- The loop over a map, whose order Go leaves open: the order is that of the list.
unfoldable pub data_rate_index : Bool → DataRate → List (ℕ × DataRate) → Result ℕ
data_rate_index up wanted [] = err (message "data-rate not found")
data_rate_index up wanted ((i, d) ∷ m) =
    if is_data_rate_for up wanted d then ok i else data_rate_index up wanted m

unfoldable pub get_data_rate_index : Band → Bool → DataRate → Result ℕ
get_data_rate_index b up wanted = data_rate_index up wanted b.data_rates

abbrev pub latest : String
latest = "latest"

abbrev pub or_else {ℓ} : {A : Type ℓ} → Option A → Option A → Option A
or_else (some a) other = some a
or_else none other = other

-- The entry of a name, and that of "latest" where there is none.
unfoldable pub named_or_latest {ℓ} : {A : Type ℓ} → String → List (String × A) → Option A
named_or_latest name m = or_else (lookup_name name m) (lookup_name latest m)

unfoldable pub get_max_payload_size_for_data_rate_index :
    Band → String → String → ℕ → Result MaxPayloadSize
get_max_payload_size_for_data_rate_index b version revision dr = do
  by_revision ←
      found (message "no max payload-size") (named_or_latest version b.max_payload_size_per_dr)
  by_dr ← found (message "no max payload-size for revision") (named_or_latest revision by_revision)
  found (message "invalid data-rate") (lookup_dr dr by_dr)

unfoldable pub get_rx1_data_rate_index : Band → ℕ → ℕ → Result ℕ
get_rx1_data_rate_index b uplink_dr offset = do
  drs ← found (message "invalid data-rate") (lookup_dr uplink_dr b.rx1_data_rate_table)
  fail_if (leb (length drs) offset) (message "invalid RX1 data-rate offset")
  ok (get_or drs offset 0)

unfoldable pub get_tx_power_offset : Band → ℕ → Result ℤ
get_tx_power_offset b tx_power =
    if leb (length b.tx_power_offsets) tx_power
    then err (message "invalid tx-power")
    else ok (get_or b.tx_power_offsets tx_power (pos 0))

-- The default channel first, and then the custom one.
unfoldable pub index_for_frequency_dr : Band → ℕ → ℕ → Bool → Option ℕ
index_for_frequency_dr b frequency dr default_channel =
    elim (get_uplink_channel_index b frequency default_channel) [
      | err e ↦ none
      | ok i ↦
          let c = get_or b.uplink_channels i zero_channel in
          if leb c.min_dr dr && leb dr c.max_dr then some i else none
    ]

unfoldable pub get_uplink_channel_index_for_frequency_dr : Band → ℕ → ℕ → Result ℕ
get_uplink_channel_index_for_frequency_dr b frequency dr =
    elim (index_for_frequency_dr b frequency dr true) [
      | some i ↦ ok i
      | none ↦ elim (index_for_frequency_dr b frequency dr false) [
        | some i ↦ ok i
        | none ↦ err (message "no channel found for frequency and data-rate")
      ]
    ]
