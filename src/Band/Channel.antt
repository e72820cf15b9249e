-- ===== src/Band/Channel.antt =====
-- The channels of a band and the methods of band.go that read and change them.
pub mod State
pub mod Paired
use lorawan.Prelude.{
  ℕ, Bool, List, [], ◌∷◌, ◌++◌, Option, Result, false, if◌then◌else◌, not, suc, true, ◌==◌, leb,
  none, zero, ◌&&◌, ◌+◌, ◌>>◌, err, fail_if, length, some, message, ok, get_or, found,
}
use Prim.Native.String.{String}
use lorawan.Prelude.Int.{ℤ}

-- The third is the empty string, which a `DataRate{}` has.
pub data Modulation : Type 0 where
  lora_modulation fsk_modulation no_modulation : Modulation

pub record DataRate : Type 0 where
  pub uplink : Bool
  pub downlink : Bool
  pub modulation : Modulation
  pub spread_factor : ℕ
  pub bandwidth : ℕ
  pub bit_rate : ℕ

pub record MaxPayloadSize : Type 0 where
  pub m : ℕ
  pub n : ℕ

pub record Channel : Type 0 where
  pub frequency : ℕ
  pub min_dr : ℕ
  pub max_dr : ℕ
  pub enabled : Bool
  pub custom : Bool

-- `Channel{}`
abbrev pub zero_channel : Channel
zero_channel = record { frequency = 0; min_dr = 0; max_dr = 0; enabled = false; custom = false }

-- Payload sizes by protocol version, revision and data rate, each a map.
abbrev pub PayloadSizes : Type 0
PayloadSizes = List (String × List (String × List (ℕ × MaxPayloadSize)))

pub record Band : Type 0 where
  pub supports_extra_channels : Bool
  pub data_rates : List (ℕ × DataRate)
  pub max_payload_size_per_dr : PayloadSizes
  pub rx1_data_rate_table : List (ℕ × List ℕ)
  pub uplink_channels : List Channel
  pub downlink_channels : List Channel
  pub tx_power_offsets : List ℤ

unfoldable pub add_channel : Band → ℕ → ℕ → ℕ → Result Band
add_channel b frequency min_dr max_dr = do
  fail_if (not b.supports_extra_channels) (message "band does not support extra channels")
  let c : Channel = record {
    frequency = frequency;
    min_dr = min_dr;
    max_dr = max_dr;
    enabled = not (frequency == 0);
    custom = true;
  }
  ok (record b {
    uplink_channels = b.uplink_channels ++ (c ∷ []);
    downlink_channels = b.downlink_channels ++ (c ∷ []);
  })

-- `channels[i]` for an index that is tested first
unfoldable pub channel_at : List Channel → ℕ → Result Channel
channel_at chs i =
    if leb (length chs) i then err (message "invalid channel") else ok (get_or chs i zero_channel)

unfoldable pub get_uplink_channel : Band → ℕ → Result Channel
get_uplink_channel b i = channel_at b.uplink_channels i

unfoldable pub get_downlink_channel : Band → ℕ → Result Channel
get_downlink_channel b i = channel_at b.downlink_channels i

-- `c.custom != defaultChannel`
unfoldable pub is_channel_for : ℕ → Bool → Channel → Bool
is_channel_for frequency default_channel c =
    frequency == c.frequency && (if default_channel then not c.custom else c.custom)

-- The loops over the channels from index `i` on.
unfoldable pub first_index : (Channel → Bool) → ℕ → List Channel → Option ℕ
first_index test i [] = none
first_index test i (c ∷ cs) = if test c then some i else first_index test (i + 1) cs

unfoldable pub indices : (Channel → Bool) → ℕ → List Channel → List ℕ
indices test i [] = []
indices test i (c ∷ cs) = if test c then i ∷ indices test (i + 1) cs else indices test (i + 1) cs

unfoldable pub get_uplink_channel_index : Band → ℕ → Bool → Result ℕ
get_uplink_channel_index b frequency default_channel =
    found (message "unknown channel for frequency")
      (first_index (is_channel_for frequency default_channel) 0 b.uplink_channels)

unfoldable pub get_uplink_channel_indices : Band → List ℕ
get_uplink_channel_indices b = indices (λ c. true) 0 b.uplink_channels

unfoldable pub get_standard_uplink_channel_indices : Band → List ℕ
get_standard_uplink_channel_indices b = indices (λ c. not c.custom) 0 b.uplink_channels

unfoldable pub get_custom_uplink_channel_indices : Band → List ℕ
get_custom_uplink_channel_indices b = indices (λ c. c.custom) 0 b.uplink_channels

unfoldable pub get_enabled_uplink_channel_indices : Band → List ℕ
get_enabled_uplink_channel_indices b = indices (λ c. c.enabled) 0 b.uplink_channels

unfoldable pub get_disabled_uplink_channel_indices : Band → List ℕ
get_disabled_uplink_channel_indices b = indices (λ c. not c.enabled) 0 b.uplink_channels

-- `channels[i].enabled = value`
unfoldable pub set_enabled : Bool → ℕ → List Channel → List Channel
set_enabled value i [] = []
set_enabled value zero (c ∷ cs) = record c { enabled = value } ∷ cs
set_enabled value (suc i) (c ∷ cs) = c ∷ set_enabled value i cs

unfoldable pub change_uplink_channel : Bool → Band → ℕ → Result Band
change_uplink_channel value b i =
    if leb (length b.uplink_channels) i
    then err (message "channel does not exist")
    else ok (record b { uplink_channels = set_enabled value i b.uplink_channels })

unfoldable pub disable_uplink_channel_index : Band → ℕ → Result Band
disable_uplink_channel_index b i = change_uplink_channel false b i

unfoldable pub enable_uplink_channel_index : Band → ℕ → Result Band
enable_uplink_channel_index b i = change_uplink_channel true b i
