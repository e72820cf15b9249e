-- ===== src/Band/Regions.antt =====
-- What the constructors of the regional bands write their tables with (band/band_*.go).
pub mod Ru864
pub mod Us902
pub mod Kr920
pub mod In865
pub mod Eu863
pub mod Eu433
pub mod Cn779
pub mod Cn470
pub mod Au915
pub mod As923
use lorawan.Prelude.{ℕ, zero, suc, Bool, List, false, true, ◌+◌, [], ◌/◌, ◌*◌, ◌∷◌}
use lorawan.Prelude.Bytes.{Bytes, uint32_be}
use lorawan.Band.Channel.{
  Channel, DataRate, MaxPayloadSize, lora_modulation, fsk_modulation, no_modulation,
}

-- Durations are in nanoseconds.
pub record Defaults : Type 0 where
  pub rx2_frequency : ℕ
  pub rx2_data_rate : ℕ
  pub receive_delay1 : ℕ
  pub receive_delay2 : ℕ
  pub join_accept_delay1 : ℕ
  pub join_accept_delay2 : ℕ

abbrev pub second : ℕ
second = 1000000000

abbrev pub lora : ℕ → ℕ → Bool → Bool → DataRate
lora spread_factor bandwidth uplink downlink = record {
  uplink = uplink;
  downlink = downlink;
  modulation = lora_modulation;
  spread_factor = spread_factor;
  bandwidth = bandwidth;
  bit_rate = 0;
}

abbrev pub fsk : ℕ → Bool → Bool → DataRate
fsk bit_rate uplink downlink = record {
  uplink = uplink;
  downlink = downlink;
  modulation = fsk_modulation;
  spread_factor = 0;
  bandwidth = 0;
  bit_rate = bit_rate;
}

-- `DataRate{}`
abbrev pub zero_data_rate : DataRate
zero_data_rate = record {
  uplink = false;
  downlink = false;
  modulation = no_modulation;
  spread_factor = 0;
  bandwidth = 0;
  bit_rate = 0;
}

-- A channel that the region defines, enabled.
abbrev pub standard_channel : ℕ → ℕ → ℕ → Channel
standard_channel frequency min_dr max_dr = record {
  frequency = frequency;
  min_dr = min_dr;
  max_dr = max_dr;
  enabled = true;
  custom = false;
}

-- The loops that fill the channels, from number `i` on.
abbrev pub channels_from : (ℕ → Channel) → ℕ → ℕ → List Channel
channels_from f i zero = []
channels_from f i (suc n) = f i ∷ channels_from f (i + 1) n

abbrev pub make_channels : ℕ → (ℕ → Channel) → List Channel
make_channels n f = channels_from f 0 n

abbrev pub at_dr : ℕ → ℕ → ℕ → ℕ × MaxPayloadSize
at_dr dr m n = (dr, record { m = m; n = n })

-- `int(binary.BigEndian.Uint32(devAddr[:])) + int(beaconTime/(128*time.Second))`
abbrev pub beacon_index : Bytes → ℕ → ℕ
beacon_index dev_addr beacon_time = uint32_be dev_addr + beacon_time / (128 * second)
