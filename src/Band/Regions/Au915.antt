-- ===== src/Band/Regions/Au915.antt =====
-- The region of band/band_au915_928.go.
use lorawan.Prelude.{
  ℕ, Bool, List, Result, ◌*◌, ◌∷◌, [], not, ok, true, ◌+◌, ◌>>=◌, false, get_or, ◌%◌, ◌++◌, ◌||◌,
  if◌then◌else◌,
}
use Prim.Native.String.{String}
use lorawan.Band.Channel.{
  MaxPayloadSize, Band, Channel, DataRate, PayloadSizes, zero_channel, get_uplink_channel_index,
}
use lorawan.Band.Regions.{
  Defaults, second, lora, standard_channel, make_channels, at_dr, beacon_index,
}
use text.Mathlib.Text.{◌==◌ as str_eq}
use lorawan.Prelude.Bytes.{Bytes}
use lorawan.Prelude.Int.{ℤ, pos, negsuc}
use lorawan.Mac.Settings.{DwellTime, is_400ms}

abbrev pub name : String
name = "AU915"

unfoldable pub defaults : Defaults
defaults = record {
  rx2_frequency = 923300000;
  rx2_data_rate = 8;
  receive_delay1 = 1 * second;
  receive_delay2 = 2 * second;
  join_accept_delay1 = 5 * second;
  join_accept_delay2 = 6 * second;
}

unfoldable pub get_downlink_tx_power : ℕ → ℕ
get_downlink_tx_power freq = 27

-- In hundredths of a dBm, for Go's float32.
unfoldable pub get_default_max_uplink_eirp : ℕ
get_default_max_uplink_eirp = 3000

unfoldable pub get_ping_slot_frequency : Band → Bytes → ℕ → Result ℕ
get_ping_slot_frequency b dev_addr beacon_time =
    ok (get_or b.downlink_channels (beacon_index dev_addr beacon_time % 8) zero_channel).frequency

unfoldable pub get_rx1_channel_index_for_uplink_channel_index : ℕ → Result ℕ
get_rx1_channel_index_for_uplink_channel_index uplink_channel = ok (uplink_channel % 8)

unfoldable pub get_rx1_frequency_for_uplink_frequency : Band → ℕ → Result ℕ
get_rx1_frequency_for_uplink_frequency b uplink_frequency = do
  uplink_chan ← get_uplink_channel_index b uplink_frequency true
  rx1_chan ← get_rx1_channel_index_for_uplink_channel_index uplink_chan
  ok (get_or b.downlink_channels rx1_chan zero_channel).frequency

unfoldable pub implements_tx_param_setup : String → Bool
implements_tx_param_setup version = not (str_eq version "1.0.1" || str_eq version "1.0.2")

unfoldable pub data_rates : List (ℕ × DataRate)
data_rates =
    (0, lora 12 125 true false)
    ∷ (1, lora 11 125 true false)
    ∷ (2, lora 10 125 true false)
    ∷ (3, lora 9 125 true false)
    ∷ (4, lora 8 125 true false)
    ∷ (5, lora 7 125 true false)
    ∷ (6, lora 8 500 true false)
    ∷ (8, lora 12 500 false true)
    ∷ (9, lora 11 500 false true)
    ∷ (10, lora 10 500 false true)
    ∷ (11, lora 9 500 false true)
    ∷ (12, lora 8 500 false true)
    ∷ (13, lora 7 500 false true)
    ∷ []

unfoldable pub rx1_data_rate_table : List (ℕ × List ℕ)
rx1_data_rate_table =
    (0, (8 ∷ 8 ∷ 8 ∷ 8 ∷ 8 ∷ 8 ∷ []))
    ∷ (1, (9 ∷ 8 ∷ 8 ∷ 8 ∷ 8 ∷ 8 ∷ []))
    ∷ (2, (10 ∷ 9 ∷ 8 ∷ 8 ∷ 8 ∷ 8 ∷ []))
    ∷ (3, (11 ∷ 10 ∷ 9 ∷ 8 ∷ 8 ∷ 8 ∷ []))
    ∷ (4, (12 ∷ 11 ∷ 10 ∷ 9 ∷ 8 ∷ 8 ∷ []))
    ∷ (5, (13 ∷ 12 ∷ 11 ∷ 10 ∷ 9 ∷ 8 ∷ []))
    ∷ (6, (13 ∷ 13 ∷ 12 ∷ 11 ∷ 10 ∷ 9 ∷ []))
    ∷ []

unfoldable pub tx_power_offsets : List ℤ
tx_power_offsets =
    pos 0
    ∷ negsuc 1
    ∷ negsuc 3
    ∷ negsuc 5
    ∷ negsuc 7
    ∷ negsuc 9
    ∷ negsuc 11
    ∷ negsuc 13
    ∷ negsuc 15
    ∷ negsuc 17
    ∷ negsuc 19
    ∷ negsuc 21
    ∷ negsuc 23
    ∷ negsuc 25
    ∷ negsuc 27
    ∷ []

unfoldable pub uplink_channels : List Channel
uplink_channels =
    make_channels 64 (λ i. standard_channel (915200000 + i * 200000) 0 5)
    ++ make_channels 8 (λ i. standard_channel (915900000 + i * 1600000) 6 6)

unfoldable pub downlink_channels : List Channel
downlink_channels = make_channels 8 (λ i. standard_channel (923300000 + i * 600000) 8 13)

-- Sizes by data rate, named after the first place that has them.
abbrev dwell_repeater_sizes_1_0_3_latest : List (ℕ × MaxPayloadSize)
dwell_repeater_sizes_1_0_3_latest =
    at_dr 0 0 0
    ∷ at_dr 1 0 0
    ∷ at_dr 2 19 11
    ∷ at_dr 3 61 53
    ∷ at_dr 4 133 125
    ∷ at_dr 5 250 242
    ∷ at_dr 6 250 242
    ∷ at_dr 8 41 33
    ∷ at_dr 9 117 109
    ∷ at_dr 10 230 222
    ∷ at_dr 11 230 222
    ∷ at_dr 12 230 222
    ∷ at_dr 13 230 222
    ∷ []

abbrev dwell_repeater_sizes_latest : List (ℕ × MaxPayloadSize)
dwell_repeater_sizes_latest =
    at_dr 0 0 0
    ∷ at_dr 1 0 0
    ∷ at_dr 2 19 11
    ∷ at_dr 3 61 53
    ∷ at_dr 4 133 125
    ∷ at_dr 5 230 222
    ∷ at_dr 6 230 222
    ∷ at_dr 8 41 33
    ∷ at_dr 9 117 109
    ∷ at_dr 10 230 222
    ∷ at_dr 11 230 222
    ∷ at_dr 12 230 222
    ∷ at_dr 13 230 222
    ∷ []

abbrev repeater_sizes_1_0_1_latest : List (ℕ × MaxPayloadSize)
repeater_sizes_1_0_1_latest =
    at_dr 0 19 11
    ∷ at_dr 1 61 53
    ∷ at_dr 2 134 126
    ∷ at_dr 3 250 242
    ∷ at_dr 4 250 242
    ∷ at_dr 8 41 33
    ∷ at_dr 9 117 109
    ∷ at_dr 10 230 222
    ∷ at_dr 11 230 222
    ∷ at_dr 12 230 222
    ∷ at_dr 13 230 222
    ∷ []

abbrev repeater_sizes_1_0_2_latest : List (ℕ × MaxPayloadSize)
repeater_sizes_1_0_2_latest =
    at_dr 0 59 51
    ∷ at_dr 1 59 51
    ∷ at_dr 2 59 51
    ∷ at_dr 3 123 115
    ∷ at_dr 4 230 222
    ∷ at_dr 5 230 222
    ∷ at_dr 6 230 222
    ∷ at_dr 8 41 33
    ∷ at_dr 9 117 109
    ∷ at_dr 10 230 222
    ∷ at_dr 11 230 222
    ∷ at_dr 12 230 222
    ∷ at_dr 13 230 222
    ∷ []

abbrev dwell_sizes_1_0_3_latest : List (ℕ × MaxPayloadSize)
dwell_sizes_1_0_3_latest =
    at_dr 0 0 0
    ∷ at_dr 1 0 0
    ∷ at_dr 2 19 11
    ∷ at_dr 3 61 53
    ∷ at_dr 4 133 125
    ∷ at_dr 5 250 242
    ∷ at_dr 6 250 242
    ∷ at_dr 8 61 53
    ∷ at_dr 9 137 129
    ∷ at_dr 10 250 242
    ∷ at_dr 11 250 242
    ∷ at_dr 12 250 242
    ∷ at_dr 13 250 242
    ∷ []

abbrev sizes_1_0_1_latest : List (ℕ × MaxPayloadSize)
sizes_1_0_1_latest =
    at_dr 0 19 11
    ∷ at_dr 1 61 53
    ∷ at_dr 2 134 126
    ∷ at_dr 3 250 242
    ∷ at_dr 4 250 242
    ∷ at_dr 8 61 53
    ∷ at_dr 9 137 129
    ∷ at_dr 10 250 242
    ∷ at_dr 11 250 242
    ∷ at_dr 12 250 242
    ∷ at_dr 13 250 242
    ∷ []

abbrev sizes_1_0_2_latest : List (ℕ × MaxPayloadSize)
sizes_1_0_2_latest =
    at_dr 0 59 51
    ∷ at_dr 1 59 51
    ∷ at_dr 2 59 51
    ∷ at_dr 3 123 115
    ∷ at_dr 4 250 242
    ∷ at_dr 5 250 242
    ∷ at_dr 6 250 242
    ∷ at_dr 8 61 53
    ∷ at_dr 9 137 129
    ∷ at_dr 10 250 242
    ∷ at_dr 11 250 242
    ∷ at_dr 12 250 242
    ∷ at_dr 13 250 242
    ∷ []

unfoldable pub dwell_repeater_payload_sizes : PayloadSizes
dwell_repeater_payload_sizes =
    ("1.0.3", (("latest", dwell_repeater_sizes_1_0_3_latest) ∷ []))
    ∷ ("1.1.0", (("latest", dwell_repeater_sizes_1_0_3_latest) ∷ []))
    ∷ ("latest", (("latest", dwell_repeater_sizes_latest) ∷ []))
    ∷ []

unfoldable pub repeater_payload_sizes : PayloadSizes
repeater_payload_sizes =
    ("1.0.1", (("latest", repeater_sizes_1_0_1_latest) ∷ []))
    ∷ ("1.0.2", (("A", repeater_sizes_1_0_1_latest) ∷ ("latest", repeater_sizes_1_0_2_latest) ∷ []))
    ∷ ("1.0.3", (("latest", repeater_sizes_1_0_2_latest) ∷ []))
    ∷ ("1.1.0", (("latest", repeater_sizes_1_0_2_latest) ∷ []))
    ∷ ("latest", (("latest", repeater_sizes_1_0_2_latest) ∷ []))
    ∷ []

unfoldable pub dwell_payload_sizes : PayloadSizes
dwell_payload_sizes =
    ("1.0.3", (("latest", dwell_sizes_1_0_3_latest) ∷ []))
    ∷ ("1.1.0", (("latest", dwell_sizes_1_0_3_latest) ∷ []))
    ∷ ("latest", (("latest", dwell_sizes_1_0_3_latest) ∷ []))
    ∷ []

unfoldable pub payload_sizes : PayloadSizes
payload_sizes =
    ("1.0.1", (("latest", sizes_1_0_1_latest) ∷ []))
    ∷ ("1.0.2", (("A", sizes_1_0_1_latest) ∷ ("latest", sizes_1_0_2_latest) ∷ []))
    ∷ ("1.0.3", (("latest", sizes_1_0_2_latest) ∷ []))
    ∷ ("1.1.0", (("latest", sizes_1_0_2_latest) ∷ []))
    ∷ ("latest", (("latest", sizes_1_0_2_latest) ∷ []))
    ∷ []

unfoldable pub new_band : Bool → DwellTime → Band
new_band repeater_compatible dt = record {
  supports_extra_channels = false;
  data_rates = data_rates;
  max_payload_size_per_dr =
      if repeater_compatible
      then if is_400ms dt then dwell_repeater_payload_sizes else repeater_payload_sizes
      else if is_400ms dt
      then dwell_payload_sizes
      else payload_sizes;
  rx1_data_rate_table = rx1_data_rate_table;
  uplink_channels = uplink_channels;
  downlink_channels = downlink_channels;
  tx_power_offsets = tx_power_offsets;
}
