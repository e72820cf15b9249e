-- ===== src/Band/Regions/Cn779.antt =====
-- The region of band/band_cn779_787.go.
use lorawan.Prelude.{ℕ, Bool, List, Result, ◌*◌, ◌∷◌, [], false, ok, true, if◌then◌else◌}
use Prim.Native.String.{String}
use lorawan.Band.Channel.{MaxPayloadSize, Band, Channel, DataRate, PayloadSizes}
use lorawan.Band.Regions.{Defaults, second, lora, fsk, standard_channel, at_dr}
use lorawan.Prelude.Bytes.{Bytes}
use lorawan.Prelude.Int.{ℤ, pos, negsuc}

abbrev pub name : String
name = "CN779"

unfoldable pub defaults : Defaults
defaults = record {
  rx2_frequency = 786000000;
  rx2_data_rate = 0;
  receive_delay1 = 1 * second;
  receive_delay2 = 2 * second;
  join_accept_delay1 = 5 * second;
  join_accept_delay2 = 6 * second;
}

unfoldable pub get_downlink_tx_power : ℕ → ℕ
get_downlink_tx_power freq = 10

-- In hundredths of a dBm, for Go's float32.
unfoldable pub get_default_max_uplink_eirp : ℕ
get_default_max_uplink_eirp = 1215

unfoldable pub get_ping_slot_frequency : Band → Bytes → ℕ → Result ℕ
get_ping_slot_frequency b dev_addr beacon_time = ok 785000000

unfoldable pub get_rx1_channel_index_for_uplink_channel_index : ℕ → Result ℕ
get_rx1_channel_index_for_uplink_channel_index uplink_channel = ok uplink_channel

unfoldable pub get_rx1_frequency_for_uplink_frequency : Band → ℕ → Result ℕ
get_rx1_frequency_for_uplink_frequency b uplink_frequency = ok uplink_frequency

unfoldable pub implements_tx_param_setup : String → Bool
implements_tx_param_setup version = false

unfoldable pub data_rates : List (ℕ × DataRate)
data_rates =
    (0, lora 12 125 true true)
    ∷ (1, lora 11 125 true true)
    ∷ (2, lora 10 125 true true)
    ∷ (3, lora 9 125 true true)
    ∷ (4, lora 8 125 true true)
    ∷ (5, lora 7 125 true true)
    ∷ (6, lora 7 250 true true)
    ∷ (7, fsk 50000 true true)
    ∷ []

unfoldable pub rx1_data_rate_table : List (ℕ × List ℕ)
rx1_data_rate_table =
    (0, (0 ∷ 0 ∷ 0 ∷ 0 ∷ 0 ∷ 0 ∷ []))
    ∷ (1, (1 ∷ 0 ∷ 0 ∷ 0 ∷ 0 ∷ 0 ∷ []))
    ∷ (2, (2 ∷ 1 ∷ 0 ∷ 0 ∷ 0 ∷ 0 ∷ []))
    ∷ (3, (3 ∷ 2 ∷ 1 ∷ 0 ∷ 0 ∷ 0 ∷ []))
    ∷ (4, (4 ∷ 3 ∷ 2 ∷ 1 ∷ 0 ∷ 0 ∷ []))
    ∷ (5, (5 ∷ 4 ∷ 3 ∷ 2 ∷ 1 ∷ 0 ∷ []))
    ∷ (6, (6 ∷ 5 ∷ 4 ∷ 3 ∷ 2 ∷ 1 ∷ []))
    ∷ (7, (7 ∷ 6 ∷ 5 ∷ 4 ∷ 3 ∷ 2 ∷ []))
    ∷ []

unfoldable pub tx_power_offsets : List ℤ
tx_power_offsets = pos 0 ∷ negsuc 1 ∷ negsuc 3 ∷ negsuc 5 ∷ negsuc 7 ∷ negsuc 9 ∷ []

unfoldable pub uplink_channels : List Channel
uplink_channels =
    standard_channel 779500000 0 5
    ∷ standard_channel 779700000 0 5
    ∷ standard_channel 779900000 0 5
    ∷ []

unfoldable pub downlink_channels : List Channel
downlink_channels =
    standard_channel 779500000 0 5
    ∷ standard_channel 779700000 0 5
    ∷ standard_channel 779900000 0 5
    ∷ []

-- Sizes by data rate, named after the first place that has them.
abbrev repeater_sizes_1_0_0_latest : List (ℕ × MaxPayloadSize)
repeater_sizes_1_0_0_latest =
    at_dr 0 59 51
    ∷ at_dr 1 59 51
    ∷ at_dr 2 59 51
    ∷ at_dr 3 123 115
    ∷ at_dr 4 230 222
    ∷ at_dr 5 230 222
    ∷ at_dr 6 250 242
    ∷ at_dr 7 230 222
    ∷ []

abbrev repeater_sizes_latest : List (ℕ × MaxPayloadSize)
repeater_sizes_latest =
    at_dr 0 59 51
    ∷ at_dr 1 59 51
    ∷ at_dr 2 59 51
    ∷ at_dr 3 123 115
    ∷ at_dr 4 230 222
    ∷ at_dr 5 230 222
    ∷ at_dr 6 230 222
    ∷ at_dr 7 230 222
    ∷ []

abbrev sizes_1_0_0_latest : List (ℕ × MaxPayloadSize)
sizes_1_0_0_latest =
    at_dr 0 59 51
    ∷ at_dr 1 59 51
    ∷ at_dr 2 59 51
    ∷ at_dr 3 123 115
    ∷ at_dr 4 250 242
    ∷ at_dr 5 250 242
    ∷ at_dr 6 250 242
    ∷ at_dr 7 250 242
    ∷ []

unfoldable pub repeater_payload_sizes : PayloadSizes
repeater_payload_sizes =
    ("1.0.0", (("latest", repeater_sizes_1_0_0_latest) ∷ []))
    ∷ ("1.0.1", (("latest", repeater_sizes_1_0_0_latest) ∷ []))
    ∷ ("1.0.2", (("latest", repeater_sizes_1_0_0_latest) ∷ []))
    ∷ ("1.0.3", (("latest", repeater_sizes_1_0_0_latest) ∷ []))
    ∷ ("latest", (("latest", repeater_sizes_latest) ∷ []))
    ∷ []

unfoldable pub payload_sizes : PayloadSizes
payload_sizes =
    ("1.0.0", (("latest", sizes_1_0_0_latest) ∷ []))
    ∷ ("1.0.1", (("latest", sizes_1_0_0_latest) ∷ []))
    ∷ ("1.0.2", (("latest", sizes_1_0_0_latest) ∷ []))
    ∷ ("1.0.3", (("latest", sizes_1_0_0_latest) ∷ []))
    ∷ ("latest", (("latest", sizes_1_0_0_latest) ∷ []))
    ∷ []

unfoldable pub new_band : Bool → Band
new_band repeater_compatible = record {
  supports_extra_channels = true;
  data_rates = data_rates;
  max_payload_size_per_dr = if repeater_compatible then repeater_payload_sizes else payload_sizes;
  rx1_data_rate_table = rx1_data_rate_table;
  uplink_channels = uplink_channels;
  downlink_channels = downlink_channels;
  tx_power_offsets = tx_power_offsets;
}
