-- ===== src/Band/Region.antt =====
-- GetConfig of band/band.go, and the methods of the interface Band that the regions implement in
-- their own way.
pub mod Rx1
pub mod Sizes
pub mod Plan
pub mod Frequency
use lorawan.Prelude.{ℕ, Bool, List, Result, ok, ◌||◌, if◌then◌else◌, err, message}
use Prim.Native.String.{String}
use text.Mathlib.Text.{◌==◌ as str_eq}
use lorawan.Mac.Settings.{DwellTime}
use lorawan.Mac.Link.{LinkAdrReqPayload}
use lorawan.Band.Channel.{Band}
use lorawan.Band.Lookup.{get_rx1_data_rate_index}
use lorawan.Band.LinkAdr.{get_link_adr_req_payloads, get_enabled_uplink_channel_indices_for}
use lorawan.Band.Us915.{
  us_get_link_adr_req_payloads, us_get_enabled_uplink_channel_indices_for,
  au_get_enabled_uplink_channel_indices_for, au_get_link_adr_req_payloads,
}
use lorawan.Band.As923.{as923_get_rx1_data_rate_index}
use lorawan.Band.Regions.As923
use lorawan.Band.Regions.Au915
use lorawan.Band.Regions.Cn470
use lorawan.Band.Regions.Cn779
use lorawan.Band.Regions.Eu433
use lorawan.Band.Regions.Eu863
use lorawan.Band.Regions.In865
use lorawan.Band.Regions.Kr920
use lorawan.Band.Regions.Us902
use lorawan.Band.Regions.Ru864

-- The types that implement the interface.
pub data Region : Type 0 where
  as923 au915 cn470 cn779 eu433 eu863 in865 kr920 us902 ru864 : Region

pub record RegionBand : Type 0 where
  pub region : Region
  pub dwell_time : DwellTime
  pub band : Band

-- The calls of the constructors.
unfoldable pub new_band_of : Region → Bool → DwellTime → Band
new_band_of as923 repeater dt = As923.new_band repeater dt
new_band_of au915 repeater dt = Au915.new_band repeater dt
new_band_of cn470 repeater dt = Cn470.new_band repeater
new_band_of cn779 repeater dt = Cn779.new_band repeater
new_band_of eu433 repeater dt = Eu433.new_band repeater
new_band_of eu863 repeater dt = Eu863.new_band repeater
new_band_of in865 repeater dt = In865.new_band repeater
new_band_of kr920 repeater dt = Kr920.new_band repeater
new_band_of us902 repeater dt = Us902.new_band repeater
new_band_of ru864 repeater dt = Ru864.new_band repeater

abbrev pub is_name : String → String → String → Bool
is_name a b name = str_eq name a || str_eq name b

abbrev pub region_band : Region → Bool → DwellTime → Result RegionBand
region_band r repeater dt =
    ok (record { region = r; dwell_time = dt; band = new_band_of r repeater dt })

unfoldable pub get_config : String → Bool → DwellTime → Result RegionBand
get_config name repeater dt =
    let new = λ (r : Region). region_band r repeater dt in
    if is_name "AS_923" "AS923" name
    then new as923
    else if is_name "AU_915_928" "AU915" name
    then new au915
    else if is_name "CN_470_510" "CN470" name
    then new cn470
    else if is_name "CN_779_787" "CN779" name
    then new cn779
    else if is_name "EU_433" "EU433" name
    then new eu433
    else if is_name "EU_863_870" "EU868" name
    then new eu863
    else if is_name "IN_865_867" "IN865" name
    then new in865
    else if is_name "KR_920_923" "KR920" name
    then new kr920
    else if is_name "US_902_928" "US915" name
    then new us902
    else if is_name "RU_864_870" "RU864" name
    then new ru864
    else err (message "band is undefined")

unfoldable pub rx1_data_rate_index_of : Region → DwellTime → Band → ℕ → ℕ → Result ℕ
rx1_data_rate_index_of as923 dt b dr offset = as923_get_rx1_data_rate_index dt dr offset
rx1_data_rate_index_of _ dt b dr offset = get_rx1_data_rate_index b dr offset

unfoldable pub link_adr_req_payloads_of : Region → Band → List ℕ → List LinkAdrReqPayload
link_adr_req_payloads_of us902 b device = us_get_link_adr_req_payloads b device
link_adr_req_payloads_of au915 b device = au_get_link_adr_req_payloads b device
link_adr_req_payloads_of _ b device = get_link_adr_req_payloads b device

unfoldable pub enabled_uplink_channel_indices_of :
    Region → Band → List ℕ → List LinkAdrReqPayload → Result (List ℕ)
enabled_uplink_channel_indices_of us902 b device ps =
    us_get_enabled_uplink_channel_indices_for b device ps
enabled_uplink_channel_indices_of au915 b device ps =
    au_get_enabled_uplink_channel_indices_for b device ps
enabled_uplink_channel_indices_of _ b device ps = get_enabled_uplink_channel_indices_for b device ps

unfoldable pub rx1_channel_index_of : Region → ℕ → Result ℕ
rx1_channel_index_of as923 i = As923.get_rx1_channel_index_for_uplink_channel_index i
rx1_channel_index_of au915 i = Au915.get_rx1_channel_index_for_uplink_channel_index i
rx1_channel_index_of cn470 i = Cn470.get_rx1_channel_index_for_uplink_channel_index i
rx1_channel_index_of cn779 i = Cn779.get_rx1_channel_index_for_uplink_channel_index i
rx1_channel_index_of eu433 i = Eu433.get_rx1_channel_index_for_uplink_channel_index i
rx1_channel_index_of eu863 i = Eu863.get_rx1_channel_index_for_uplink_channel_index i
rx1_channel_index_of in865 i = In865.get_rx1_channel_index_for_uplink_channel_index i
rx1_channel_index_of kr920 i = Kr920.get_rx1_channel_index_for_uplink_channel_index i
rx1_channel_index_of us902 i = Us902.get_rx1_channel_index_for_uplink_channel_index i
rx1_channel_index_of ru864 i = Ru864.get_rx1_channel_index_for_uplink_channel_index i

unfoldable pub rx1_frequency_of : Region → Band → ℕ → Result ℕ
rx1_frequency_of as923 b f = As923.get_rx1_frequency_for_uplink_frequency b f
rx1_frequency_of au915 b f = Au915.get_rx1_frequency_for_uplink_frequency b f
rx1_frequency_of cn470 b f = Cn470.get_rx1_frequency_for_uplink_frequency b f
rx1_frequency_of cn779 b f = Cn779.get_rx1_frequency_for_uplink_frequency b f
rx1_frequency_of eu433 b f = Eu433.get_rx1_frequency_for_uplink_frequency b f
rx1_frequency_of eu863 b f = Eu863.get_rx1_frequency_for_uplink_frequency b f
rx1_frequency_of in865 b f = In865.get_rx1_frequency_for_uplink_frequency b f
rx1_frequency_of kr920 b f = Kr920.get_rx1_frequency_for_uplink_frequency b f
rx1_frequency_of us902 b f = Us902.get_rx1_frequency_for_uplink_frequency b f
rx1_frequency_of ru864 b f = Ru864.get_rx1_frequency_for_uplink_frequency b f
