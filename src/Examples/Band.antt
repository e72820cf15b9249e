-- ===== src/Examples/Band.antt =====
-- The properties of channel plans at those of Europe and of the United States.
use lorawan.Band.Regions.Eu863
use lorawan.Band.Regions.Us902
use lorawan.Prelude.{
  true, false, some, ok, refl, arith, ◌∷◌, [], ◌≡◌, All, ◌++◌, ◌≤◌, get_or, ◌+◌, ◌⊎◌, ◌>>=◌, length,
}
use lorawan.Band.Channel.{
  Band, Channel, MaxPayloadSize, add_channel, set_enabled, disable_uplink_channel_index,
  change_uplink_channel, get_enabled_uplink_channel_indices, zero_channel,
}
use lorawan.Band.Channel.State.{add, disable, no_call, KeepsChannels, Calls-KeepsChannels, Calls}
use lorawan.Band.Region.{
  eu863, us902, new_band_of, rx1_data_rate_index_of, rx1_frequency_of, rx1_channel_index_of,
}
use lorawan.Band.CfList.Contents.{IsChannelList, get_cf_list-IsChannelList, ExtraInRange}
use lorawan.Band.LinkAdr.{set_at}
use lorawan.Band.CfList.{
  get_cf_list, is_extra, get_cf_list_channel_mask, get_cf_list_channels, cf_list_channels,
}
use lorawan.Band.Region.Rx1.{IsRx1DataRate, rx1_data_rate_index_of-IsRx1DataRate}
use lorawan.Band.Channel.Paired.{IsPaired, Calls-IsPaired}
use lorawan.Band.Us915.{us_get_enabled_uplink_channel_indices_for, us_get_link_adr_req_payloads}
use lorawan.Band.Region.Plan.{Configures, Calls-Configures}
use lorawan.Join.CfList.{CfList, channels}
use lorawan.Band.CfList.Masks.{IsMaskList, get_cf_list-IsMaskList}
use lorawan.Band.Lookup.{
  lookup_dr, lookup_name, named_or_latest, get_max_payload_size_for_data_rate_index,
  get_rx1_data_rate_index,
}
use lorawan.Mac.Settings.{no_limit}
use lorawan.Band.Us915.Plan.{us_payloads_synchronise}
use lorawan.Band.Region.Sizes.{max_payload_size_lem}
use lorawan.Band.Region.Frequency.{rx1_frequency_lem}

-- Europe's band with one more channel, and then without its first.
abbrev extra_channel : Channel
extra_channel = record {
  frequency = 867100000;
  min_dr = 0;
  max_dr = 5;
  enabled = true;
  custom = true;
}

abbrev europe : Band
europe = new_band_of eu863 false no_limit

abbrev extended : Band
extended = record europe {
  uplink_channels = europe.uplink_channels ++ (extra_channel ∷ []);
  downlink_channels = europe.downlink_channels ++ (extra_channel ∷ []);
}

abbrev changed : Band
changed = record extended { uplink_channels = set_enabled false 0 extended.uplink_channels }

changed-Calls : Calls europe changed
unfolding add_channel disable_uplink_channel_index change_uplink_channel new_band_of Eu863.new_band
    Eu863.uplink_channels
changed-Calls = add extended 867100000 0 5 refl (disable changed 0 refl no_call)

europe-IsPaired : IsPaired europe
unfolding new_band_of Eu863.new_band Eu863.uplink_channels Eu863.downlink_channels
europe-IsPaired = (refl, λ j. refl)

changed-length : length changed.uplink_channels ≡ 4
unfolding set_enabled new_band_of Eu863.new_band Eu863.uplink_channels
changed-length = refl

Calls-KeepsChannels_example : KeepsChannels europe changed
Calls-KeepsChannels_example = Calls-KeepsChannels europe changed changed-Calls

Calls-IsPaired_example : IsPaired changed
Calls-IsPaired_example = Calls-IsPaired europe changed changed-Calls europe-IsPaired

europe-plain : All (λ (c : Channel). c.custom ≡ false) europe.uplink_channels
unfolding new_band_of Eu863.new_band Eu863.uplink_channels
europe-plain = (refl, (refl, (refl, tt)))

europe-length : length europe.uplink_channels ≡ 3
unfolding new_band_of Eu863.new_band Eu863.uplink_channels
europe-length = refl

Calls-Configures_example : Configures eu863 changed (0 ∷ 2 ∷ [])
Calls-Configures_example =
    Calls-Configures eu863 false no_limit changed (0 ∷ 2 ∷ []) changed-Calls
      (omega (arith, changed-length)) (ground arith)

rx1_frequency_lem_example :
    rx1_frequency_of eu863 changed (get_or changed.uplink_channels 3 zero_channel).frequency ≡ (
      rx1_channel_index_of eu863 3 >>= λ j.
      ok (get_or changed.downlink_channels j zero_channel).frequency)
rx1_frequency_lem_example =
    rx1_frequency_lem eu863 false no_limit changed 3 changed-Calls (omega (arith, changed-length))

abbrev america : Band
america = new_band_of us902 false no_limit

america-length : length america.uplink_channels ≡ 72
unfolding new_band_of Us902.new_band Us902.uplink_channels
america-length = refl

america-plain : All (λ (c : Channel). c.custom ≡ false) america.uplink_channels
unfolding new_band_of Us902.new_band Us902.uplink_channels
america-plain = ground arith

us_payloads_synchronise_example :
    us_get_enabled_uplink_channel_indices_for america
      (0 ∷ 64 ∷ [])
      (us_get_link_adr_req_payloads america (0 ∷ 64 ∷ []))
    ≡ ok (get_enabled_uplink_channel_indices america)
us_payloads_synchronise_example =
    us_payloads_synchronise america (0 ∷ 64 ∷ []) america-length america-plain (ground arith)

europe_rx1 : rx1_data_rate_index_of eu863 no_limit europe 5 1 ≡ ok 4
unfolding rx1_data_rate_index_of get_rx1_data_rate_index new_band_of Eu863.new_band
    Eu863.rx1_data_rate_table lookup_dr
europe_rx1 = refl

rx1_data_rate_index_of-IsRx1DataRate_example : IsRx1DataRate eu863 false no_limit 5 1 4
rx1_data_rate_index_of-IsRx1DataRate_example =
    rx1_data_rate_index_of-IsRx1DataRate eu863 false no_limit 5 1 4 europe_rx1

abbrev test_size : MaxPayloadSize
test_size = record { m = 250; n = 242 }

europe_size : get_max_payload_size_for_data_rate_index europe "1.0.2" "A" 5 ≡ ok test_size
unfolding get_max_payload_size_for_data_rate_index new_band_of Eu863.new_band Eu863.payload_sizes
    named_or_latest lookup_name lookup_dr
europe_size = refl

max_payload_size_lem_example :
    (test_size.m ≤ 250)
    × ((test_size.m ≡ test_size.n + 8) ⊎ ((test_size.m ≡ 0) × (test_size.n ≡ 0)))
max_payload_size_lem_example =
    max_payload_size_lem eu863 false no_limit "1.0.2" "A" 5 test_size europe_size

abbrev test_list : CfList
test_list = record { payload = channels (867100000 ∷ 0 ∷ 0 ∷ 0 ∷ 0 ∷ []); cf_list_type = 0 }

changed_list : get_cf_list changed "1.1.0" ≡ some test_list
unfolding get_cf_list get_cf_list_channels cf_list_channels is_extra set_enabled set_at new_band_of
    Eu863.new_band Eu863.uplink_channels
changed_list = refl

changed-ExtraInRange : All ExtraInRange changed.uplink_channels
unfolding is_extra set_enabled new_band_of Eu863.new_band Eu863.uplink_channels
changed-ExtraInRange = ground arith

changed-extra : changed.supports_extra_channels ≡ true
unfolding new_band_of Eu863.new_band
changed-extra = refl

get_cf_list-IsChannelList_example : IsChannelList changed.uplink_channels test_list
get_cf_list-IsChannelList_example =
    get_cf_list-IsChannelList changed "1.1.0" test_list changed-extra changed-ExtraInRange
      changed_list

america-no_extra : america.supports_extra_channels ≡ false
unfolding new_band_of Us902.new_band
america-no_extra = refl

america_list : get_cf_list america "1.1.0" ≡ some (get_cf_list_channel_mask america)
unfolding get_cf_list new_band_of Us902.new_band
america_list = refl

get_cf_list-IsMaskList_example :
    IsMaskList america.uplink_channels (get_cf_list_channel_mask america)
get_cf_list-IsMaskList_example =
    get_cf_list-IsMaskList america "1.1.0" (get_cf_list_channel_mask america) america-no_extra
      (omega (arith, america-length)) (omega (arith, america-length)) america_list
