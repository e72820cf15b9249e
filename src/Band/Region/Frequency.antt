-- ===== src/Band/Region/Frequency.antt =====
-- The frequency of the first receive window in every region (band/band_*.go).
use lorawan.Prelude.{
  [], ◌∷◌, ℕ, zero, suc, none, some, true, false, Bool, List, Option, ◌≡◌, All, arith, get_or,
  length, ◌<◌, ◌==◌, Bool-cases, ok, ◌&&◌, ◌>>=◌, ap, inl, refl, inr, ◌+◌,
}
use lorawan.Mac.Settings.{DwellTime}
use lorawan.Band.Channel.{
  Band, Channel, zero_channel, first_index, is_channel_for, get_uplink_channel_index,
}
use lorawan.Band.Channel.State.{Calls, SameChannel, Calls-KeepsChannels, Calls-fixed}
use lorawan.Band.Channel.Paired.{Calls-IsPaired}
use lorawan.Band.Region.{
  Region, as923, au915, cn470, cn779, eu433, eu863, in865, kr920, us902, ru864, new_band_of,
  rx1_channel_index_of, rx1_frequency_of,
}
use lorawan.Band.Regions.As923
use lorawan.Band.Regions.Au915
use lorawan.Band.Regions.Cn470
use lorawan.Band.Regions.Cn779
use lorawan.Band.Regions.Eu433
use lorawan.Band.Regions.Eu863
use lorawan.Band.Regions.In865
use lorawan.Band.Regions.Kr920
use lorawan.Band.Regions.Us902
use lorawan.Band.Regions.Ru864

-- The search does not see the enabled flag.
first_index-same :
    (f i : ℕ) (d : Bool) (xs ys : List Channel)
    → length ys ≡ length xs
    → ((j : ℕ) → j < length xs → SameChannel (get_or xs j zero_channel) (get_or ys j zero_channel))
    → first_index (is_channel_for f d) i ys ≡ first_index (is_channel_for f d) i xs
unfolding first_index is_channel_for
first_index-same f i d [] [] h same = refl
first_index-same f i d [] (y ∷ ys) h same = absurd (omega arith)
first_index-same f i d (x ∷ xs) [] h same = absurd (omega arith)
first_index-same f i d (x ∷ xs) (y ∷ ys) h same =
    let (freq, lo, hi, custom) = same 0 (omega arith) in
    let rest =
      first_index-same f (i + 1) d xs ys (omega arith) (λ j k. same (suc j) (omega arith)) in
    rw (rest, freq, custom) refl

is_index : ℕ → Option ℕ → Bool
is_index i none = false
is_index i (some j) = j == i

-- Each of the first `n` channels is the first default channel of its frequency.
all_found : List Channel → ℕ → Bool
all_found cs zero = true
all_found cs (suc n) =
    is_index n (first_index (is_channel_for (get_or cs n zero_channel).frequency true) 0 cs)
    && all_found cs n

is_index_sound : (i : ℕ) (o : Option ℕ) → is_index i o ≡ true → o ≡ some i
unfolding is_index
is_index_sound i none h = cc
is_index_sound i (some j) h = ground arith

all_found_sound :
    (cs : List Channel) (n i : ℕ)
    → all_found cs n ≡ true
    → i < n
    → first_index (is_channel_for (get_or cs i zero_channel).frequency true) 0 cs ≡ some i
unfolding all_found
all_found_sound cs zero i h l = absurd (omega arith)
all_found_sound cs (suc n) i h l = elim (Bool-cases (i == n)) [
  | inl e ↦
      let same : i ≡ n = ground arith in
      rw same (
        is_index_sound n
          (first_index (is_channel_for (get_or cs n zero_channel).frequency true) 0 cs)
          (ground arith))
  | inr e ↦ all_found_sound cs n i (ground arith) (ground arith)
]

-- A band whose default channels differ in frequency finds each of them, after any calls.
find_channel :
    (b c : Band) (i : ℕ)
    → Calls b c
    → b.supports_extra_channels ≡ false
    → All (λ (x : Channel). x.custom ≡ false) b.uplink_channels
    → all_found b.uplink_channels (length b.uplink_channels) ≡ true
    → i < length c.uplink_channels
    → get_uplink_channel_index c (get_or c.uplink_channels i zero_channel).frequency true ≡ ok i
unfolding get_uplink_channel_index
find_channel b c i calls plain fixed differ h =
    let (size, still) = Calls-fixed b c calls plain fixed in
    let same = (Calls-KeepsChannels b c calls).1 in
    let frequency = (same i (omega arith)).0 in
    rw⁻¹ frequency (
      rw
        (first_index-same (get_or b.uplink_channels i zero_channel).frequency 0 true
          b.uplink_channels c.uplink_channels size same)
        (rw (all_found_sound b.uplink_channels (length b.uplink_channels) i differ (omega arith))
          refl))

-- In every region, after any calls that add, enable or disable channels, the RX1 frequency of the
-- frequency of an uplink channel is the frequency of the downlink channel whose number is the RX1
-- channel of that uplink channel.
pub rx1_frequency_lem :
    (r : Region) (repeater : Bool) (dt : DwellTime) (b : Band) (i : ℕ)
    → Calls (new_band_of r repeater dt) b
    → i < length b.uplink_channels
    → rx1_frequency_of r b (get_or b.uplink_channels i zero_channel).frequency
      ≡ (rx1_channel_index_of r i >>= λ j. ok (get_or b.downlink_channels j zero_channel).frequency)
unfolding rx1_frequency_of rx1_channel_index_of new_band_of all_found is_index first_index
    is_channel_for As923.get_rx1_frequency_for_uplink_frequency
    As923.get_rx1_channel_index_for_uplink_channel_index As923.new_band As923.uplink_channels
    As923.downlink_channels Cn779.get_rx1_frequency_for_uplink_frequency
    Cn779.get_rx1_channel_index_for_uplink_channel_index Cn779.new_band Cn779.uplink_channels
    Cn779.downlink_channels Eu433.get_rx1_frequency_for_uplink_frequency
    Eu433.get_rx1_channel_index_for_uplink_channel_index Eu433.new_band Eu433.uplink_channels
    Eu433.downlink_channels Eu863.get_rx1_frequency_for_uplink_frequency
    Eu863.get_rx1_channel_index_for_uplink_channel_index Eu863.new_band Eu863.uplink_channels
    Eu863.downlink_channels In865.get_rx1_frequency_for_uplink_frequency
    In865.get_rx1_channel_index_for_uplink_channel_index In865.new_band In865.uplink_channels
    In865.downlink_channels Kr920.get_rx1_frequency_for_uplink_frequency
    Kr920.get_rx1_channel_index_for_uplink_channel_index Kr920.new_band Kr920.uplink_channels
    Kr920.downlink_channels Ru864.get_rx1_frequency_for_uplink_frequency
    Ru864.get_rx1_channel_index_for_uplink_channel_index Ru864.new_band Ru864.uplink_channels
    Ru864.downlink_channels Au915.get_rx1_frequency_for_uplink_frequency
    Au915.get_rx1_channel_index_for_uplink_channel_index Au915.new_band Au915.uplink_channels
    Au915.downlink_channels Cn470.get_rx1_frequency_for_uplink_frequency
    Cn470.get_rx1_channel_index_for_uplink_channel_index Cn470.new_band Cn470.uplink_channels
    Cn470.downlink_channels Us902.get_rx1_frequency_for_uplink_frequency
    Us902.get_rx1_channel_index_for_uplink_channel_index Us902.new_band Us902.uplink_channels
    Us902.downlink_channels
rx1_frequency_lem as923 repeater dt b i calls h =
    ap ok ((Calls-IsPaired (new_band_of as923 repeater dt) b calls (refl, λ j. refl)).1 i)
rx1_frequency_lem cn779 repeater dt b i calls h =
    ap ok ((Calls-IsPaired (new_band_of cn779 repeater dt) b calls (refl, λ j. refl)).1 i)
rx1_frequency_lem eu433 repeater dt b i calls h =
    ap ok ((Calls-IsPaired (new_band_of eu433 repeater dt) b calls (refl, λ j. refl)).1 i)
rx1_frequency_lem eu863 repeater dt b i calls h =
    ap ok ((Calls-IsPaired (new_band_of eu863 repeater dt) b calls (refl, λ j. refl)).1 i)
rx1_frequency_lem in865 repeater dt b i calls h =
    ap ok ((Calls-IsPaired (new_band_of in865 repeater dt) b calls (refl, λ j. refl)).1 i)
rx1_frequency_lem kr920 repeater dt b i calls h =
    ap ok ((Calls-IsPaired (new_band_of kr920 repeater dt) b calls (refl, λ j. refl)).1 i)
rx1_frequency_lem ru864 repeater dt b i calls h =
    ap ok ((Calls-IsPaired (new_band_of ru864 repeater dt) b calls (refl, λ j. refl)).1 i)
rx1_frequency_lem au915 repeater dt b i calls h =
    rw (find_channel (new_band_of au915 repeater dt) b i calls refl (ground arith) refl h) refl
rx1_frequency_lem cn470 repeater dt b i calls h =
    rw (find_channel (new_band_of cn470 repeater dt) b i calls refl (ground arith) refl h) refl
rx1_frequency_lem us902 repeater dt b i calls h =
    rw (find_channel (new_band_of us902 repeater dt) b i calls refl (ground arith) refl h) refl
