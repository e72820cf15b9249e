-- ===== src/Band/Region/Plan.antt =====
-- The LinkADRReq payloads of every region, after any calls that change its channels
-- (band/band.go, band/band_us902_928.go, band/band_au915_928.go).
use lorawan.Prelude.{
  ℕ, false, Bool, List, All, length, ◌≡◌, ◌≤◌, ok, ◌<◌, arith, ◌∙◌, ◌∷◌, [], ap, refl, sym,
}
use lorawan.Mac.Settings.{DwellTime}
use lorawan.Band.Channel.{Band, Channel, get_enabled_uplink_channel_indices}
use lorawan.Band.Channel.State.{Calls, Calls-fixed, no_custom}
use lorawan.Band.LinkAdr.{is_offered}
use lorawan.Band.LinkAdr.Blocks.{keep, keep_all}
use lorawan.Band.LinkAdr.Plan.{payloads_configure}
use lorawan.Band.Us915.Plan.{us_payloads_synchronise}
use lorawan.Band.Region.{
  Region, as923, au915, cn470, cn779, eu433, eu863, in865, kr920, us902, ru864, new_band_of,
  link_adr_req_payloads_of, enabled_uplink_channel_indices_of,
}
use lorawan.Band.Regions.Au915
use lorawan.Band.Regions.Us902
use lorawan.Band.Us915.{
  au_get_link_adr_req_payloads, au_get_enabled_uplink_channel_indices_for,
  us_get_enabled_uplink_channel_indices_for,
}

All-lt : (n m : ℕ) (cs : List ℕ) → n ≤ m → All (λ c. c < n) cs → All (λ c. c < m) cs
All-lt n m [] h k = tt
All-lt n m (c ∷ cs) h k = (omega (arith, k.0), All-lt n m cs h k.1)

-- The device follows the plan of the region.
abbrev pub Configures : Region → Band → List ℕ → Type 0
Configures r b device =
    enabled_uplink_channel_indices_of r b device (link_adr_req_payloads_of r b device)
    ≡ ok (keep (is_offered b device) (get_enabled_uplink_channel_indices b))

general :
    (b : Band) (device : List ℕ)
    → All (λ c. c < 96) device
    → length b.uplink_channels ≤ 256
    → Configures ru864 b device
unfolding enabled_uplink_channel_indices_of link_adr_req_payloads_of
general b device small few =
    payloads_configure b device (All-lt 96 256 device (omega arith) small) few

sub_bands :
    (b : Band) (device : List ℕ)
    → All (λ c. c < 96) device
    → length b.uplink_channels ≡ 72
    → All (λ (c : Channel). c.custom ≡ false) b.uplink_channels
    → Configures us902 b device
unfolding enabled_uplink_channel_indices_of link_adr_req_payloads_of is_offered
sub_bands b device small size fixed =
    us_payloads_synchronise b device size fixed small
    ∙ ap ok (
        sym (
          keep_all (is_offered b device) (get_enabled_uplink_channel_indices b)
            (λ c. ground (arith, no_custom b.uplink_channels c fixed))))

-- In every region, after any calls that add, enable or disable channels, for a band of at most
-- 256 uplink channels and a device whose channels are numbered below 96: the LinkADRReq payloads
-- that the region's method makes for the device, given to the region's method that applies them,
-- succeed and leave the device with exactly the enabled channels of the band that are standard or
-- that the device had already.
pub Calls-Configures :
    (r : Region) (repeater : Bool) (dt : DwellTime) (b : Band) (device : List ℕ)
    → Calls (new_band_of r repeater dt) b
    → length b.uplink_channels ≤ 256
    → All (λ c. c < 96) device
    → Configures r b device
unfolding enabled_uplink_channel_indices_of link_adr_req_payloads_of new_band_of Us902.new_band
    Us902.uplink_channels Au915.new_band Au915.uplink_channels
Calls-Configures us902 repeater dt b device calls few small =
    let (size, fixed) = Calls-fixed (Us902.new_band repeater) b calls refl (ground arith) in
    sub_bands b device small size fixed
Calls-Configures au915 repeater dt b device calls few small =
    let (size, fixed) = Calls-fixed (Au915.new_band repeater dt) b calls refl (ground arith) in
    unfold au_get_link_adr_req_payloads au_get_enabled_uplink_channel_indices_for
      us_get_enabled_uplink_channel_indices_for in
    sub_bands b device small size fixed
Calls-Configures as923 repeater dt b device calls few small = general b device small few
Calls-Configures cn470 repeater dt b device calls few small = general b device small few
Calls-Configures cn779 repeater dt b device calls few small = general b device small few
Calls-Configures eu433 repeater dt b device calls few small = general b device small few
Calls-Configures eu863 repeater dt b device calls few small = general b device small few
Calls-Configures in865 repeater dt b device calls few small = general b device small few
Calls-Configures kr920 repeater dt b device calls few small = general b device small few
Calls-Configures ru864 repeater dt b device calls few small = general b device small few
