-- ===== src/Band/CfList.antt =====
-- The CFList of a join-accept that a band makes (GetCFList in band.go).
pub mod Contents
pub mod Masks
use lorawan.Prelude.{
  ℕ, Bool, List, Option, [], if◌then◌else◌, replicate, ◌&&◌, ◌++◌, ◌∷◌, get_or, ltb, not, ◌==◌,
  none, ◌%◌, ◌+◌, ◌||◌, some, ◌^◌,
}
use text.Mathlib.Text.{◌==◌ as str_eq}
use Prim.Native.String.{String}
use lorawan.Band.Channel.{Band, Channel}
use lorawan.Band.LinkAdr.{set_at}
use lorawan.Join.CfList.{CfList, CfListPayload, channels, channel_masks, Channels}
use lorawan.Mac.Link.{ChMask, ch_mask_nil}

-- The loop over the channels from number `i` on, with the masks that are complete and the one
-- that is being filled.
unfoldable pub cf_list_masks : ℕ → List ChMask → ChMask → List Channel → List ChMask
cf_list_masks i masks mask [] = masks ++ (mask ∷ [])
cf_list_masks i masks mask (c ∷ cs) =
    let full = not (i == 0) && i % 16 == 0 in
    cf_list_masks (i + 1) (if full then masks ++ (mask ∷ []) else masks)
      (set_at (if full then ch_mask_nil else mask) (i % 16) c.enabled) cs

unfoldable pub get_cf_list_channel_mask : Band → CfList
get_cf_list_channel_mask b = record {
  payload = channel_masks (cf_list_masks 0 [] ch_mask_nil b.uplink_channels);
  cf_list_type = 1;
}

unfoldable pub is_extra : Channel → Bool
is_extra c = c.custom && c.min_dr == 0 && c.max_dr == 5

-- The loop over the channels, with the number of those that are set.
unfoldable pub cf_list_channels : ℕ → Channels → List Channel → Channels
cf_list_channels i fs [] = fs
cf_list_channels i fs (c ∷ cs) =
    let used = is_extra c && ltb i 5 in
    cf_list_channels (if used then i + 1 else i)
      (if used then set_at fs i (c.frequency % 2 ^ 32) else fs) cs

unfoldable pub get_cf_list_channels : Band → Option CfList
get_cf_list_channels b =
    let fs = cf_list_channels 0 (replicate 5 0) b.uplink_channels in
    if get_or fs 0 0 == 0 then none else some (record { payload = channels fs; cf_list_type = 0 })

unfoldable pub get_cf_list : Band → String → Option CfList
get_cf_list b protocol_version =
    if not b.supports_extra_channels
      && (str_eq protocol_version "1.0.0"
          || str_eq protocol_version "1.0.1"
          || str_eq protocol_version "1.0.2")
    then none
    else if b.supports_extra_channels
    then get_cf_list_channels b
    else some (get_cf_list_channel_mask b)
