-- ===== src/Band/Us915.antt =====
-- The methods of us902Band (band/band_us902_928.go) that configure the channels of a device. Those of
-- au915Band (band/band_au915_928.go) are the same, line by line.
pub mod Plan
use lorawan.Prelude.{
  ℕ, zero, suc, Bool, List, Option, Result, [], true, ◌∷◌, if◌then◌else◌, none, ◌%◌, leb, ltb, ◌==◌,
  ◌^◌, length, ◌||◌, slice, ◌/◌, ◌++◌, some,
}
use lorawan.Band.LinkAdr.{
  block_mask, is_block, set_at, sort_ints, get_link_adr_req_payloads, apply_mask, apply_payload,
  enabled_after,
}
use lorawan.Mac.Link.{ChMask, LinkAdrReqPayload, zero_link_adr_req, ch_mask_nil}
use lorawan.Band.Channel.{Band, get_enabled_uplink_channel_indices}

-- All 125 kHz channels off, and the mask for channels 64 to 71.
unfoldable pub all_off_payload : ChMask → LinkAdrReqPayload
all_off_payload mask = record zero_link_adr_req {
  ch_mask = mask;
  redundancy = record { ch_mask_cntl = 7; nb_rep = 0 };
}

-- The mask of a block of 16 channels, whatever the device has.
unfoldable pub sub_band_payload : List ℕ → ℕ → LinkAdrReqPayload
sub_band_payload enabled block = record zero_link_adr_req {
  ch_mask = block_mask (λ ec. true) block enabled ch_mask_nil;
  redundancy = record { ch_mask_cntl = block % 2 ^ 8; nb_rep = 0 };
}

-- The loop over the enabled channels, with the mask of `out[0]`, the rest of `out`, and the last
-- block.
unfoldable pub sub_band_payloads :
    List ℕ → ChMask → List LinkAdrReqPayload → Option ℕ → List ℕ → List LinkAdrReqPayload
sub_band_payloads enabled first rest last [] = all_off_payload first ∷ rest
sub_band_payloads enabled first rest last (c ∷ cs) =
    sub_band_payloads enabled (if leb 64 c then set_at first (c % 16) true else first)
      (if leb 64 c || is_block last (c / 16)
        then rest
        else rest ++ (sub_band_payload enabled (c / 16) ∷ []))
      (if leb 64 c then last else some (c / 16)) cs

unfoldable pub us_get_link_adr_req_payloads : Band → List ℕ → List LinkAdrReqPayload
us_get_link_adr_req_payloads b device =
    let payloads_a = get_link_adr_req_payloads b device in
    let enabled = sort_ints (get_enabled_uplink_channel_indices b) in
    let out = sub_band_payloads enabled ch_mask_nil [] none enabled in
    if ltb (length payloads_a) (length out) then payloads_a else out

-- The channels 0 to `n - 1`, all on or all off.
unfoldable pub fill : ℕ → Bool → List Bool → List Bool
fill zero value m = m
fill (suc n) value [] = []
fill (suc n) value (v ∷ m) = value ∷ fill n value m

-- The body of the loop over the payloads. These bands have 72 channels; where there are fewer, Go
-- panics at the assignments that the first case stands for.
unfoldable pub us_apply_payload : LinkAdrReqPayload → List Bool → Result (List Bool)
us_apply_payload p mask =
    let cntl = p.redundancy.ch_mask_cntl in
    if cntl == 6 || cntl == 7
    then apply_mask 64 (slice 0 8 p.ch_mask) (fill 64 (cntl == 6) mask)
    else apply_payload p mask

unfoldable pub us_get_enabled_uplink_channel_indices_for :
    Band → List ℕ → List LinkAdrReqPayload → Result (List ℕ)
us_get_enabled_uplink_channel_indices_for b device ps = enabled_after us_apply_payload b device ps

-- The methods of au915Band, which repeat those of us902Band.
unfoldable pub au_get_link_adr_req_payloads : Band → List ℕ → List LinkAdrReqPayload
au_get_link_adr_req_payloads b device = us_get_link_adr_req_payloads b device

unfoldable pub au_get_enabled_uplink_channel_indices_for :
    Band → List ℕ → List LinkAdrReqPayload → Result (List ℕ)
au_get_enabled_uplink_channel_indices_for b device ps = enabled_after us_apply_payload b device ps
