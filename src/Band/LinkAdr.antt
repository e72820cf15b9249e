-- ===== src/Band/LinkAdr.antt =====
-- The LinkADRReq payloads that configure a device, and what they do to its channels (band.go).
pub mod Masks
pub mod Apply
pub mod Blocks
pub mod Plan
use lorawan.Prelude.{
  ℕ, Bool, List, [], ◌∷◌, ◌++◌, Option, false, if◌then◌else◌, suc, Result, leb, ltb, not, some,
  zero, ◌&&◌, ◌+◌, ◌/◌, ◌==◌, get_or, length, none, ok, ◌*◌, ◌>>=◌, ◌||◌, err, replicate, true, ◌%◌,
  message, ◌^◌,
}
use lorawan.Mac.Link.{ChMask, LinkAdrReqPayload, zero_link_adr_req, ch_mask_nil}
use lorawan.Band.Channel.{Band, get_enabled_uplink_channel_indices, zero_channel}
use lorawan.Frame.Body.{is_empty}

unfoldable pub channel_is_active : List ℕ → ℕ → Bool
channel_is_active [] i = false
channel_is_active (c ∷ cs) i = i == c || channel_is_active cs i

-- The members of the first list that the second does not have.
unfoldable pub missing : List ℕ → List ℕ → List ℕ
missing [] ys = []
missing (x ∷ xs) ys = if channel_is_active ys x then missing xs ys else x ∷ missing xs ys

unfoldable pub int_slice_diff : List ℕ → List ℕ → List ℕ
int_slice_diff xs ys = missing xs ys ++ missing ys xs

-- `sort.Ints`
unfoldable pub insert_int : ℕ → List ℕ → List ℕ
insert_int x [] = x ∷ []
insert_int x (y ∷ ys) = if leb x y then x ∷ y ∷ ys else y ∷ insert_int x ys

unfoldable pub sort_ints : List ℕ → List ℕ
sort_ints [] = []
sort_ints (x ∷ xs) = insert_int x (sort_ints xs)

-- `mask[i] = value`
unfoldable pub set_at {ℓ} : {A : Type ℓ} → List A → ℕ → A → List A
set_at [] i value = []
set_at (b ∷ bs) zero value = value ∷ bs
set_at (b ∷ bs) (suc i) value = b ∷ set_at bs i value

-- `c/16 == chMaskCntl`
unfoldable pub is_block : Option ℕ → ℕ → Bool
is_block none block = false
is_block (some last) block = block == last

-- The mask of a block of 16 channels: the loop over the enabled channels, of which some are
-- offered.
unfoldable pub block_mask : (ℕ → Bool) → ℕ → List ℕ → ChMask → ChMask
block_mask offered block [] mask = mask
block_mask offered block (ec ∷ ecs) mask = block_mask offered block ecs (
    if offered ec && leb (block * 16) ec && ltb ec ((block + 1) * 16)
    then set_at mask (ec % 16) true
    else mask)

-- The loop over the differences: a payload where the block is not that of the last payload,
-- which is none at first (`chMaskCntl := -1`).
unfoldable pub block_payloads : (ℕ → LinkAdrReqPayload) → Option ℕ → List ℕ → List LinkAdrReqPayload
block_payloads payload last [] = []
block_payloads payload last (c ∷ cs) =
    if is_block last (c / 16)
    then block_payloads payload last cs
    else payload (c / 16) ∷ block_payloads payload (some (c / 16)) cs

module _ (b : Band) (device : List ℕ) where
  -- A custom channel is enabled on no device that does not have it already.
  unfoldable pub is_offered : ℕ → Bool
  is_offered c = not (get_or b.uplink_channels c zero_channel).custom || channel_is_active device c

  -- The differences that are worth a request.
  unfoldable pub filtered_diff : List ℕ → List ℕ
  filtered_diff [] = []
  filtered_diff (c ∷ cs) = if is_offered c then c ∷ filtered_diff cs else filtered_diff cs

  unfoldable pub block_payload : ℕ → LinkAdrReqPayload
  block_payload block = record zero_link_adr_req {
    ch_mask = block_mask is_offered block (get_enabled_uplink_channel_indices b) ch_mask_nil;
    redundancy = record { ch_mask_cntl = block % 2 ^ 8; nb_rep = 0 };
  }

  unfoldable pub get_link_adr_req_payloads : List LinkAdrReqPayload
  get_link_adr_req_payloads =
      let diff = int_slice_diff device (get_enabled_uplink_channel_indices b) in
      if is_empty diff || is_empty (filtered_diff diff)
      then []
      else block_payloads block_payload none (sort_ints diff)

-- The channels of the device that the band has.
unfoldable pub device_mask : List ℕ → List Bool → List Bool
device_mask [] mask = mask
device_mask (c ∷ cs) mask =
    device_mask cs (if ltb c (length mask) then set_at mask c true else mask)

-- The loop over the mask of one payload, from channel `i` on.
unfoldable pub apply_mask : ℕ → ChMask → List Bool → Result (List Bool)
apply_mask i [] mask = ok mask
apply_mask i (enabled ∷ rest) mask =
    if leb (length mask) i
    then if enabled then err (message "channel does not exist") else apply_mask (i + 1) rest mask
    else apply_mask (i + 1) rest (set_at mask i enabled)

-- The body of the loop over the payloads. `ChMaskCntl*16` is a product of bytes.
unfoldable pub apply_payload : LinkAdrReqPayload → List Bool → Result (List Bool)
apply_payload p mask = apply_mask (p.redundancy.ch_mask_cntl * 16 % 2 ^ 8) p.ch_mask mask

unfoldable pub apply_payloads :
    (LinkAdrReqPayload → List Bool → Result (List Bool))
    → List LinkAdrReqPayload
    → List Bool
    → Result (List Bool)
apply_payloads apply [] mask = ok mask
apply_payloads apply (p ∷ ps) mask = do mask' ← apply p mask; apply_payloads apply ps mask'

-- The mask as channel numbers, from `i` on.
unfoldable pub mask_channels : ℕ → List Bool → List ℕ
mask_channels i [] = []
mask_channels i (enabled ∷ mask) =
    if enabled then i ∷ mask_channels (i + 1) mask else mask_channels (i + 1) mask

-- The method, with the body of its loop.
unfoldable pub enabled_after :
    (LinkAdrReqPayload → List Bool → Result (List Bool))
    → Band
    → List ℕ
    → List LinkAdrReqPayload
    → Result (List ℕ)
enabled_after apply b device ps = do
  mask ← apply_payloads apply ps (device_mask device (replicate (length b.uplink_channels) false))
  ok (mask_channels 0 mask)

unfoldable pub get_enabled_uplink_channel_indices_for :
    Band → List ℕ → List LinkAdrReqPayload → Result (List ℕ)
get_enabled_uplink_channel_indices_for b device ps = enabled_after apply_payload b device ps
