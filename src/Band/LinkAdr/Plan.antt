-- ===== src/Band/LinkAdr/Plan.antt =====
-- GetLinkADRReqPayloadsForEnabledUplinkChannelIndices of band.go and what the device does with it.
use lorawan.Prelude.{
  ℕ, zero, suc, Bool, true, false, List, [], ◌∷◌, ◌≡◌, ◌<◌, ◌≤◌, ◌+◌, ◌*◌, ◌%◌, ◌||◌, length,
  get_or, replicate, arith, refl, ok, length-replicate, All, Bool-cases, inl, inr, ◌^◌, ◌∙◌, ap,
  sym, Result,
}
use lorawan.Band.LinkAdr.{
  channel_is_active, int_slice_diff, sort_ints, is_offered, filtered_diff, block_mask,
  block_payload, get_link_adr_req_payloads, apply_payloads, get_enabled_uplink_channel_indices_for,
  device_mask, apply_payload,
}
use lorawan.Band.LinkAdr.Masks.{
  is_wanted, get_or-block_mask, length-block_mask, channel_is_active-indices, get_or-replicate,
  get_or-device_mask-false, length-device_mask, channel_is_active-int_slice_diff,
  channel_is_active-diff_sound, channel_is_active-sort_ints, channel_is_active_sound,
}
use lorawan.Band.Channel.State.{no_custom}
use lorawan.Band.Channel.{Band, Channel, zero_channel, get_enabled_uplink_channel_indices}
use lorawan.Band.LinkAdr.Blocks.{
  SetsBlock, Reaches, apply_mask-SetsBlock, block_payloads-Reaches, enabled_after-keep, keep,
  keep_all,
}
use lorawan.Mac.Link.{ChMask, ch_mask_nil, LinkAdrReqPayload}
use lorawan.Frame.Body.{is_empty}

module _ (b : Band) (device : List ℕ) where
  pub enabled_inside :
      (cs : List Channel) (j : ℕ) → (get_or cs j zero_channel).enabled ≡ true → j < length cs
  enabled_inside [] j h = cc
  enabled_inside (c ∷ cs) zero h = omega arith
  enabled_inside (c ∷ cs) (suc j) h = omega (arith, enabled_inside cs j h)

  pub channel_is_active-enabled :
      (j : ℕ)
      → channel_is_active (get_enabled_uplink_channel_indices b) j
        ≡ (get_or b.uplink_channels j zero_channel).enabled
  unfolding get_enabled_uplink_channel_indices
  channel_is_active-enabled j =
      let all : 0 + j ≡ j = omega arith in
      rw all at (channel_is_active-indices (λ c. c.enabled) 0 j b.uplink_channels refl)

  mask_of : ℕ → ChMask
  mask_of q = block_mask (is_offered b device) q (get_enabled_uplink_channel_indices b) ch_mask_nil

  get_or-mask_of : (q k : ℕ) → k < 16 → get_or (mask_of q) k false ≡ is_wanted b device (q * 16 + k)
  unfolding mask_of
  get_or-mask_of q k h =
      get_or-block_mask (is_offered b device) q (get_enabled_uplink_channel_indices b) ch_mask_nil k
        h refl
      ∙ rw (channel_is_active-enabled, get_or-replicate 16 k) refl

  wanted_inside : (j : ℕ) → is_wanted b device j ≡ true → j < length b.uplink_channels
  wanted_inside j e = ground (arith, enabled_inside b.uplink_channels j)

  block_payload-SetsBlock :
      (q : ℕ) (m : List Bool)
      → q < 16
      → length m ≡ length b.uplink_channels
      → SetsBlock
          (is_wanted b device)
          (length b.uplink_channels)
          q
          m
          (apply_payload (block_payload b device q) m)
  unfolding apply_payload block_payload mask_of
  block_payload-SetsBlock q m h len =
      let start : q % 2 ^ 8 * 16 % 2 ^ 8 ≡ q * 16 = omega arith in
      rw start (
        apply_mask-SetsBlock (length b.uplink_channels) (is_wanted b device) wanted_inside q
          (mask_of q) m (length-block_mask (is_offered b device) q _ _) (get_or-mask_of q) len)

  -- The differences between the channels of the device and the enabled ones.
  device_diff : List ℕ
  device_diff = int_slice_diff device (get_enabled_uplink_channel_indices b)

  -- What the device has when the requests are made.
  start_mask : List Bool
  start_mask = device_mask device (replicate (length b.uplink_channels) false)

  length-start_mask : length start_mask ≡ length b.uplink_channels
  unfolding start_mask
  length-start_mask =
      length-device_mask device (replicate (length b.uplink_channels) false)
      ∙ length-replicate (length b.uplink_channels) false

  -- A channel with no difference is as wanted at the start.
  start_mask-same :
      (j : ℕ)
      → channel_is_active device_diff j ≡ false
      → get_or start_mask j false ≡ is_wanted b device j
  unfolding start_mask device_diff is_offered
  start_mask-same j h = ground (
    arith,
    get_or-device_mask-false device (length b.uplink_channels) j,
    channel_is_active-int_slice_diff device (get_enabled_uplink_channel_indices b) j,
    channel_is_active-enabled j,
    enabled_inside b.uplink_channels j,
  )

  -- A difference that is not worth a request is a custom channel that the device does not have.
  start_mask-not_offered :
      (j : ℕ) → is_offered b device j ≡ false → get_or start_mask j false ≡ is_wanted b device j
  unfolding start_mask is_offered
  start_mask-not_offered j h =
      ground (arith, get_or-device_mask-false device (length b.uplink_channels) j)

  not_offered :
      (cs : List ℕ) (j : ℕ)
      → is_empty (filtered_diff b device cs) ≡ true
      → channel_is_active cs j ≡ true
      → is_offered b device j ≡ false
  unfolding filtered_diff channel_is_active
  not_offered [] j h k = cc
  not_offered (c ∷ cs) j h k = ground (arith, not_offered cs j)

  nothing_active : (cs : List ℕ) (j : ℕ) → is_empty cs ≡ true → channel_is_active cs j ≡ false
  unfolding channel_is_active
  nothing_active [] j h = refl
  nothing_active (c ∷ cs) j h = cc

  start_mask-nothing :
      (is_empty device_diff || is_empty (filtered_diff b device device_diff)) ≡ true
      → (j : ℕ) → get_or start_mask j false ≡ is_wanted b device j
  start_mask-nothing h j = elim (Bool-cases (channel_is_active device_diff j)) [
    | inl e ↦
        start_mask-not_offered j
          (ground (arith, nothing_active device_diff j, not_offered device_diff j))
    | inr e ↦ start_mask-same j e
  ]

  -- Channels are numbered with a byte.
  device_diff-small :
      (n j : ℕ)
      → All (λ c. c < n) device
      → length b.uplink_channels ≤ n
      → channel_is_active device_diff j ≡ true
      → j < n
  unfolding device_diff
  device_diff-small n j small few e = ground (
    arith,
    channel_is_active-diff_sound device (get_enabled_uplink_channel_indices b) j,
    channel_is_active_sound device j n small,
    channel_is_active-enabled j,
    enabled_inside b.uplink_channels j,
  )

  -- The payloads do what they are made for in any loop that applies those of the first blocks.
  pub payloads-Reaches :
      (bound : ℕ) (apply : LinkAdrReqPayload → List Bool → Result (List Bool))
      → bound ≤ 16
      → ((q : ℕ) (m : List Bool)
          → q < bound
          → apply (block_payload b device q) m ≡ apply_payload (block_payload b device q) m)
      → All (λ c. c < bound * 16) device
      → length b.uplink_channels ≤ bound * 16
      → Reaches (is_wanted b device) (length b.uplink_channels) (
          apply_payloads apply
            (get_link_adr_req_payloads b device)
            (device_mask device (replicate (length b.uplink_channels) false)))
  unfolding get_link_adr_req_payloads device_diff apply_payloads start_mask
  payloads-Reaches bound apply least agrees small few =
      elim (Bool-cases (is_empty device_diff || is_empty (filtered_diff b device device_diff))) [
        | inl none_left ↦
            rw none_left (start_mask, refl, length-start_mask, start_mask-nothing none_left)
        | inr some_left ↦ rw some_left (
            block_payloads-Reaches (length b.uplink_channels) bound (is_wanted b device)
              (block_payload b device) apply sets (sort_ints device_diff) start_mask
              (λ j e. omega (arith, device_diff-small (bound * 16) j small few (same_set j ∙ e)))
              length-start_mask (λ j e. start_mask-same j (same_set j ∙ e)))
      ]
    where
      same_set :
          (j : ℕ) → channel_is_active device_diff j ≡ channel_is_active (sort_ints device_diff) j
      same_set j = sym (channel_is_active-sort_ints device_diff j)

      sets :
          (q : ℕ) (m : List Bool)
          → q < bound
          → length m ≡ length b.uplink_channels
          → SetsBlock
              (is_wanted b device)
              (length b.uplink_channels)
              q
              m
              (apply (block_payload b device q) m)
      sets q m h len = rw (agrees q m h) (block_payload-SetsBlock q m (omega arith) len)

-- For a band of at most 256 uplink channels and a device whose channels are numbered below 256,
-- the LinkADRReq payloads made for the device are applied without error and leave it with exactly
-- the enabled channels of the band that are standard or that the device had already, whatever
-- channels it had.
pub payloads_configure :
    (b : Band) (device : List ℕ)
    → All (λ c. c < 256) device
    → length b.uplink_channels ≤ 256
    → get_enabled_uplink_channel_indices_for b device (get_link_adr_req_payloads b device)
      ≡ ok (keep (is_offered b device) (get_enabled_uplink_channel_indices b))
unfolding get_enabled_uplink_channel_indices_for
payloads_configure b device small few =
    enabled_after-keep apply_payload b device (get_link_adr_req_payloads b device)
      (is_offered b device)
      (payloads-Reaches b device 16 apply_payload (omega arith) (λ q m h. refl) small few)

-- For a band of at most 256 uplink channels, none of them custom, and a device whose channels are
-- numbered below 256, the LinkADRReq payloads that are made for the device leave it with
-- exactly the enabled channels of the band, whatever channels it had.
pub payloads_synchronise :
    (b : Band) (device : List ℕ)
    → All (λ c. c < 256) device
    → length b.uplink_channels ≤ 256
    → All (λ (c : Channel). c.custom ≡ false) b.uplink_channels
    → get_enabled_uplink_channel_indices_for b device (get_link_adr_req_payloads b device)
      ≡ ok (get_enabled_uplink_channel_indices b)
unfolding is_offered
payloads_synchronise b device small few plain =
    payloads_configure b device small few
    ∙ ap ok (
        keep_all (is_offered b device) (get_enabled_uplink_channel_indices b)
          (λ c. ground (arith, no_custom b.uplink_channels c plain)))
